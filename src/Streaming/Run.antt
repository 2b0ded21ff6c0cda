-- ===== src/Streaming/Run.antt =====
-- The state of one stream after a history of its messages (crates/consensus/src/streaming.rs).
use ultramarine.Common.{
  ℕ, suc, ◌<◌, ◌≡◌, refl, ap, ◌∙◌, Bool, true, none, some, List, [], ◌∷◌, map, arith, length, ◌==◌,
  if◌then◌else◌,
}
use ultramarine.Types.Part.{ProposalInit, init}
use ultramarine.Streaming.{
  StreamApi, StreamMessage, StreamState, content, ends, default, insert, insert_new, receive,
  complete,
}
use ultramarine.Streaming.Heap.{heaped, length-heaped, All, any_of}

-- A message of a stream of `n` messages that starts with the part `init i`: number 0 carries it, and
-- the end is number `n - 1`.
pub record IsFrame (i : ProposalInit) (n : ℕ) (m : StreamMessage) : Type 0 where
  pub first : m.sequence ≡ 0 → m.body ≡ content (init i)
  pub last : ends m.body ≡ true → suc m.sequence ≡ n

abbrev pub has_first : List StreamMessage → Bool
has_first = any_of (λ m. m.sequence == 0)

abbrev pub has_fin : List StreamMessage → Bool
has_fin = any_of (λ m. ends m.body)

-- What the stream has gathered after the history `h`, the latest message first.
abbrev pub gathered : ProposalInit → ℕ → List StreamMessage → StreamState
gathered i n h = record {
  buffer = heaped h;
  init_info = if has_first h then some i else none;
  seen_sequences = map (λ m. m.sequence) h;
  total_messages = if has_fin h then n else 0;
  fin_received = has_fin h;
}

module _ (api : StreamApi) (i : ProposalInit) (n : ℕ) where
  pub receive-gathered :
      (m : StreamMessage) (h : List StreamMessage)
      → IsFrame i n m
      → receive api m
          (record (gathered i n h) { seen_sequences = m.sequence ∷ map (λ x. x.sequence) h })
        ≡ gathered i n (m ∷ h)
  unfolding receive heaped
  receive-gathered m h f = ground (arith, api.is_first_lem m, api.is_fin_lem m, f.first, f.last)

  complete_partial :
      (h : List StreamMessage) → length h < n → complete (gathered i n h) ≡ (gathered i n h, none)
  unfolding complete
  complete_partial h k = ground (arith, length-heaped h)

  -- A message adds itself to what is gathered, and then the test of completion is made.
  pub insert-gathered :
      (m : StreamMessage) (h : List StreamMessage)
      → IsFrame i n m
      → insert_new api (gathered i n h) m ≡ complete (gathered i n (m ∷ h))
  unfolding insert_new insert
  insert-gathered m h f = ap complete (receive-gathered m h f)

  -- Until the last message arrives, a message gives no proposal.
  pub insert_partial :
      (m : StreamMessage) (h : List StreamMessage)
      → IsFrame i n m
      → suc (length h) < n
      → insert_new api (gathered i n h) m ≡ (gathered i n (m ∷ h), none)
  insert_partial m h f k = insert-gathered m h f ∙ complete_partial (m ∷ h) k

-- The state of a stream after a history, the latest message first.
abbrev pub run : StreamApi → List StreamMessage → StreamState
run api [] = default
run api (m ∷ h) = (insert_new api (run api h) m).0

pub run_partial :
    (api : StreamApi) (i : ProposalInit) (n : ℕ) (h : List StreamMessage)
    → All (IsFrame i n) h
    → length h < n
    → run api h ≡ gathered i n h
unfolding heaped
run_partial api i n [] a k = refl
run_partial api i n (m ∷ h) a k =
    ap (λ s. (insert_new api s m).0) (run_partial api i n h a.1 (omega arith))
    ∙ ap (λ p. p.0) (insert_partial api i n m h a.0 k)
