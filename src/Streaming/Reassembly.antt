-- ===== src/Streaming/Reassembly.antt =====
-- One stream of crates/consensus/src/streaming.rs receives the messages of a proposal in any order.
use ultramarine.Common.{
  ℕ, suc, ◌+◌, ◌<◌, ◌≡◌, refl, subst, ap, true, Option, none, some, List, [], ◌∷◌, ◌++◌, arith,
  length, length-append, ◌==◌,
}
use native.Mathlib.Numerals.{add-one}
use ultramarine.Types.Part.{ProposalInit, ProposalPart, init}
use ultramarine.Streaming.{
  StreamApi, StreamMessage, ProposalParts, ends, drain, insert_new, complete, to_messages,
}
use ultramarine.Streaming.Heap.{
  All, All-Shuffle, Shuffle, Rises, heaped-Shuffle, length-Shuffle, any_of-Shuffle,
}
use ultramarine.Streaming.Run.{
  IsFrame, has_first, has_fin, gathered, insert-gathered, insert_partial, run, run_partial,
}

length-to_messages :
    (id : List ℕ) (n : ℕ) (ps : List ProposalPart) → length (to_messages id n ps) ≡ suc (length ps)
unfolding to_messages
length-to_messages id n [] = refl
length-to_messages id n (p ∷ ps) = ap suc (length-to_messages id (n + 1) ps)

pub to_messages-Rises :
    (id : List ℕ) (n : ℕ) (ps : List ProposalPart) → Rises n (to_messages id n ps)
unfolding to_messages
to_messages-Rises id n [] = omega arith
to_messages-Rises id n (p ∷ ps) = (
  omega arith,
  subst (λ k. Rises k (to_messages id (n + 1) ps)) (add-one n) (to_messages-Rises id (n + 1) ps),
)

drain-to_messages :
    (id : List ℕ) (n : ℕ) (ps : List ProposalPart) → drain (to_messages id n ps) ≡ ps
unfolding drain to_messages
drain-to_messages id n [] = refl
drain-to_messages id n (p ∷ ps) = rw (drain-to_messages id (n + 1) ps)

later-IsFrame :
    (i : ProposalInit) (id : List ℕ) (n k : ℕ) (ps : List ProposalPart)
    → 0 < n
    → k ≡ suc (n + length ps)
    → All (IsFrame i k) (to_messages id n ps)
unfolding to_messages
later-IsFrame i id n k [] h e =
    (record { first = λ z. absurd (omega arith); last = λ _. omega arith }, tt)
later-IsFrame i id n k (p ∷ ps) h e = (
  record { first = λ z. absurd (omega arith); last = λ z. cc },
  later-IsFrame i id (n + 1) k ps (omega arith) (omega arith),
)

-- The messages of a proposal that starts with its `init` part.
abbrev pub sent : List ℕ → ProposalInit → List ProposalPart → List StreamMessage
sent id i ps = to_messages id 0 (init i ∷ ps)

pub sent-IsFrame :
    (id : List ℕ) (i : ProposalInit) (ps : List ProposalPart)
    → All (IsFrame i (suc (suc (length ps)))) (sent id i ps)
unfolding to_messages
sent-IsFrame id i ps = (
  record { first = λ z. refl; last = λ z. cc },
  later-IsFrame i id (0 + 1) _ ps (omega arith) (omega arith),
)

All-append : (P : StreamMessage → Type 0) (xs ys : List StreamMessage) → All P (xs ++ ys) → All P ys
All-append P [] ys a = a
All-append P (x ∷ xs) ys a = All-append P xs ys a.1

-- What the message after which `later` are still to come gives.
abbrev pub outcome : ProposalInit → List ProposalPart → List StreamMessage → Option ProposalParts
outcome i ps [] =
    some (record { height = i.height; round = i.round; proposer = i.proposer; parts = init i ∷ ps })
outcome i ps (x ∷ later) = none

-- The end of a stream is among its messages.
sent-has_fin : (id : List ℕ) (n : ℕ) (ps : List ProposalPart) → has_fin (to_messages id n ps) ≡ true
unfolding to_messages
sent-has_fin id n [] = refl
sent-has_fin id n (p ∷ ps) = sent-has_fin id (n + 1) ps

sent-has_first :
    (id : List ℕ) (i : ProposalInit) (ps : List ProposalPart) → has_first (sent id i ps) ≡ true
unfolding to_messages
sent-has_first id i ps = refl

complete_full :
    (id : List ℕ) (i : ProposalInit) (ps : List ProposalPart) (h : List StreamMessage)
    → Shuffle h (sent id i ps)
    → (complete (gathered i (suc (suc (length ps))) h)).1 ≡ outcome i ps []
unfolding complete
complete_full id i ps h s = ground (
  arith,
  heaped-Shuffle 0 s (to_messages-Rises id 0 (init i ∷ ps)),
  any_of-Shuffle (λ m. m.sequence == 0) s,
  any_of-Shuffle (λ m. ends m.body) s,
  sent-has_first id i ps,
  sent-has_fin id 0 (init i ∷ ps),
  length-to_messages id 0 (init i ∷ ps),
  drain-to_messages id 0 (init i ∷ ps),
)

module _ (api : StreamApi) (id : List ℕ) (i : ProposalInit) (ps : List ProposalPart)
    (m : StreamMessage) (h : List StreamMessage) where
  insert_last : Shuffle (m ∷ h) (sent id i ps) → (insert_new api (run api h) m).1 ≡ outcome i ps []
  insert_last s =
      let a = All-Shuffle (IsFrame i (suc (suc (length ps)))) s (sent-IsFrame id i ps) in
      let k : length h < suc (suc (length ps)) =
        omega (arith, length-Shuffle s, length-to_messages id 0 (init i ∷ ps)) in
      rw (run_partial api i _ h a.1 k)
        (rw (insert-gathered api i _ m h a.0) (complete_full id i ps (m ∷ h) s))

  -- The messages of a proposal give it when the last of them arrives, in whatever order they come,
  -- and nothing before.
  pub insert-outcome :
      (later : List StreamMessage)
      → Shuffle (later ++ m ∷ h) (sent id i ps)
      → (insert_new api (run api h) m).1 ≡ outcome i ps later
  insert-outcome [] s = insert_last s
  insert-outcome (x ∷ later) s =
      let a =
        All-append (IsFrame i (suc (suc (length ps)))) (x ∷ later) (m ∷ h)
          (All-Shuffle _ s (sent-IsFrame id i ps)) in
      let k : suc (length h) < suc (suc (length ps)) = omega (
        arith,
        length-Shuffle s,
        length-to_messages id 0 (init i ∷ ps),
        length-append (x ∷ later) (m ∷ h),
      ) in
      rw (run_partial api i _ h a.1 (omega arith))
        (ap (λ p. p.1) (insert_partial api i _ m h a.0 k))
