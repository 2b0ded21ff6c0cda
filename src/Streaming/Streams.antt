-- ===== src/Streaming/Streams.antt =====
-- All the streams of a node (`PartStreamsMap` of crates/consensus/src/streaming.rs), with the
-- messages of several peers and streams between one another.
use ultramarine.Common.{
  ℕ, ◌≡◌, refl, ap, ◌∙◌, true, false, Option, none, some, List, [], ◌∷◌, ◌++◌, map, arith,
  if◌then◌else◌, Bool-cases, inl, inr,
}
use ultramarine.Common.Ord.{Ord, pair_ord, bytes_ord}
use ultramarine.Common.Kv.Sorted.{find, find-insert_sorted}
use ultramarine.Types.Part.{ProposalInit, ProposalPart}
use ultramarine.Streaming.{
  StreamApi, StreamMessage, StreamState, ProposalParts, PartStreamsMap, or_default, insert,
  insert_new, insert_part, complete, is_done, contains, receive,
}
use ultramarine.Streaming.Heap.{
  All, Shuffle, Shuffle-drop, Shuffle_distinct, Differs, Distinct, Shuffle-Distinct,
}
use ultramarine.Streaming.Run.{run}
use ultramarine.Streaming.Reassembly.{sent, outcome, insert-outcome, to_messages-Rises}

-- A completed stream does not count as done: `take()` has emptied its `init_info`.
complete_not_done : (s : StreamState) → is_done (complete s).0 ≡ false
unfolding complete
complete_not_done s = ground arith

module _ (api : StreamApi) where
  insert_new_not_done :
      (s : StreamState) (m : StreamMessage) → is_done (insert_new api s m).0 ≡ false
  unfolding insert_new insert
  insert_new_not_done s m =
      complete_not_done
        (receive api m (record s { seen_sequences = m.sequence ∷ s.seen_sequences }))

  -- What a message does to its stream, a repeated one included.
  abbrev pub accept : StreamState → StreamMessage → StreamState × Option ProposalParts
  accept s m = if contains m.sequence s.seen_sequences then (s, none) else insert_new api s m

  module _ {P : Type 0} ⦃o : Ord P⦄ (streams : PartStreamsMap P) (peer : P)
      (m : StreamMessage) where
    abbrev own : StreamState
    own = or_default (find (peer, m.stream_id) streams)

    pub insert_part-result : (insert_part api streams peer m).1 ≡ (accept own m).1
    unfolding insert_part
    insert_part-result = ground arith

    -- Only the message's own stream changes, and that stream stays in the map.
    pub find-insert_part :
        (k : P × List ℕ)
        → find k (insert_part api streams peer m).0 ≡ (
            if (pair_ord {A = P} {B = List ℕ}).eq (peer, m.stream_id) k
            then some (accept own m).0
            else find k streams)
    unfolding insert_part
    find-insert_part k = ground (
      arith,
      insert_new_not_done own m,
      find-insert_sorted (peer, m.stream_id) k own streams,
      find-insert_sorted (peer, m.stream_id) k (insert_new api own m).0 streams,
    )

    -- A message whose sequence number the stream has seen gives nothing and changes no stream.
    insert_part_repeated :
        contains m.sequence own.seen_sequences ≡ true
        → (k : P × List ℕ)
        → ((insert_part api streams peer m).1 ≡ none)
          × (or_default (find k (insert_part api streams peer m).0) ≡ or_default (find k streams))
    insert_part_repeated seen k = ground (
      arith,
      insert_part-result,
      find-insert_part k,
      (pair_ord {A = P} {B = List ℕ}).eq_iff (peer, m.stream_id) k,
    )

  insert_new-seen :
      (s : StreamState) (m : StreamMessage)
      → (insert_new api s m).0.seen_sequences ≡ m.sequence ∷ s.seen_sequences
  unfolding insert_new insert
  insert_new-seen s m = ground arith

  run-seen : (h : List StreamMessage) → (run api h).seen_sequences ≡ map (λ m. m.sequence) h
  run-seen [] = refl
  run-seen (m ∷ h) = insert_new-seen (run api h) m ∙ ap (λ l. m.sequence ∷ l) (run-seen h)

  not_contains :
      (m : StreamMessage) (h : List StreamMessage)
      → All (Differs m) h
      → contains m.sequence (map (λ x. x.sequence) h) ≡ false
  not_contains m [] a = refl
  not_contains m (x ∷ h) a = ground (arith, a.0, not_contains m h a.1)

  accept-run :
      (m : StreamMessage) (h : List StreamMessage)
      → All (Differs m) h
      → accept (run api h) m ≡ insert_new api (run api h) m
  accept-run m h a = rw (run-seen h) (rw (not_contains m h a))

  module _ {P : Type 0} ⦃o : Ord P⦄ where
    -- The map after messages of any peers, the latest first.
    abbrev pub run_map : PartStreamsMap P → List (P × StreamMessage) → PartStreamsMap P
    run_map streams [] = streams
    run_map streams ((p, m) ∷ arrivals) = (insert_part api (run_map streams arrivals) p m).0

    -- The messages of one stream among them.
    abbrev pub own_of : P × List ℕ → List (P × StreamMessage) → List StreamMessage
    own_of k [] = []
    own_of k ((p, m) ∷ arrivals) =
        let rest = own_of k arrivals in
        if (pair_ord {A = P} {B = List ℕ}).eq (p, m.stream_id) k then m ∷ rest else rest

    -- Each stream runs as if it were alone.
    own-run :
        (streams : PartStreamsMap P) (k : P × List ℕ) (arrivals : List (P × StreamMessage))
        → find k streams ≡ none
        → Distinct (own_of k arrivals)
        → or_default (find k (run_map streams arrivals)) ≡ run api (own_of k arrivals)
    own-run streams k [] fresh d = ap or_default fresh
    own-run streams k ((p, m) ∷ arrivals) fresh d =
        elim (Bool-cases ((pair_ord {A = P} {B = List ℕ}).eq (p, m.stream_id) k)) [
          | inl e ↦
              (let d' : All (Differs m) (own_of k arrivals) × Distinct (own_of k arrivals) =
                  rw e at d in
                rw (find-insert_part (run_map streams arrivals) p m k) (
                  rw e (
                    ap (λ j. (accept (or_default (find j (run_map streams arrivals))) m).0)
                      ((pair_ord.eq_iff (p, m.stream_id) k).0 e)
                    ∙ ap (λ s. (accept s m).0) (own-run streams k arrivals fresh d'.1)
                    ∙ ap (λ q. q.0) (accept-run m (own_of k arrivals) d'.0))))
          | inr e ↦
              rw (find-insert_part (run_map streams arrivals) p m k)
                (rw e (own-run streams k arrivals fresh (rw e at d)))
        ]

  -- A proposal of one peer is given when the last of its messages arrives, whole and in order, in
  -- whatever order they come and whatever other peers and streams send in between; no earlier
  -- message of the stream gives anything.
  pub insert_part-outcome :
      {P : Type 0} ⦃o : Ord P⦄ (streams : PartStreamsMap P) (peer : P) (m : StreamMessage)
      (i : ProposalInit) (ps : List ProposalPart) (arrivals : List (P × StreamMessage))
      (later : List StreamMessage)
      → find (peer, m.stream_id) streams ≡ none
      → Shuffle (later ++ m ∷ own_of (peer, m.stream_id) arrivals) (sent m.stream_id i ps)
      → (insert_part api (run_map streams arrivals) peer m).1 ≡ outcome i ps later
  insert_part-outcome streams peer m i ps arrivals later fresh s =
      let (rest, t, r) = Shuffle-drop 0 later s (to_messages-Rises m.stream_id 0 _) in
      rw (insert_part-result (run_map streams arrivals) peer m) (
        rw (own-run streams (peer, m.stream_id) arrivals fresh (Shuffle-Distinct 0 t r).1) (
          rw (accept-run m (own_of (peer, m.stream_id) arrivals) (Shuffle_distinct 0 t r))
            (insert-outcome api m.stream_id i ps m (own_of (peer, m.stream_id) arrivals) later s)))
