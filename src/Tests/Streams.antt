-- ===== src/Tests/Streams.antt =====
-- Tests of crates/consensus/src/streaming.rs.
use ultramarine.Common.{ℕ, ◌≡◌, refl, none, some, List, [], ◌∷◌}
use ultramarine.Common.Ord.{nat_ord, bytes_ord, pair_ord}
use ultramarine.Common.Kv.Sorted.{find}
use ultramarine.Types.Part.{init, fin}
use ultramarine.Streaming.{
  StreamMessage, StreamContent, content, end, PartStreamsMap, ProposalParts, insert_part,
  or_default, contains, default,
}
use ultramarine.Streaming.Heap.{Shuffle, nil, pick}
use ultramarine.Streaming.Reassembly.{outcome}
use ultramarine.Streaming.Streams.{accept, run_map, insert_part-outcome, find-insert_part}
use ultramarine.Tests.Data.{test_api, test_init}

abbrev m0 : StreamMessage
m0 = record { stream_id = 4 ∷ []; sequence = 0; body = content (init test_init) }

abbrev m1 : StreamMessage
m1 = record { stream_id = 4 ∷ []; sequence = 1; body = content (fin (7 ∷ [])) }

abbrev m2 : StreamMessage
m2 = record { stream_id = 4 ∷ []; sequence = 2; body = end }

abbrev no_streams : PartStreamsMap ℕ
no_streams = []

-- The end first, then a message of another peer, then the start.
abbrev before : List (ℕ × StreamMessage)
before = (1, m0) ∷ (2, m1) ∷ (1, m2) ∷ []

absent : find (1, 4 ∷ []) no_streams ≡ none
unfolding find
absent = refl

abbrev order : Shuffle (m1 ∷ m0 ∷ m2 ∷ []) (m0 ∷ m1 ∷ m2 ∷ [])
order = pick m1 (m0 ∷ []) (m2 ∷ []) (pick m0 [] (m2 ∷ []) (pick m2 [] [] nil))

insert_part-outcome_example :
    (insert_part test_api (run_map test_api no_streams before) 1 m1).1
    ≡ outcome test_init (fin (7 ∷ []) ∷ []) []
unfolding ultramarine.Streaming.to_messages
insert_part-outcome_example =
    insert_part-outcome test_api no_streams 1 m1 test_init (fin (7 ∷ []) ∷ []) before [] absent
      order

abbrev started : PartStreamsMap ℕ
started = run_map test_api no_streams ((1, m0) ∷ [])

find-insert_part_example :
    find (1, 4 ∷ []) (insert_part test_api started 1 m1).0
    ≡ some (accept test_api (or_default (find (1, 4 ∷ []) started)) m1).0
find-insert_part_example = find-insert_part test_api started 1 m1 (1, 4 ∷ [])
