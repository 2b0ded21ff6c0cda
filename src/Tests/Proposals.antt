-- ===== src/Tests/Proposals.antt =====
-- Tests of the proposals of crates/consensus/src/state.rs.
use ultramarine.Common.{
  ℕ, ◌≡◌, refl, ◌↔◌, ◌<◌, ◌≤◌, ◌+◌, none, some, List, [], ◌∷◌, ◌++◌, length, if◌then◌else◌,
}
use ultramarine.Common.Bytes.{to_be}
use ultramarine.Common.Ord.{nat_ord, bytes_ord, pair_ord}
use ultramarine.Common.Kv.Sorted.{find}
use ultramarine.Common.Result.{ok, err}
use ultramarine.Types.Round.{num}
use ultramarine.Types.Part.{ProposalData, init, fin, data_part}
use ultramarine.Types.Validator.{get_by_address}
use ultramarine.Streaming.{
  StreamMessage, content, end, PartStreamsMap, ProposalParts, insert_part, to_messages,
}
use ultramarine.Streaming.Heap.{Shuffle, nil, pick}
use ultramarine.Streaming.Streams.{run_map, own_of}
use ultramarine.Proposal.{
  stream_proposal, make_proposal_parts, verify_proposal_signature, invalid_signature, draft,
  stream_id, push_part, push_chunks, push_sidecars, chunks, chunks_of,
}
use ultramarine.Proposal.Message.{signed_message}
use ultramarine.Proposal.{missing_fin_part, proposer_not_found}
use ultramarine.Types.Validator.{get_by_address}
use ultramarine.Proposal.Message.{has_notice, last_signature}
use ultramarine.Proposal.Signed.{
  verify-make_proposal_parts, verify_proposal_signature_lem, verify_proposal_signature_unframed,
  fold_requests,
}
use ultramarine.Proposal.Payload.{
  extract, validate_execution_requests, validate_execution_requests_iff, check_requests, Increasing,
  max_execution_requests, ExecutionBlock, validate_proposed_timestamp,
  validate_proposed_timestamp_iff, below_min_block_time,
}
use ultramarine.Proposal.Payload.Recovered.{given, extract-make_proposal_parts}
use ultramarine.Proposal.Payload.Streamed.{stream_proposal-received}
use ultramarine.Tests.Data.{test_api, test_init, test_signing, test_validator, plain}

abbrev requests : List (List ℕ)
requests = (1 ∷ 2 ∷ []) ∷ (3 ∷ 4 ∷ []) ∷ []

abbrev payload : List ℕ
payload = 7 ∷ 8 ∷ []

known : get_by_address (1 ∷ []) (test_validator ∷ []) ≡ some test_validator
unfolding get_by_address
known = refl

valid : validate_execution_requests requests ≡ ok tt
unfolding validate_execution_requests check_requests
valid = refl

verify-make_proposal_parts_example :
    verify_proposal_signature test_signing (test_validator ∷ []) (record {
      height = 5;
      round = num 0;
      proposer = 1 ∷ [];
      parts =
          make_proposal_parts test_signing test_init payload
            (some (plain 0 (7 ∷ []) ∷ []))
            requests;
    })
    ≡ ok tt
verify-make_proposal_parts_example =
    verify-make_proposal_parts test_signing (test_validator ∷ []) test_init payload
      (some (plain 0 (7 ∷ []) ∷ [])) requests test_validator known refl

extract-make_proposal_parts_example :
    extract
      (make_proposal_parts test_signing test_init payload (some (plain 0 (7 ∷ []) ∷ [])) requests)
    ≡ ok (record {
      execution_requests = requests;
      bytes = payload;
      sidecars = plain 0 (7 ∷ []) ∷ [];
    })
extract-make_proposal_parts_example =
    extract-make_proposal_parts test_signing test_init payload (some (plain 0 (7 ∷ []) ∷ []))
      requests valid

abbrev received : ProposalParts
received = record {
  height = 5;
  round = num 0;
  proposer = 1 ∷ [];
  parts = init test_init ∷ fin (0 ∷ []) ∷ [];
}

verify_proposal_signature_example :
    verify_proposal_signature test_signing (test_validator ∷ []) received ≡ (
      if has_notice received.parts
      then err invalid_signature
      else elim (last_signature received.parts none) [
        | none ↦ err missing_fin_part
        | some sig ↦ elim (get_by_address received.proposer (test_validator ∷ [])) [
          | none ↦ err proposer_not_found
          | some v ↦
              if test_signing.verify
                (test_signing.keccak (signed_message received.parts))
                sig
                v.public_key
              then ok tt
              else err invalid_signature
        ]
      ])
verify_proposal_signature_example =
    verify_proposal_signature_lem test_signing (test_validator ∷ []) received

abbrev chunk : ProposalData
chunk = record { bytes = payload; execution_requests = requests }

verify_proposal_signature_unframed_example :
    verify_proposal_signature test_signing (test_validator ∷ []) (record received {
      parts = init test_init ∷ data_part (fold_requests chunk) ∷ fin (0 ∷ []) ∷ [];
    })
    ≡ verify_proposal_signature test_signing
        (test_validator ∷ [])
        (record received { parts = init test_init ∷ data_part chunk ∷ fin (0 ∷ []) ∷ [] })
verify_proposal_signature_unframed_example =
    verify_proposal_signature_unframed test_signing (test_validator ∷ []) received
      (init test_init ∷ []) (fin (0 ∷ []) ∷ []) chunk

validate_execution_requests_example :
    (validate_execution_requests requests ≡ ok tt)
    ↔ ((length requests ≤ max_execution_requests) × Increasing none requests)
validate_execution_requests_example = validate_execution_requests_iff requests

abbrev latest : ExecutionBlock
latest = record { block_hash = 3 ∷ []; timestamp = 100 }

validate_proposed_timestamp_example :
    ((validate_proposed_timestamp 90 (some latest) 104 (3 ∷ []) ≡ ok tt) ↔ (
      (b : ExecutionBlock) × (some latest ≡ some b)
      × (3 ∷ [] ≡ b.block_hash)
      × (b.timestamp < 104)
      × (104 ≤ 90 + 15)))
    × (validate_proposed_timestamp 90 (some latest) 104 (3 ∷ []) ≡ err below_min_block_time → ⊥)
validate_proposed_timestamp_example = validate_proposed_timestamp_iff 90 (some latest) 104 (3 ∷ [])

abbrev hashed : List ℕ
hashed = (draft test_init payload none []).hashed

abbrev id : List ℕ
id = to_be 8 5 ++ to_be 4 0 ++ to_be 4 0

abbrev m0 : StreamMessage
m0 = record { stream_id = id; sequence = 0; body = content (init test_init) }

abbrev m1 : StreamMessage
m1 = record {
  stream_id = id;
  sequence = 1;
  body = content (data_part (record { bytes = payload; execution_requests = [] }));
}

abbrev m2 : StreamMessage
m2 = record { stream_id = id; sequence = 2; body = content (fin hashed) }

abbrev m3 : StreamMessage
m3 = record { stream_id = id; sequence = 3; body = end }

abbrev msgs : List StreamMessage
msgs = m0 ∷ m1 ∷ m2 ∷ m3 ∷ []

streamed : stream_proposal test_signing test_init payload none [] 0 ≡ some (msgs, 1)
unfolding stream_proposal stream_id make_proposal_parts draft push_part push_chunks push_sidecars
    chunks chunks_of to_messages
streamed = refl

abbrev no_streams : PartStreamsMap ℕ
no_streams = []

absent : find (1, id) no_streams ≡ none
unfolding find
absent = refl

abbrev arrivals : List (ℕ × StreamMessage)
arrivals = (1, m0) ∷ (2, m1) ∷ (1, m3) ∷ (1, m2) ∷ []

order : Shuffle (m1 ∷ own_of test_api (1, id) arrivals) msgs
unfolding to_be
order =
    pick m1 (m0 ∷ []) (m2 ∷ m3 ∷ [])
      (pick m0 [] (m2 ∷ m3 ∷ []) (pick m3 (m2 ∷ []) [] (pick m2 [] [] nil)))

no_requests : validate_execution_requests [] ≡ ok tt
unfolding validate_execution_requests check_requests
no_requests = refl

stream_proposal-received_example :
    (p : ProposalParts) × ((insert_part test_api (run_map test_api no_streams arrivals) 1 m1).1
      ≡ some p)
    × (p.height ≡ 5)
    × (p.round ≡ num 0)
    × (p.proposer ≡ 1 ∷ [])
    × (verify_proposal_signature test_signing (test_validator ∷ []) p ≡ ok tt)
    × (extract p.parts ≡ ok (given test_signing test_init payload none []))
stream_proposal-received_example =
    stream_proposal-received test_api no_streams 1 m1 arrivals test_signing test_init payload none
      [] 0 1 msgs (test_validator ∷ []) test_validator streamed absent order known refl no_requests
