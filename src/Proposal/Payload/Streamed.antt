-- ===== src/Proposal/Payload/Streamed.antt =====
-- A proposal from the node that streams it to the node that receives it: `stream_proposal`,
-- `PartStreamsMap::insert`, `verify_proposal_signature` and the extraction (state.rs and
-- streaming.rs of crates/consensus/src).
use ultramarine.Common.{
  ℕ, ◌+◌, ◌≡◌, refl, ap, sym, ◌∙◌, subst, Option, none, some, List, [], ◌∷◌, ◌++◌, Option-cases,
  inl, inr, arith, Bool, true, false,
}
use ultramarine.Common.Ord.{Ord, pair_ord, bytes_ord}
use ultramarine.Common.Kv.Sorted.{find}
use ultramarine.Common.Result.{ok}
use ultramarine.Types.Part.{ProposalInit, BlobSidecar, ProposalPart, init}
use ultramarine.Types.Validator.{Validator, get_by_address}
use ultramarine.Streaming.{
  ProposalParts, StreamApi, StreamMessage, PartStreamsMap, insert_part, to_messages,
}
use ultramarine.Streaming.Heap.{Shuffle, All, All-Shuffle}
use ultramarine.Streaming.Reassembly.{sent}
use ultramarine.Streaming.Streams.{run_map, own_of, insert_part-outcome}
use ultramarine.Proposal.{
  Signing, Draft, make_proposal_parts, draft, push_part, push_chunks, push_sidecars, is_empty,
  all_sidecars, chunks, chunk_size, stream_proposal, stream_id, verify_proposal_signature,
}
use ultramarine.Proposal.Signed.{verify-make_proposal_parts}
use ultramarine.Proposal.Payload.{extract, validate_execution_requests}
use ultramarine.Proposal.Payload.Recovered.{given, extract-make_proposal_parts}

abbrev Starts : ProposalPart → List ProposalPart → Type 0
Starts p ps = (rest : List ProposalPart) × (ps ≡ p ∷ rest)

append-Starts : (p : ProposalPart) (xs ys : List ProposalPart) → Starts p xs → Starts p (xs ++ ys)
append-Starts p xs ys (rest, e) = (rest ++ ys, ap (λ l. l ++ ys) e)

chunks-Starts :
    (p : ProposalPart) (rs : List (List ℕ)) (attached : Bool) (cs : List (List ℕ)) (d : Draft)
    → Starts p d.parts
    → Starts p (push_chunks rs attached cs d).parts
unfolding push_chunks push_part
chunks-Starts p rs true [] d w = w
chunks-Starts p rs false [] d w = append-Starts p d.parts _ w
chunks-Starts p rs true (c ∷ cs) d w = chunks-Starts p rs true cs _ (append-Starts p d.parts _ w)
chunks-Starts p rs false (c ∷ cs) d w = chunks-Starts p rs true cs _ (append-Starts p d.parts _ w)

sidecars-Starts :
    (p : ProposalPart) (l : List BlobSidecar) (d : Draft)
    → Starts p d.parts
    → Starts p (push_sidecars l d).parts
unfolding push_sidecars push_part
sidecars-Starts p [] d w = w
sidecars-Starts p (s ∷ l) d w = sidecars-Starts p l _ (append-Starts p d.parts _ w)

make_proposal_parts-Starts :
    (signing : Signing) (i : ProposalInit) (payload : List ℕ) (sidecars : Option (List BlobSidecar))
    (requests : List (List ℕ))
    → Starts (init i) (make_proposal_parts signing i payload sidecars requests)
unfolding make_proposal_parts draft push_part
make_proposal_parts-Starts signing i payload sidecars requests = append-Starts (init i) _ _ (
    sidecars-Starts (init i) (all_sidecars sidecars) _ (
      chunks-Starts (init i) requests (is_empty requests) (chunks chunk_size payload) _ ([], refl)))

to_messages-id :
    (id : List ℕ) (n : ℕ) (ps : List ProposalPart)
    → All (λ m. m.stream_id ≡ id) (to_messages id n ps)
unfolding to_messages
to_messages-id id n [] = (refl, tt)
to_messages-id id n (p ∷ ps) = (refl, to_messages-id id (n + 1) ps)

stream_proposal-messages :
    (signing : Signing) (i : ProposalInit) (payload : List ℕ) (sidecars : Option (List BlobSidecar))
    (requests : List (List ℕ)) (nonce nonce' : ℕ) (msgs : List StreamMessage)
    → stream_proposal signing i payload sidecars requests nonce ≡ some (msgs, nonce')
    → (id : List ℕ) × (msgs
        ≡ to_messages id 0 (make_proposal_parts signing i payload sidecars requests))
unfolding stream_proposal
stream_proposal-messages signing i payload sidecars requests nonce nonce' msgs e =
    elim (Option-cases (stream_id i.height i.round nonce)) [
      | inl q ↦ absurd (ground (arith, e, q))
      | inr ((id, n), q) ↦ (id, ground (arith, e, q))
    ]

abbrev with_parts : ProposalInit → List ProposalPart → Option ProposalParts
with_parts i l =
    some (record { height = i.height; round = i.round; proposer = i.proposer; parts = l })

module _ (api : StreamApi) {P : Type 0} ⦃o : Ord P⦄ (streams : PartStreamsMap P) (peer : P)
    (m : StreamMessage) (arrivals : List (P × StreamMessage)) where
  delivered :
      (id : List ℕ) (i : ProposalInit) (ps : List ProposalPart)
      → Starts (init i) ps
      → find (peer, m.stream_id) streams ≡ none
      → Shuffle (m ∷ own_of api (peer, m.stream_id) arrivals) (to_messages id 0 ps)
      → (insert_part api (run_map api streams arrivals) peer m).1
        ≡ some (record { height = i.height; round = i.round; proposer = i.proposer; parts = ps })
  delivered id i ps (rest, e) fresh s =
      let same = (All-Shuffle (λ x. x.stream_id ≡ id) s (to_messages-id id 0 ps)).0 in
      let msgs_eq : to_messages id 0 ps ≡ sent m.stream_id i rest =
        ap (λ l. to_messages id 0 l) e ∙ ap (λ x. to_messages x 0 (init i ∷ rest)) (sym same) in
      insert_part-outcome api streams peer m i rest arrivals [] fresh
        (subst (λ l. Shuffle (m ∷ own_of api (peer, m.stream_id) arrivals) l) msgs_eq s)
      ∙ ap (with_parts i) (sym e)

  -- A proposal that a validator streams reaches every node whole: when the last of its messages
  -- arrives, in whatever order they came and whatever other streams sent in between, the node has a
  -- proposal of that height, round and proposer, its signature verifies, and its payload, requests
  -- and sidecars are those that were sent, if the requests are valid.
  pub stream_proposal-received :
      (signing : Signing) (i : ProposalInit) (payload : List ℕ)
      (sidecars : Option (List BlobSidecar)) (requests : List (List ℕ)) (nonce nonce' : ℕ)
      (msgs : List StreamMessage) (validators : List Validator) (v : Validator)
      → stream_proposal signing i payload sidecars requests nonce ≡ some (msgs, nonce')
      → find (peer, m.stream_id) streams ≡ none
      → Shuffle (m ∷ own_of api (peer, m.stream_id) arrivals) msgs
      → get_by_address i.proposer validators ≡ some v
      → v.public_key ≡ signing.public_key
      → validate_execution_requests requests ≡ ok tt
      → (p : ProposalParts) × ((insert_part api (run_map api streams arrivals) peer m).1 ≡ some p)
        × (p.height ≡ i.height)
        × (p.round ≡ i.round)
        × (p.proposer ≡ i.proposer)
        × (verify_proposal_signature signing validators p ≡ ok tt)
        × (extract p.parts ≡ ok (given signing i payload sidecars requests))
  stream_proposal-received signing i payload sidecars requests nonce nonce' msgs validators v
        sent_eq fresh s known own valid =
      let parts = make_proposal_parts signing i payload sidecars requests in
      let (id, e) =
        stream_proposal-messages signing i payload sidecars requests nonce nonce' msgs sent_eq in
      (
        record { height = i.height; round = i.round; proposer = i.proposer; parts = parts },
        delivered id i parts (make_proposal_parts-Starts signing i payload sidecars requests) fresh
            (rw (← e) s),
        refl,
        refl,
        refl,
        verify-make_proposal_parts signing validators i payload sidecars requests v known own,
        extract-make_proposal_parts signing i payload sidecars requests valid,
      )
