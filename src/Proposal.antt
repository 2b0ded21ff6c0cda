-- ===== src/Proposal.antt =====
-- Proposals as streams of signed parts: `make_proposal_parts`, `stream_proposal`,
-- `verify_proposal_signature` and the extraction in `assemble_and_store_blobs`, of
-- crates/consensus/src/state.rs. Keccak and the signature scheme are a parameter.
pub mod Payload
pub mod Message
pub mod Signed
use ultramarine.Common.{
  ℕ, zero, suc, ◌+◌, ◌%◌, ◌^◌, ◌≡◌, Bool, true, false, ◌&&◌, Option, none, some, List, [], ◌∷◌,
  ◌++◌, leb, ltb, length, take, drop, if◌then◌else◌, get_or,
}
use ultramarine.Common.Bytes.{to_be, to_bits64}
use ultramarine.Common.Ord.{bytes_ord}
use ultramarine.Common.Result.{Result, ok, err, ◌>>=◌}
use ultramarine.Types.Round.{Round, nil, num, as_i64}
use ultramarine.Types.Part.{
  ProposalInit, ProposalData, BlobSidecar, ProposalPart, init, data_part, blob_sidecar,
  archive_notice, fin,
}
use ultramarine.Types.Validator.{Validator, get_by_address}
use ultramarine.Streaming.{ProposalParts, StreamMessage, to_messages}

-- `Keccak256` and the node's signing provider: a signature under the node's own key verifies.
pub record Signing : Type 0 where
  pub keccak : List ℕ → List ℕ
  pub sign : List ℕ → List ℕ
  pub verify : List ℕ → List ℕ → List ℕ → Bool
  pub public_key : List ℕ
  pub verify-sign : (hash : List ℕ) → verify hash (sign hash) public_key ≡ true

abbrev pub chunk_size : ℕ
chunk_size = 131072

-- `data.chunks(n)`, with the number of bytes as fuel.
unfoldable pub chunks_of : ℕ → ℕ → List ℕ → List (List ℕ)
chunks_of zero n xs = []
chunks_of (suc fuel) n [] = []
chunks_of (suc fuel) n (x ∷ xs) = take n (x ∷ xs) ∷ chunks_of fuel n (drop n (x ∷ xs))

unfoldable pub chunks : ℕ → List ℕ → List (List ℕ)
unfolding chunks_of
chunks n xs = chunks_of (length xs) n xs

pub request_bytes : List (List ℕ) → List ℕ
request_bytes [] = []
request_bytes (r ∷ rs) = to_be 4 (length r) ++ r ++ request_bytes rs

-- What `hash_execution_requests` feeds to the hasher.
pub hash_execution_requests : List (List ℕ) → List ℕ
unfolding request_bytes
hash_execution_requests [] = []
hash_execution_requests (r ∷ rs) = to_be 4 (length (r ∷ rs)) ++ request_bytes (r ∷ rs)

pub init_bytes : ℕ → Round → List ℕ
init_bytes height round = to_be 8 height ++ to_be 8 (to_bits64 (as_i64 round))

pub sidecar_bytes : BlobSidecar → List ℕ
sidecar_bytes s = to_be 2 s.index ++ s.blob ++ s.kzg_commitment ++ s.kzg_proof

pub data_bytes : ProposalData → List ℕ
unfolding hash_execution_requests
data_bytes d = hash_execution_requests d.execution_requests ++ d.bytes

-- The parts that `make_proposal_parts` has pushed, and the bytes that its hasher has read.
pub record Draft : Type 0 where
  pub hashed : List ℕ
  pub parts : List ProposalPart

unfoldable pub push_part : ProposalPart → List ℕ → Draft → Draft
push_part p bytes d = record { hashed = d.hashed ++ bytes; parts = d.parts ++ p ∷ [] }

-- The loop over the chunks, with `attached_requests`, and the empty chunk that carries the requests
-- of a proposal without data.
unfoldable pub push_chunks : List (List ℕ) → Bool → List (List ℕ) → Draft → Draft
unfolding push_part data_bytes
push_chunks requests true [] d = d
push_chunks requests false [] d =
    let chunk : ProposalData = record { bytes = []; execution_requests = requests } in
    push_part (data_part chunk) (data_bytes chunk) d
push_chunks requests true (c ∷ cs) d =
    let chunk : ProposalData = record { bytes = c; execution_requests = [] } in
    push_chunks requests true cs (push_part (data_part chunk) (data_bytes chunk) d)
push_chunks requests false (c ∷ cs) d =
    let chunk : ProposalData = record { bytes = c; execution_requests = requests } in
    push_chunks requests true cs (push_part (data_part chunk) (data_bytes chunk) d)

unfoldable pub push_sidecars : List BlobSidecar → Draft → Draft
unfolding push_part sidecar_bytes
push_sidecars [] d = d
push_sidecars (s ∷ l) d = push_sidecars l (push_part (blob_sidecar s) (sidecar_bytes s) d)

abbrev pub is_empty : List (List ℕ) → Bool
is_empty [] = true
is_empty (r ∷ rs) = false

abbrev pub all_sidecars : Option (List BlobSidecar) → List BlobSidecar
all_sidecars none = []
all_sidecars (some l) = l

-- `make_proposal_parts` before the signature.
unfoldable pub draft : ProposalInit → List ℕ → Option (List BlobSidecar) → List (List ℕ) → Draft
unfolding push_part push_chunks push_sidecars init_bytes chunks
draft i payload sidecars requests =
    let start : Draft = record { hashed = []; parts = [] } in
    push_sidecars (all_sidecars sidecars) (
      push_chunks requests (is_empty requests) (chunks chunk_size payload)
        (push_part (init i) (init_bytes i.height i.round) start))

pub data SignatureVerificationError : Type 0 where
  missing_fin_part proposer_not_found invalid_signature : SignatureVerificationError

-- The loop of `verify_proposal_signature`: the bytes hashed and the signature found so far.
pub hash_parts :
    List ProposalPart
    → List ℕ × Option (List ℕ)
    → Result SignatureVerificationError (List ℕ × Option (List ℕ))
unfolding init_bytes data_bytes sidecar_bytes
hash_parts [] acc = ok acc
hash_parts (init i ∷ ps) (bytes, sig) = hash_parts ps (bytes ++ init_bytes i.height i.round, sig)
hash_parts (data_part d ∷ ps) (bytes, sig) = hash_parts ps (bytes ++ data_bytes d, sig)
hash_parts (blob_sidecar s ∷ ps) (bytes, sig) = hash_parts ps (bytes ++ sidecar_bytes s, sig)
hash_parts (fin s ∷ ps) (bytes, sig) = hash_parts ps (bytes, some s)
hash_parts (archive_notice n ∷ ps) acc = err invalid_signature

module _ (signing : Signing) where
  unfoldable pub make_proposal_parts :
      ProposalInit → List ℕ → Option (List BlobSidecar) → List (List ℕ) → List ProposalPart
  unfolding draft
  make_proposal_parts i payload sidecars requests =
      let d = draft i payload sidecars requests in
      d.parts ++ fin (signing.sign (signing.keccak d.hashed)) ∷ []

  -- The end of `verify_proposal_signature`.
  pub check_signature :
      List Validator
      → List ℕ
      → List ℕ × Option (List ℕ)
      → Result SignatureVerificationError (Unit {0})
  check_signature validators proposer (bytes, none) = err missing_fin_part
  check_signature validators proposer (bytes, some sig) =
      elim (get_by_address proposer validators) [
        | none ↦ err proposer_not_found
        | some v ↦
            if signing.verify (signing.keccak bytes) sig v.public_key
            then ok tt
            else err invalid_signature
      ]

  pub verify_proposal_signature :
      List Validator → ProposalParts → Result SignatureVerificationError (Unit {0})
  unfolding hash_parts check_signature
  verify_proposal_signature validators p = do
    acc ← hash_parts p.parts ([], none)
    check_signature validators p.proposer acc

-- `stream_id`: the height, the round's number and the nonce. It panics on the round `Nil`.
unfoldable pub stream_id : ℕ → Round → ℕ → Option (List ℕ × ℕ)
stream_id height nil nonce = none
stream_id height (num r) nonce =
    some (to_be 8 height ++ to_be 4 r ++ to_be 4 nonce, (nonce + 1) % 2 ^ 32)

-- `stream_proposal` with the node's nonce, which it increments.
unfoldable pub stream_proposal :
    Signing
    → ProposalInit
    → List ℕ
    → Option (List BlobSidecar)
    → List (List ℕ)
    → ℕ
    → Option (List StreamMessage × ℕ)
unfolding make_proposal_parts stream_id
stream_proposal signing i payload sidecars requests nonce =
    elim (stream_id i.height i.round nonce) [
      | none ↦ none
      | some (id, nonce') ↦
          some (to_messages id 0 (make_proposal_parts signing i payload sidecars requests), nonce')
    ]
