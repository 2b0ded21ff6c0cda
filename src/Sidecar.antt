-- ===== src/Sidecar.antt =====
-- Blob sidecars as they are built and checked around a proposal: `prepare_blob_sidecar_parts`,
-- `verify_blob_sidecars`, `rebuild_blob_sidecars_for_restream` and the headers they sign
-- (crates/consensus/src/state.rs, crates/types/src/blob_metadata.rs). The root of a header is a
-- parameter, with the trees of `MerkleApi` and the keys of `Signing`.
pub mod Prepared
pub mod Accepted
pub mod Exact
pub mod Restream
use ultramarine.Common.{
  ℕ, zero, suc, ◌+◌, ◌-◌, ◌^◌, ◌≡◌, Bool, true, false, ◌&&◌, Option, none, some, List, [], ◌∷◌,
  ◌==◌, ltb, leb, length, get_elem?, if◌then◌else◌, not,
}
use ultramarine.Common.Ord.{bytes_ord}
use ultramarine.Common.Result.{require, demand, map_err, Result, ok, err, ◌>>=◌}
use ultramarine.Types.Part.{BeaconBlockHeader, SignedBeaconBlockHeader, BlobSidecar}
use ultramarine.Types.Validator.{Validator, get_by_address}
use ultramarine.Types.Metadata.{ExecutionPayloadHeader, BlobMetadata, zero_hash}
use ultramarine.Metastore.{StoreError, Tables, MetaDb, get_blob_metadata}
use ultramarine.Merkle.{
  MerkleApi, MerkleError, BeaconBlockBodyMinimal, from_ultramarine_data, compute_body_root,
  compute_execution_payload_header_root, generate_kzg_commitment_inclusion_proof,
  verify_kzg_commitment_inclusion_proof, reconstruct_roots_from_proof,
}
use ultramarine.Proposal.{Signing}

-- crates/types/src/value_metadata.rs, without the two counters that follow from the commitments.
pub record ValueMetadata : Type 0 where
  pub execution_payload_header : ExecutionPayloadHeader
  pub blob_kzg_commitments : List (List ℕ)

-- crates/types/src/blob.rs
pub record BlobsBundle : Type 0 where
  pub commitments : List (List ℕ)
  pub proofs : List (List ℕ)
  pub blobs : List (List ℕ)

pub data SidecarError : Type 0 where
  bundle_mismatch no_bundle no_sidecars inconsistent_headers wrong_slot : SidecarError
  unknown_proposer wrong_proposer_index invalid_signature count_mismatch : SidecarError
  wrong_body_root wrong_parent_root : SidecarError
  missing_parent : ℕ → SidecarError
  store_error : StoreError → SidecarError
  index_out_of_range index_exceeds_u16 invalid_inclusion_proof : ℕ → SidecarError
  commitment_mismatch missing_commitment : ℕ → SidecarError
  merkle_error : MerkleError → SidecarError

unfoldable pub validator_index_from : ℕ → List ℕ → List Validator → Option ℕ
validator_index_from n a [] = none
validator_index_from n a (v ∷ l) =
    let rest = validator_index_from (n + 1) a l in if bytes_ord.eq v.address a then some n else rest

unfoldable pub validator_index : List Validator → List ℕ → Option ℕ
unfolding validator_index_from
validator_index validators a = validator_index_from 0 a validators

abbrev pub eq_header : BeaconBlockHeader → BeaconBlockHeader → Bool
eq_header a b =
    a.slot == b.slot
    && a.proposer_index == b.proposer_index
    && bytes_ord.eq a.parent_root b.parent_root
    && bytes_ord.eq a.state_root b.state_root
    && bytes_ord.eq a.body_root b.body_root

-- `==` of signed headers.
unfoldable pub eq_signed : SignedBeaconBlockHeader → SignedBeaconBlockHeader → Bool
eq_signed a b = eq_header a.message b.message && bytes_ord.eq a.signature b.signature

unfoldable pub same_headers : SignedBeaconBlockHeader → List BlobSidecar → Bool
unfolding eq_signed
same_headers h [] = true
same_headers h (s ∷ l) = eq_signed s.signed_block_header h && same_headers h l

abbrev pub check_bundle : ℕ → Option BlobsBundle → Result SidecarError (Unit {0})
check_bundle expected none = require (expected == 0) no_bundle
check_bundle expected (some b) =
    require
      (expected == length b.commitments
        && expected == length b.blobs
        && expected == length b.proofs)
      bundle_mismatch

module _ (t : Tables) (api : MerkleApi) (signing : Signing)
    (hash_tree_root : BeaconBlockHeader → List ℕ) where
  abbrev pub body_of : List (List ℕ) → ExecutionPayloadHeader → BeaconBlockBodyMinimal
  body_of commitments header =
      from_ultramarine_data commitments (compute_execution_payload_header_root api header)

  pub to_beacon_header : BlobMetadata → BeaconBlockHeader
  to_beacon_header m = record {
    slot = m.height;
    proposer_index = elim m.proposer_index_hint [ none ↦ 0 | some i ↦ i ];
    parent_root = m.parent_blob_root;
    state_root = m.execution_payload_header.state_root;
    body_root = compute_body_root api (body_of m.blob_kzg_commitments m.execution_payload_header);
  }

  -- `resolve_parent_root_for_height`; `verify_blob_sidecars` contains the same steps.
  unfoldable pub resolve_parent_root_for_height : MetaDb t → ℕ → Result SidecarError (List ℕ)
  unfolding to_beacon_header
  resolve_parent_root_for_height db zero = ok zero_hash
  resolve_parent_root_for_height db (suc h) = elim (get_blob_metadata t db h) [
    | err e ↦ err (store_error e)
    | ok none ↦ err (missing_parent h)
    | ok (some m) ↦ ok (hash_tree_root (to_beacon_header m))
  ]

  pub build_sidecar_header_message :
      List Validator
      → ℕ
      → List ℕ
      → ValueMetadata
      → List ℕ
      → List ℕ
      → Result SidecarError BeaconBlockHeader
  build_sidecar_header_message validators height proposer metadata body_root parent_root = do
    i ← demand (validator_index validators proposer) unknown_proposer
    ok (record {
      slot = height;
      proposer_index = i;
      parent_root = parent_root;
      state_root = metadata.execution_payload_header.state_root;
      body_root = body_root;
    })

  abbrev pub sign_header : BeaconBlockHeader → SignedBeaconBlockHeader
  sign_header m = record { message = m; signature = signing.sign (hash_tree_root m) }

  -- The sidecar of one blob: its inclusion proof and its index, which must be a u16.
  pub make_sidecar :
      List (List ℕ)
      → BeaconBlockBodyMinimal
      → SignedBeaconBlockHeader
      → ℕ
      → List ℕ
      → List ℕ
      → List ℕ
      → Result SidecarError BlobSidecar
  make_sidecar commitments body header i blob commitment proof = do
    inclusion ←
        map_err merkle_error (generate_kzg_commitment_inclusion_proof api commitments i body)
    _ ← require (ltb i (2 ^ 16)) (index_exceeds_u16 i)
    ok (record {
      index = i;
      blob = blob;
      kzg_commitment = commitment;
      kzg_proof = proof;
      signed_block_header = header;
      kzg_commitment_inclusion_proof = inclusion;
    })

  -- The loop over the zipped lists of the bundle, from an index on.
  pub make_sidecars :
      List (List ℕ)
      → BeaconBlockBodyMinimal
      → SignedBeaconBlockHeader
      → ℕ
      → List (List ℕ)
      → List (List ℕ)
      → List (List ℕ)
      → Result SidecarError (List BlobSidecar)
  unfolding make_sidecar
  make_sidecars commitments body header i (b ∷ bs) (c ∷ cs) (p ∷ ps) = do
    expected ← demand (get_elem? commitments i) (missing_commitment i)
    _ ← require (bytes_ord.eq expected c) (commitment_mismatch i)
    s ← make_sidecar commitments body header i b c p
    rest ← make_sidecars commitments body header (i + 1) bs cs ps
    ok (s ∷ rest)
  make_sidecars commitments body header i [] cs ps = ok []
  make_sidecars commitments body header i (b ∷ bs) [] ps = ok []
  make_sidecars commitments body header i (b ∷ bs) (c ∷ cs) [] = ok []

  pub prepare_blob_sidecar_parts :
      MetaDb t
      → List Validator
      → List ℕ
      → ℕ
      → ValueMetadata
      → Option BlobsBundle
      → Result SidecarError (SignedBeaconBlockHeader × List BlobSidecar)
  unfolding resolve_parent_root_for_height build_sidecar_header_message make_sidecars
  prepare_blob_sidecar_parts db validators address height metadata bundle = do
    let commitments = metadata.blob_kzg_commitments
    _ ← check_bundle (length commitments) bundle
    let body = body_of commitments metadata.execution_payload_header
    parent_root ← resolve_parent_root_for_height db height
    message ←
        build_sidecar_header_message validators height address metadata (compute_body_root api body)
          parent_root
    let header = sign_header message
    sidecars ← elim bundle [
      | none ↦ ok []
      | some b ↦ make_sidecars commitments body header 0 b.blobs b.commitments b.proofs
    ]
    ok (header, sidecars)

  -- `SignedBeaconBlockHeader::verify_signature`.
  abbrev pub verify_signature : SignedBeaconBlockHeader → List ℕ → Bool
  verify_signature h key = signing.verify (hash_tree_root h.message) h.signature key

  -- The body of the loop over the sidecars in `verify_blob_sidecars`.
  pub check_sidecar :
      List (List ℕ) → BeaconBlockBodyMinimal → List ℕ → BlobSidecar → Result SidecarError (Unit {0})
  check_sidecar commitments body body_root s = do
    c ← demand (get_elem? commitments s.index) (index_out_of_range s.index)
    _ ← require (bytes_ord.eq c s.kzg_commitment) (commitment_mismatch s.index)
    _ ←
        demand
          (reconstruct_roots_from_proof api s.kzg_commitment s.kzg_commitment_inclusion_proof
            s.index)
          (invalid_inclusion_proof s.index)
    _ ← map_err merkle_error (generate_kzg_commitment_inclusion_proof api commitments s.index body)
    require
        (verify_kzg_commitment_inclusion_proof api s.kzg_commitment s.kzg_commitment_inclusion_proof
          s.index body_root)
        (invalid_inclusion_proof s.index)

  pub check_sidecars :
      List (List ℕ)
      → BeaconBlockBodyMinimal
      → List ℕ
      → List BlobSidecar
      → Result SidecarError (Unit {0})
  check_sidecars commitments body body_root [] = ok tt
  check_sidecars commitments body body_root (s ∷ l) = do
    _ ← check_sidecar commitments body body_root s
    check_sidecars commitments body body_root l

  pub verify_blob_sidecars :
      MetaDb t
      → List Validator
      → ℕ
      → List ℕ
      → ValueMetadata
      → List BlobSidecar
      → Result SidecarError SignedBeaconBlockHeader
  verify_blob_sidecars db validators height proposer metadata [] = err no_sidecars
  verify_blob_sidecars db validators height proposer metadata (s ∷ l) = do
    let header = s.signed_block_header
    let commitments = metadata.blob_kzg_commitments
    _ ← require (same_headers header l) inconsistent_headers
    _ ← require (header.message.slot == height) wrong_slot
    i ← demand (validator_index validators proposer) unknown_proposer
    _ ← require (header.message.proposer_index == i) wrong_proposer_index
    v ← demand (get_by_address proposer validators) unknown_proposer
    _ ← require (verify_signature header v.public_key) invalid_signature
    _ ← require (length commitments == length (s ∷ l)) count_mismatch
    let body = body_of commitments metadata.execution_payload_header
    let body_root = compute_body_root api body
    _ ← require (bytes_ord.eq header.message.body_root body_root) wrong_body_root
    parent_root ← resolve_parent_root_for_height db height
    _ ← require (bytes_ord.eq header.message.parent_root parent_root) wrong_parent_root
    _ ← check_sidecars commitments body header.message.body_root (s ∷ l)
    ok header
