-- ===== src/Tests/Sidecars.antt =====
-- Tests of blob sidecars (crates/consensus/src/state.rs) at height 0 with two blobs.
use ultramarine.Common.{
  ℕ, ◌<◌, ◌≡◌, ◌↔◌, ◌∙◌, refl, ap, sym, some, [], ◌∷◌, List, arith, map, length, get_elem?,
  replicate, length-map,
}
use ultramarine.Common.Result.{ok}
use ultramarine.Types.Part.{BeaconBlockHeader, SignedBeaconBlockHeader, BlobSidecar}
use ultramarine.Types.Validator.{Validator, get_by_address}
use ultramarine.Types.Metadata.{BlobMetadata, zero_hash}
use ultramarine.Sidecar.{
  ValueMetadata, BlobsBundle, prepare_blob_sidecar_parts, verify_blob_sidecars, validator_index,
  validator_index_from, resolve_parent_root_for_height,
}
use ultramarine.Sidecar.Accepted.{IsAccepted}
use ultramarine.Sidecar.Exact.{verify_blob_sidecars_iff, verify_blob_sidecars_repeated}
use ultramarine.Sidecar.Prepared.{verify_blob_sidecars-prepare_blob_sidecar_parts}
use ultramarine.Sidecar.Restream.{rebuild-prepare, rebuild_blob_sidecars_for_restream}
use ultramarine.Tests.Data.{test_signing, test_validator}
use ultramarine.Tests.Archiving.{meta_tables, meta, empty_meta}
use ultramarine.Tests.Inclusion.{toy_api}

abbrev header_root : BeaconBlockHeader → List ℕ
header_root h = h.slot ∷ h.body_root

abbrev two_blobs : BlobMetadata
two_blobs = record meta {
  height = 0;
  parent_blob_root = zero_hash;
  blob_kzg_commitments = (2 ∷ []) ∷ (3 ∷ []) ∷ [];
  blob_count = 2;
}

abbrev two_metadata : ValueMetadata
two_metadata = record {
  execution_payload_header = two_blobs.execution_payload_header;
  blob_kzg_commitments = two_blobs.blob_kzg_commitments;
}

abbrev two_bundle : BlobsBundle
two_bundle = record {
  commitments = (2 ∷ []) ∷ (3 ∷ []) ∷ [];
  proofs = [] ∷ [] ∷ [];
  blobs = (7 ∷ []) ∷ (8 ∷ []) ∷ [];
}

abbrev one_validator : List Validator
one_validator = test_validator ∷ []

-- What the proposer prepares and the others accept.
abbrev TwoPrepared : Type 0
TwoPrepared =
    (header : SignedBeaconBlockHeader) × (l : List BlobSidecar) × (prepare_blob_sidecar_parts
        meta_tables toy_api test_signing header_root empty_meta one_validator (1 ∷ []) 0
        two_metadata (some two_bundle)
      ≡ ok (header, l))
    × (map (λ s. s.kzg_commitment) l ≡ two_bundle.commitments)
    × (map (λ s. s.blob) l ≡ two_bundle.blobs)
    × (verify_blob_sidecars meta_tables toy_api test_signing header_root empty_meta one_validator 0
          (1 ∷ []) two_metadata l
        ≡ ok header)

verify_blob_sidecars-prepare_blob_sidecar_parts_example : TwoPrepared
unfolding get_by_address resolve_parent_root_for_height
verify_blob_sidecars-prepare_blob_sidecar_parts_example =
    verify_blob_sidecars-prepare_blob_sidecar_parts meta_tables toy_api test_signing header_root
      empty_meta empty_meta one_validator (1 ∷ []) 0 two_metadata two_bundle test_validator
      zero_hash refl refl refl refl refl (omega arith) (omega arith) refl refl

two_prepared : TwoPrepared
unfolding get_by_address resolve_parent_root_for_height
two_prepared =
    verify_blob_sidecars-prepare_blob_sidecar_parts meta_tables toy_api test_signing header_root
      empty_meta empty_meta one_validator (1 ∷ []) 0 two_metadata two_bundle test_validator
      zero_hash refl refl refl refl refl (omega arith) (omega arith) refl refl

two_length : length two_prepared.1 ≡ 2
two_length = sym (length-map two_prepared.1 (λ s. s.blob)) ∙ ap length two_prepared.4

first_of : (l : List BlobSidecar) → 0 < length l → (s : BlobSidecar) × (get_elem? l 0 ≡ some s)
first_of [] h = elim h [ ]
first_of (s ∷ l) h = (s, refl)

abbrev first_sidecar : (s : BlobSidecar) × (get_elem? two_prepared.1 0 ≡ some s)
first_sidecar = first_of two_prepared.1 (omega (arith, two_length))

verify_blob_sidecars_iff_example :
    (verify_blob_sidecars meta_tables toy_api test_signing header_root empty_meta one_validator 0
        (1 ∷ [])
        two_metadata
        two_prepared.1
      ≡ ok two_prepared.0)
    ↔ IsAccepted meta_tables toy_api test_signing header_root empty_meta one_validator 0
        (1 ∷ [])
        two_metadata
        two_prepared.1
        two_prepared.0
verify_blob_sidecars_iff_example =
    verify_blob_sidecars_iff meta_tables toy_api test_signing header_root empty_meta one_validator 0
      (1 ∷ []) two_metadata two_prepared.1 two_prepared.0

verify_blob_sidecars_repeated_example :
    verify_blob_sidecars meta_tables toy_api test_signing header_root empty_meta one_validator 0
      (1 ∷ [])
      two_metadata
      (replicate (length two_prepared.1) first_sidecar.0)
    ≡ ok two_prepared.0
verify_blob_sidecars_repeated_example =
    verify_blob_sidecars_repeated meta_tables toy_api test_signing header_root empty_meta
      one_validator 0 (1 ∷ []) two_metadata two_prepared.1 0 first_sidecar.0 two_prepared.0
      first_sidecar.1 two_prepared.5

rebuild-prepare_example :
    rebuild_blob_sidecars_for_restream meta_tables toy_api test_signing header_root one_validator
      two_blobs
      (1 ∷ [])
      two_prepared.1
    ≡ ok two_prepared.1
unfolding resolve_parent_root_for_height validator_index validator_index_from
rebuild-prepare_example =
    rebuild-prepare meta_tables toy_api test_signing header_root empty_meta one_validator (1 ∷ [])
      two_blobs two_bundle two_prepared.0 two_prepared.1 two_prepared.2 refl refl (sym two_length)
