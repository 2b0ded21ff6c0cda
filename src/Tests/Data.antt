-- ===== src/Tests/Data.antt =====
-- Concrete data for the tests.
use ultramarine.Common.{
  ℕ, ◌≡◌, refl, Bool, true, false, ◌&&◌, List, [], ◌∷◌, ◌==◌, arith, if◌then◌else◌,
}
use ultramarine.Common.Ord.{bytes_ord}
use ultramarine.Common.Kv.{list_kv}
use ultramarine.Common.Result.{Result, ok, err}
use ultramarine.Types.Round.{num}
use ultramarine.Types.Part.{ProposalInit, BlobSidecar}
use ultramarine.Types.Validator.{Validator}
use ultramarine.Streaming.{StreamApi, ends}
use ultramarine.Proposal.{Signing}
use ultramarine.Blob.Store.{BlobCodec, BlobStoreError, serialization, deserialization, ByteTable}
use ultramarine.Blob.Verifier.{Kzg, Triple, Valid}

abbrev pub test_api : StreamApi
test_api = record {
  is_first = λ m. m.sequence == 0;
  is_fin = λ m. ends m.body;
  is_first_lem = λ m. refl;
  is_fin_lem = λ m. refl;
}

-- A signature that is the message itself.
abbrev pub test_signing : Signing
test_signing = record {
  keccak = λ m. m;
  sign = λ m. m;
  verify = λ m s k. bytes_ord.eq m s;
  public_key = 9 ∷ [];
  verify-sign = λ m. (bytes_ord.eq_iff m m).1 refl;
}

abbrev pub test_validator : Validator
test_validator = record { address = 1 ∷ []; public_key = 9 ∷ []; voting_power = 1 }

abbrev pub test_init : ProposalInit
test_init = record { height = 5; round = num 0; proposer = 1 ∷ [] }

abbrev pub tables : ByteTable
tables = list_kv (List ℕ) (List ℕ)

abbrev pub plain : ℕ → List ℕ → BlobSidecar
plain i b = record {
  index = i;
  blob = b;
  kzg_commitment = [];
  kzg_proof = [];
  signed_block_header = record {
    message = record {
      slot = 0;
      proposer_index = 0;
      parent_root = [];
      state_root = [];
      body_root = [];
    };
    signature = [];
  };
  kzg_commitment_inclusion_proof = [];
}

abbrev none_of : List (List ℕ) → Bool
none_of [] = true
none_of (x ∷ l) = false

none_of_eq : (l : List (List ℕ)) → none_of l ≡ true → l ≡ []
none_of_eq [] e = refl
none_of_eq (x ∷ l) e = absurd (ground arith)

pub all-Valid : (l : List Triple) → Valid (λ t. ok true) l
all-Valid [] = tt
all-Valid (t ∷ l) = (refl, all-Valid l)

abbrev is_plain : BlobSidecar → Bool
is_plain s =
    let m = s.signed_block_header.message in
    bytes_ord.eq s.kzg_commitment []
    && bytes_ord.eq s.kzg_proof []
    && bytes_ord.eq s.signed_block_header.signature []
    && m.slot == 0
    && m.proposer_index == 0
    && bytes_ord.eq m.parent_root []
    && bytes_ord.eq m.state_root []
    && bytes_ord.eq m.body_root []
    && none_of s.kzg_commitment_inclusion_proof

-- Sidecars in which everything but the index and the blob is empty are written as both.
abbrev pub test_serialize : BlobSidecar → Result BlobStoreError (List ℕ)
test_serialize s = if is_plain s then ok (s.index ∷ s.blob) else err serialization

abbrev test_deserialize : List ℕ → Result BlobStoreError BlobSidecar
test_deserialize [] = err deserialization
test_deserialize (i ∷ b) = ok (plain i b)

pub test_law : (s : BlobSidecar) (v : List ℕ) → test_serialize s ≡ ok v → test_deserialize v ≡ ok s
test_law s v e =
    let m = s.signed_block_header.message in
    ground (
      arith,
      e,
      bytes_ord.eq_iff s.kzg_commitment [],
      bytes_ord.eq_iff s.kzg_proof [],
      bytes_ord.eq_iff s.signed_block_header.signature [],
      bytes_ord.eq_iff m.parent_root [],
      bytes_ord.eq_iff m.state_root [],
      bytes_ord.eq_iff m.body_root [],
      none_of_eq s.kzg_commitment_inclusion_proof,
    )

abbrev pub test_codec : BlobCodec
test_codec = record {
  serialize = test_serialize;
  deserialize = test_deserialize;
  deserialize-serialize = test_law;
}

abbrev pub test_kzg : Kzg
test_kzg = record {
  is_blob = λ b. true;
  is_bytes48 = λ b. true;
  verify_blob_kzg_proof = λ t. ok true;
  verify_blob_kzg_proof_batch = λ l. ok true;
  batch_sound = λ l e. all-Valid l;
}
