-- ===== src/Types/Part.antt =====
-- Proposal parts (crates/types/src/proposal_part.rs) and the records that they carry. Byte strings
-- (payloads, blobs, commitments, hashes, signatures, addresses) are lists of numbers below 256.
use ultramarine.Common.{ℕ, Option, none, some, List}
use ultramarine.Types.Round.{Round}

pub record ProposalInit : Type 0 where
  pub height : ℕ
  pub round : Round
  pub proposer : List ℕ

pub record ProposalData : Type 0 where
  pub bytes : List ℕ
  pub execution_requests : List (List ℕ)

-- crates/types/src/ethereum_compat/beacon_header.rs
pub record BeaconBlockHeader : Type 0 where
  pub slot : ℕ
  pub proposer_index : ℕ
  pub parent_root : List ℕ
  pub state_root : List ℕ
  pub body_root : List ℕ

pub record SignedBeaconBlockHeader : Type 0 where
  pub message : BeaconBlockHeader
  pub signature : List ℕ

pub record BlobSidecar : Type 0 where
  pub index : ℕ
  pub blob : List ℕ
  pub kzg_commitment : List ℕ
  pub kzg_proof : List ℕ
  pub signed_block_header : SignedBeaconBlockHeader
  pub kzg_commitment_inclusion_proof : List (List ℕ)

-- crates/types/src/archive.rs
pub record ArchiveNoticeBody : Type 0 where
  pub height : ℕ
  pub round : Round
  pub blob_index : ℕ
  pub kzg_commitment : List ℕ
  pub blob_keccak : List ℕ
  pub provider_id : List ℕ
  pub locator : List ℕ
  pub archived_by : List ℕ
  pub archived_at : ℕ

pub record ArchiveNotice : Type 0 where
  pub body : ArchiveNoticeBody
  pub signature : List ℕ

pub data ProposalPart : Type 0 where
  init : ProposalInit → ProposalPart
  data_part : ProposalData → ProposalPart
  blob_sidecar : BlobSidecar → ProposalPart
  archive_notice : ArchiveNotice → ProposalPart
  fin : List ℕ → ProposalPart

unfoldable pub as_init : ProposalPart → Option ProposalInit
as_init (init i) = some i
as_init _ = none
