-- ===== src/Types/Metadata.antt =====
-- Blob metadata (crates/types/src/blob_metadata.rs) and archive records (crates/types/src/archive.rs).
use ultramarine.Common.{
  ℕ, zero, suc, ◌≡◌, ◌≤◌, ◌^◌, ◌∙◌, Option-cases, inl, inr, Bool, true, false, ◌&&◌, Option, none,
  some, List, length, set, get_elem?, replicate, ltb, ◌==◌, if◌then◌else◌, arith, Bool-cases,
  get_elem?-set_self, length-set, length-replicate,
}
use ultramarine.Common.Ord.{bytes_ord}
use ultramarine.Types.Part.{ArchiveNoticeBody, ArchiveNotice}

pub record ArchiveRecord : Type 0 where
  pub body : ArchiveNoticeBody
  pub signature : List ℕ

abbrev pub from_notice : ArchiveNotice → ArchiveRecord
from_notice n = record { body = n.body; signature = n.signature }

pub data BlobArchivalStatus : Type 0 where
  pending : BlobArchivalStatus
  archived : ArchiveRecord → BlobArchivalStatus

-- crates/types/src/engine_api.rs
pub record ExecutionPayloadHeader : Type 0 where
  pub block_hash : List ℕ
  pub parent_hash : List ℕ
  pub state_root : List ℕ
  pub receipts_root : List ℕ
  pub logs_bloom : List ℕ
  pub block_number : ℕ
  pub gas_limit : ℕ
  pub gas_used : ℕ
  pub timestamp : ℕ
  pub base_fee_per_gas : ℕ
  pub blob_gas_used : ℕ
  pub excess_blob_gas : ℕ
  pub prev_randao : List ℕ
  pub fee_recipient : List ℕ
  pub extra_data : List ℕ
  pub transactions_root : List ℕ
  pub withdrawals_root : List ℕ
  pub requests_hash : Option (List ℕ)

pub record BlobMetadata : Type 0 where
  pub height : ℕ
  pub parent_blob_root : List ℕ
  pub blob_kzg_commitments : List (List ℕ)
  pub blob_count : ℕ
  pub blob_keccak_hashes : List (List ℕ)
  pub archival_records : List (Option ArchiveRecord)
  pub pruned : Bool
  pub execution_payload_header : ExecutionPayloadHeader
  pub proposer_index_hint : Option ℕ

-- `B256::ZERO`.
abbrev pub zero_hash : List ℕ
zero_hash = replicate 32 0

-- `BlobMetadata::new`, which fails an assertion on too many commitments and on lists of different
-- lengths.
unfoldable pub new_metadata :
    ℕ
    → List ℕ
    → List (List ℕ)
    → List (List ℕ)
    → ExecutionPayloadHeader
    → Option ℕ
    → Option BlobMetadata
new_metadata h parent commitments hashes header hint =
    if ltb (length commitments) (2 ^ 16) && length commitments == length hashes
    then some (record {
      height = h;
      parent_blob_root = parent;
      blob_kzg_commitments = commitments;
      blob_count = length commitments;
      blob_keccak_hashes = hashes;
      archival_records = replicate (length commitments) none;
      pruned = false;
      execution_payload_header = header;
      proposer_index_hint = hint;
    })
    else none

-- `update_keccak_hash`: only a placeholder is replaced.
unfoldable pub update_keccak_hash : ℕ → List ℕ → BlobMetadata → BlobMetadata
update_keccak_hash i hash m = elim (get_elem? m.blob_keccak_hashes i) [
  | none ↦ m
  | some old ↦
      if bytes_ord.eq old zero_hash
      then record m { blob_keccak_hashes = set m.blob_keccak_hashes i hash }
      else m
]

unfoldable pub archival_status : ℕ → BlobMetadata → BlobArchivalStatus
archival_status i m = elim (get_elem? m.archival_records i) [
  | none ↦ pending
  | some none ↦ pending
  | some (some r) ↦ archived r
]

-- `set_archive_record`, which fails its assertion out of range.
unfoldable pub set_archive_record : ArchiveRecord → BlobMetadata → Option BlobMetadata
set_archive_record r m =
    if ltb r.body.blob_index (length m.archival_records)
    then some (record m { archival_records = set m.archival_records r.body.blob_index (some r) })
    else none

pub mark_pruned : BlobMetadata → BlobMetadata
mark_pruned m = record m { pruned = true }

abbrev pub is_archived : BlobArchivalStatus → Bool
is_archived pending = false
is_archived (archived r) = true

unfoldable pub archived_below : ℕ → BlobMetadata → Bool
unfolding archival_status
archived_below zero m = true
archived_below (suc n) m = is_archived (archival_status n m) && archived_below n m

-- The test that every blob of a height is archived.
unfoldable pub all_archived : BlobMetadata → Bool
unfolding archived_below
all_archived m = archived_below m.blob_count m

-- The lists of a metadata have one entry for each blob.
pub record IsMetadata (m : BlobMetadata) : Type 0 where
  pub commitments_length : length m.blob_kzg_commitments ≡ m.blob_count
  pub hashes_length : length m.blob_keccak_hashes ≡ m.blob_count
  pub records_length : length m.archival_records ≡ m.blob_count

pub new_metadata-IsMetadata :
    (h : ℕ) (parent : List ℕ) (commitments hashes : List (List ℕ)) (header : ExecutionPayloadHeader)
    (hint : Option ℕ) (m : BlobMetadata)
    → new_metadata h parent commitments hashes header hint ≡ some m
    → IsMetadata m
unfolding new_metadata
new_metadata-IsMetadata h parent commitments hashes header hint m e = record {
  commitments_length = ground (arith, e);
  hashes_length = ground (arith, e);
  records_length =
      ground (arith, e, length-replicate {A = Option ArchiveRecord} (length commitments) none);
}

hash-IsMetadata :
    (m : BlobMetadata) (i : ℕ) (hash : List ℕ) (b : Bool)
    → IsMetadata m
    → IsMetadata
        (if b then record m { blob_keccak_hashes = set m.blob_keccak_hashes i hash } else m)
hash-IsMetadata m i hash true w = record {
  commitments_length = w.commitments_length;
  hashes_length = length-set m.blob_keccak_hashes i hash ∙ w.hashes_length;
  records_length = w.records_length;
}
hash-IsMetadata m i hash false w = w

set_archive_record_lem :
    (r : ArchiveRecord) (m n : BlobMetadata)
    → set_archive_record r m ≡ some n
    → get_elem? n.archival_records r.body.blob_index ≡ some (some r)
unfolding set_archive_record
set_archive_record_lem r m n e =
    elim (Bool-cases (ltb r.body.blob_index (length m.archival_records))) [
      | inr p ↦ absurd (let q = rw p at e in ground (arith, q))
      | inl p ↦
          let q =
            get_elem?-set_self m.archival_records r.body.blob_index (some r) (ground (arith, p)) in
          ground (arith, p, e, q)
    ]

-- Metadata that has one entry for each blob has one after every update; setting a record fails
-- exactly where its index is not below the number of blobs, and sets it where it succeeds.
pub updates-IsMetadata :
    (m : BlobMetadata) (i : ℕ) (hash : List ℕ) (r : ArchiveRecord)
    → IsMetadata m
    → IsMetadata (update_keccak_hash i hash m)
      × IsMetadata (mark_pruned m)
      × ((n : BlobMetadata) → set_archive_record r m ≡ some n → IsMetadata n)
      × (set_archive_record r m ≡ none → m.blob_count ≤ r.body.blob_index)
      × (m.blob_count ≤ r.body.blob_index → set_archive_record r m ≡ none)
      × ((n : BlobMetadata)
          → set_archive_record r m ≡ some n
          → get_elem? n.archival_records r.body.blob_index ≡ some (some r))
unfolding update_keccak_hash mark_pruned set_archive_record
updates-IsMetadata m i hash r w = (
  elim (Option-cases (get_elem? m.blob_keccak_hashes i)) [
    | inl e ↦ rw (e, update_keccak_hash) w
    | inr (old, e) ↦
        rw (e, update_keccak_hash) (hash-IsMetadata m i hash (bytes_ord.eq old zero_hash) w)
  ],
  record {
    commitments_length = w.commitments_length;
    hashes_length = w.hashes_length;
    records_length = w.records_length;
  },
  λ n e. record {
    commitments_length = ground (arith, e, w.commitments_length);
    hashes_length = ground (arith, e, w.hashes_length);
    records_length =
        ground
          (arith, e, w.records_length, length-set m.archival_records r.body.blob_index (some r));
  },
  λ e. ground (arith, w.records_length, e),
  λ e. ground (arith, w.records_length, e),
  λ n e. set_archive_record_lem r m n e,
)
