-- ===== src/Tests/Archiving.antt =====
-- Tests of the metadata store and of archive notices (store.rs and state.rs of
-- crates/consensus/src).
use ultramarine.Common.{
  ◌+◌, arith, suc, ◌^◌, ℕ, ◌≡◌, refl, ◌<◌, ◌≤◌, true, false, none, some, [], ◌∷◌, get_elem?,
}
use ultramarine.Common.Int.{ℤ, pos}
use ultramarine.Common.Ord.{nat_ord, int_ord, bytes_ord, pair_ord}
use ultramarine.Common.Kv.{list_kv}
use ultramarine.Common.Kv.Sorted.{find, insert_sorted, select}
use ultramarine.Common.Result.{ok, err}
use ultramarine.Types.Round.{
  nil, num, round_from_proto, round_to_proto, round_from_proto-round_to_proto,
}
use ultramarine.Types.Part.{ArchiveNotice}
use ultramarine.Types.Validator.{Validator, get_by_address, select_proposer, select_proposer_turn}
use ultramarine.Types.Metadata.{
  ArchiveRecord, BlobMetadata, IsMetadata, from_notice, zero_hash, update_keccak_hash, mark_pruned,
  set_archive_record, updates-IsMetadata, archival_status,
}
use ultramarine.Metastore.{
  Codec, Tables, MetaDb, missing_blob_metadata, get_blob_metadata, hydrate, archival_range,
  insert_blob_metadata_undecided, mark_blob_metadata_decided,
}
use ultramarine.Metastore.Promotion.{mark_blob_metadata_decided_lem}
use ultramarine.Blob.Metrics.{zeros}
use ultramarine.Archive.{
  NoticeApi, Node, handle_archive_notice, check_notice, after_checks, record_notice,
  proposer_address_for_height, check_proposer, check_hash,
}
use ultramarine.Archive.Notice.{Prunes, handle_archive_notice-Prunes, handle_archive_notice-ok}
use ultramarine.Tests.Data.{tables, test_codec, test_validator}

abbrev pub id_codec : (A : Type 0) → Codec A
id_codec A = record { Stored = A; encode = λ a. a; decode = λ a. ok a; decode-encode = λ a. refl }

abbrev pub meta_tables : Tables
meta_tables = record {
  metadata = id_codec BlobMetadata;
  records = id_codec ArchiveRecord;
  undecided_table = list_kv (ℕ × ℤ) BlobMetadata;
  decided_table = list_kv ℕ BlobMetadata;
  archival_table = list_kv (ℕ × ℕ) ArchiveRecord;
}

-- A height with one blob, whose hash is not known.
abbrev pub meta : BlobMetadata
meta = record {
  height = 5;
  parent_blob_root = [];
  blob_kzg_commitments = (3 ∷ []) ∷ [];
  blob_count = 1;
  blob_keccak_hashes = zero_hash ∷ [];
  archival_records = none ∷ [];
  pruned = false;
  execution_payload_header = record {
    block_hash = [];
    parent_hash = [];
    state_root = [];
    receipts_root = [];
    logs_bloom = [];
    block_number = 5;
    gas_limit = 0;
    gas_used = 0;
    timestamp = 0;
    base_fee_per_gas = 0;
    blob_gas_used = 0;
    excess_blob_gas = 0;
    prev_randao = [];
    fee_recipient = [];
    extra_data = [];
    transactions_root = [];
    withdrawals_root = [];
    requests_hash = none;
  };
  proposer_index_hint = some 0;
}

meta-IsMetadata : IsMetadata meta
meta-IsMetadata = record { commitments_length = refl; hashes_length = refl; records_length = refl }

abbrev notice : ArchiveNotice
notice = record {
  body = record {
    height = 5;
    round = num 0;
    blob_index = 0;
    kzg_commitment = 3 ∷ [];
    blob_keccak = 6 ∷ [];
    provider_id = [];
    locator = [];
    archived_by = 1 ∷ [];
    archived_at = 0;
  };
  signature = [];
}

updates-IsMetadata_example :
    IsMetadata (update_keccak_hash 0 (6 ∷ []) meta)
    × IsMetadata (mark_pruned meta)
    × ((n : BlobMetadata) → set_archive_record (from_notice notice) meta ≡ some n → IsMetadata n)
    × (set_archive_record (from_notice notice) meta ≡ none → 1 ≤ 0)
    × (1 ≤ 0 → set_archive_record (from_notice notice) meta ≡ none)
    × ((n : BlobMetadata)
        → set_archive_record (from_notice notice) meta ≡ some n
        → get_elem? n.archival_records 0 ≡ some (some (from_notice notice)))
updates-IsMetadata_example = updates-IsMetadata meta 0 (6 ∷ []) (from_notice notice) meta-IsMetadata

abbrev pub empty_meta : MetaDb meta_tables
empty_meta = record {
  undecided = meta_tables.undecided_table.empty;
  decided = meta_tables.decided_table.empty;
  archival = meta_tables.archival_table.empty;
  latest_height = none;
}

abbrev proposed : MetaDb meta_tables
proposed = insert_blob_metadata_undecided meta_tables empty_meta 5 (pos 0) meta

abbrev decided_db : MetaDb meta_tables
decided_db = (mark_blob_metadata_decided meta_tables proposed 5 (pos 0)).1

mark_blob_metadata_decided_example :
    (meta_tables.decided_table.get 5 decided_db.decided
      ≡ (elim (meta_tables.undecided_table.get (5, pos 0) proposed.undecided) [
        | some v ↦ some v
        | none ↦ meta_tables.decided_table.get 5 proposed.decided
      ]))
    × (meta_tables.undecided_table.get (5, pos 0) decided_db.undecided ≡ none)
    × ((mark_blob_metadata_decided meta_tables proposed 5 (pos 0)).0
          ≡ err (missing_blob_metadata 5 (pos 0))
        → decided_db ≡ proposed)
    × ((mark_blob_metadata_decided meta_tables proposed 5 (pos 0)).0 ≡ ok tt
        → mark_blob_metadata_decided meta_tables decided_db 5 (pos 0) ≡ (ok tt, decided_db))
mark_blob_metadata_decided_example =
    mark_blob_metadata_decided_lem meta_tables proposed 5 (pos 0) 5 (pos 0)

abbrev pub api : NoticeApi
api = record { verify = λ n k. true; consensus_proposer = λ h. ok none }

abbrev pub node : Node meta_tables tables
node = record {
  db = record empty_meta { decided = meta_tables.decided_table.insert 5 meta empty_meta.decided };
  engine = record {
    store = record { undecided = tables.empty; decided = tables.empty };
    metrics = zeros;
  };
  validators = test_validator ∷ [];
  current_height = 6;
  latest_finalized_height = 0;
  pending_archive_heights = 5 ∷ [];
  pending_prune_heights = [];
  receipt_mismatches = 0;
  pruned_blobs = 0;
}

handle_archive_notice-Prunes_example :
    Prunes meta_tables tables test_codec node 5
      (handle_archive_notice meta_tables tables test_codec api node notice).1
handle_archive_notice-Prunes_example =
    handle_archive_notice-Prunes meta_tables tables test_codec api node notice

accepted : (handle_archive_notice meta_tables tables test_codec api node notice).0 ≡ ok tt
unfolding handle_archive_notice check_notice after_checks record_notice proposer_address_for_height
    check_proposer check_hash get_by_address get_blob_metadata hydrate archival_range find
    insert_sorted select update_keccak_hash archival_status set_archive_record
accepted = refl

handle_archive_notice-ok_example :
    (v : Validator) × (get_by_address (1 ∷ []) (test_validator ∷ []) ≡ some v)
    × (api.verify notice v.public_key ≡ true)
    × (m : BlobMetadata) × (get_blob_metadata meta_tables node.db 5 ≡ ok (some m))
    × (0 < m.blob_count)
    × (get_elem? m.blob_kzg_commitments 0 ≡ some (3 ∷ []))
handle_archive_notice-ok_example =
    handle_archive_notice-ok meta_tables tables test_codec api node notice accepted

round_proto_example : round_from_proto (round_to_proto (num (2 ^ 31))) ≡ nil
round_proto_example = round_from_proto-round_to_proto (num (2 ^ 31)) (omega arith)

abbrev second_validator : Validator
second_validator = record { address = 2 ∷ []; public_key = 8 ∷ []; voting_power = 1 }

select_proposer_turn_example :
    (v : Validator) × (get_elem? (test_validator ∷ second_validator ∷ []) 1 ≡ some v)
    × (k : ℕ) × (k < 2)
    × (select_proposer (test_validator ∷ second_validator ∷ []) (suc 4) (num (7 + k)) ≡ some v)
select_proposer_turn_example =
    select_proposer_turn (test_validator ∷ second_validator ∷ []) 4 7 1 (omega arith) (omega arith)
