-- ===== src/Archive.antt =====
-- Archive notices and the pruning of archived blobs (`handle_archive_notice`,
-- `prune_archived_height`, `is_height_finalized` and `flush_pending_prunes` of
-- crates/consensus/src/state.rs), over the metadata store and the blob engine. The check of a
-- notice's signature is a parameter, and so is the proposer that the consensus metadata of a height
-- names.
pub mod Notice
pub mod Heights
pub mod Rehydrate
use ultramarine.Common.{
  ℕ, zero, suc, ◌+◌, ◌-◌, ◌≡◌, Bool, true, false, ◌&&◌, ◌||◌, not, Option, none, some, List, [],
  ◌∷◌, ltb, leb, ◌==◌, get_elem?, max, if◌then◌else◌,
}
use ultramarine.Common.Ord.{bytes_ord}
use ultramarine.Common.Result.{require, demand, Result, ok, err, ◌>>=◌}
use ultramarine.Types.Part.{ArchiveNotice, ArchiveNoticeBody}
use ultramarine.Types.Validator.{Validator, get_by_address}
use ultramarine.Types.Metadata.{
  BlobMetadata, ArchiveRecord, BlobArchivalStatus, pending, archived, archival_status, all_archived,
  update_keccak_hash, set_archive_record, mark_pruned, from_notice, zero_hash,
}
use ultramarine.Metastore.{
  Tables, MetaDb, StoreError, get_blob_metadata, insert_archive_record, update_blob_metadata,
}
use ultramarine.Blob.Store.{ByteTable, BlobCodec}
use ultramarine.Blob.Engine.{Engine, mark_archived}

pub data NoticeError : Type 0 where
  unknown_validator invalid_signature missing_metadata index_exceeds_count : NoticeError
  not_proposer commitment_mismatch hash_mismatch conflicting : NoticeError
  store_error : StoreError → NoticeError
  -- an index out of range
  panicked : NoticeError

-- The fields of `State` that the archival of blobs reads and writes. The sets of heights are in
-- rising order.
pub record Node (t : Tables) (kv : ByteTable) : Type 0 where
  pub db : MetaDb t
  pub engine : Engine kv
  pub validators : List Validator
  pub current_height : ℕ
  pub latest_finalized_height : ℕ
  pub pending_archive_heights : List ℕ
  pub pending_prune_heights : List ℕ
  pub receipt_mismatches : ℕ
  pub pruned_blobs : ℕ

-- `BTreeSet::insert` and `BTreeSet::remove`.
pub add_height : ℕ → List ℕ → List ℕ
add_height h [] = h ∷ []
add_height h (x ∷ l) =
    let rest = add_height h l in if ltb h x then h ∷ x ∷ l else (if h == x then x ∷ l else x ∷ rest)

pub remove_height : ℕ → List ℕ → List ℕ
remove_height h [] = []
remove_height h (x ∷ l) = let rest = remove_height h l in if h == x then rest else x ∷ rest

abbrev pub store_result {ℓ} : {A : Type ℓ} → Result StoreError A → Result NoticeError A
store_result (ok a) = ok a
store_result (err e) = err (store_error e)

-- `(0..blob_count).map(|idx| idx as u16)`: at most 2 ^ 16 - 1 blobs, so no index wraps.
pub indices_from : ℕ → ℕ → List ℕ
indices_from i zero = []
indices_from i (suc n) = i ∷ indices_from (i + 1) n

-- What the rest of the node gives: `ArchiveNotice::verify` with a public key, and the proposer that
-- the consensus metadata of a height names.
pub record NoticeApi : Type 0 where
  pub verify : ArchiveNotice → List ℕ → Bool
  pub consensus_proposer : ℕ → Result StoreError (Option (List ℕ))

module _ (t : Tables) (kv : ByteTable) (codec : BlobCodec) where
  pub is_height_finalized : Node t kv → ℕ → Bool
  is_height_finalized s h = leb h (max (s.current_height - 1) s.latest_finalized_height)

  pub prune_archived_height : Node t kv → ℕ → BlobMetadata → Node t kv
  unfolding indices_from remove_height
  prune_archived_height s h m = if m.pruned || m.blob_count == 0 then s else record s {
    engine = mark_archived kv codec s.engine h (indices_from 0 m.blob_count);
    db = update_blob_metadata t s.db h (mark_pruned m);
    pruned_blobs = s.pruned_blobs + m.blob_count;
    pending_archive_heights = remove_height h s.pending_archive_heights;
    pending_prune_heights = remove_height h s.pending_prune_heights;
  }

  -- The end of `handle_archive_notice`, once the record is stored.
  unfoldable pub after_record : Node t kv → ℕ → BlobMetadata → Node t kv
  unfolding is_height_finalized prune_archived_height add_height remove_height
  after_record s h m =
      if all_archived m && not (m.blob_count == 0)
      then (let s' = record s {
        pending_archive_heights = remove_height h s.pending_archive_heights;
      } in
          if is_height_finalized s' h
          then prune_archived_height s' h m
          else record s' { pending_prune_heights = add_height h s'.pending_prune_heights })
      else s

  -- `insert_archive_record`, `set_archive_record` and `update_blob_metadata`, and the end.
  unfoldable pub record_notice :
      Node t kv → ArchiveNotice → BlobMetadata → Result NoticeError (Unit {0}) × Node t kv
  unfolding after_record
  record_notice s n m =
      let h = n.body.height in
      let db = insert_archive_record t s.db h n.body.blob_index (from_notice n) in
      elim (set_archive_record (from_notice n) m) [
        | none ↦ (err panicked, record s { db = db })
        | some m' ↦ (ok tt, after_record (record s { db = update_blob_metadata t db h m' }) h m')
      ]

  -- Whether a record of the same blob says otherwise than a notice.
  pub agrees : ArchiveRecord → ArchiveNotice → Bool
  agrees r n =
      bytes_ord.eq r.body.provider_id n.body.provider_id
      && bytes_ord.eq r.body.locator n.body.locator
      && bytes_ord.eq r.body.blob_keccak n.body.blob_keccak

  -- The counter of mismatching receipts.
  pub count_mismatch : NoticeError → Node t kv → Node t kv
  count_mismatch not_proposer s = record s { receipt_mismatches = s.receipt_mismatches + 1 }
  count_mismatch conflicting s = record s { receipt_mismatches = s.receipt_mismatches + 1 }
  count_mismatch e s = s

  -- `handle_archive_notice` after the checks, with the status of the blob.
  unfoldable pub after_checks :
      Node t kv
      → ArchiveNotice
      → BlobMetadata
      → BlobArchivalStatus
      → Result NoticeError (Unit {0}) × Node t kv
  unfolding record_notice agrees count_mismatch
  after_checks s n m pending = record_notice s n m
  after_checks s n m (archived r) =
      if agrees r n then (ok tt, s) else (err conflicting, count_mismatch conflicting s)

  module _ (api : NoticeApi) where
    unfoldable pub proposer_address_for_height :
        Node t kv → ℕ → Option ℕ → Result NoticeError (Option (List ℕ))
    proposer_address_for_height s h none = store_result (api.consensus_proposer h)
    proposer_address_for_height s h (some i) = elim (get_elem? s.validators i) [
      | none ↦ store_result (api.consensus_proposer h)
      | some v ↦ ok (some v.address)
    ]

    unfoldable pub check_proposer : Option (List ℕ) → ArchiveNotice → Result NoticeError (Unit {0})
    check_proposer none n = ok tt
    check_proposer (some a) n = require (bytes_ord.eq n.body.archived_by a) not_proposer

    -- The keccak hash of a notice is learned, or compared with the stored one.
    unfoldable pub check_hash :
        List ℕ → ArchiveNotice → BlobMetadata → Result NoticeError BlobMetadata
    check_hash stored n m =
        if bytes_ord.eq stored zero_hash
        then ok (update_keccak_hash n.body.blob_index n.body.blob_keccak m)
        else (if bytes_ord.eq stored n.body.blob_keccak then ok m else err hash_mismatch)

    -- The checks of `handle_archive_notice` up to the hash, with the metadata that they leave.
    unfoldable pub check_notice : Node t kv → ArchiveNotice → Result NoticeError BlobMetadata
    unfolding proposer_address_for_height check_proposer check_hash
    check_notice s n = do
      v ← demand (get_by_address n.body.archived_by s.validators) unknown_validator
      _ ← require (api.verify n v.public_key) invalid_signature
      found ← store_result (get_blob_metadata t s.db n.body.height)
      m ← demand found missing_metadata
      _ ← require (ltb n.body.blob_index m.blob_count) index_exceeds_count
      expected ← proposer_address_for_height s n.body.height m.proposer_index_hint
      _ ← check_proposer expected n
      commitment ← demand (get_elem? m.blob_kzg_commitments n.body.blob_index) panicked
      _ ← require (bytes_ord.eq commitment n.body.kzg_commitment) commitment_mismatch
      stored ← demand (get_elem? m.blob_keccak_hashes n.body.blob_index) panicked
      check_hash stored n m

    unfoldable pub handle_archive_notice :
        Node t kv → ArchiveNotice → Result NoticeError (Unit {0}) × Node t kv
    unfolding check_notice count_mismatch after_checks
    handle_archive_notice s n = elim (check_notice s n) [
      | err e ↦ (err e, count_mismatch e s)
      | ok m ↦ after_checks s n m (archival_status n.body.blob_index m)
    ]

  -- The body of the loop of `flush_pending_prunes`, for a height that has metadata.
  pub flush_one : Node t kv → ℕ → BlobMetadata → Node t kv
  unfolding prune_archived_height add_height
  flush_one s h m =
      if m.blob_count == 0
      then s
      else (if all_archived m
          then prune_archived_height s h m
          else record s { pending_prune_heights = add_height h s.pending_prune_heights })

  pub flush_each : Node t kv → List ℕ → Result NoticeError (Unit {0}) × Node t kv
  unfolding flush_one remove_height
  flush_each s [] = (ok tt, s)
  flush_each s (h ∷ l) =
      let s' = record s { pending_prune_heights = remove_height h s.pending_prune_heights } in
      elim (get_blob_metadata t s'.db h) [
        | err e ↦ (err (store_error e), s')
        | ok none ↦ flush_each s' l
        | ok (some m) ↦ flush_each (flush_one s' h m) l
      ]

  pub ready_heights : ℕ → List ℕ → List ℕ
  ready_heights finalized [] = []
  ready_heights finalized (h ∷ l) =
      let rest = ready_heights finalized l in if leb h finalized then h ∷ rest else rest

  pub flush_pending_prunes : Node t kv → Result NoticeError (Unit {0}) × Node t kv
  unfolding flush_each ready_heights
  flush_pending_prunes s =
      flush_each s (
        ready_heights (max (s.current_height - 1) s.latest_finalized_height)
          s.pending_prune_heights)
