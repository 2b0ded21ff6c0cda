-- ===== src/Archive/Notice.antt =====
-- What an archive notice can do (`handle_archive_notice` of crates/consensus/src/state.rs).
use ultramarine.Common.{
  ℕ, ◌<◌, ◌≡◌, ap, ◌∙◌, ◌⊎◌, inl, inr, true, some, arith, get_elem?, ltb, ltb→lt, ◌==◌,
  Option-cases, Bool-cases,
}
use ultramarine.Common.Ord.{bytes_ord}
use ultramarine.Common.Result.{
  require, demand, demand-ok, require-ok, Result, ok, err, Result-cases, bind-ok,
}
use ultramarine.Types.Part.{ArchiveNotice}
use ultramarine.Types.Validator.{Validator, get_by_address}
use ultramarine.Types.Metadata.{
  BlobMetadata, BlobArchivalStatus, pending, archived, archival_status, all_archived,
  set_archive_record, from_notice, mark_pruned,
}
use ultramarine.Metastore.{
  StoreError, Tables, get_blob_metadata, insert_archive_record, update_blob_metadata,
}
use ultramarine.Blob.Store.{ByteTable, BlobCodec}
use ultramarine.Blob.Engine.{mark_archived}
use ultramarine.Archive.{
  NoticeApi, NoticeError, Node, handle_archive_notice, record_notice, after_record, remove_height,
  after_checks, prune_archived_height, is_height_finalized, indices_from, count_mismatch,
  proposer_address_for_height, check_proposer, panicked, commitment_mismatch, check_notice,
  store_result, unknown_validator, invalid_signature, missing_metadata, index_exceeds_count,
}

store_result-ok : {A : Type 0} {r : Result StoreError A} {a : A} → store_result r ≡ ok a → r ≡ ok a
store_result-ok {r = ok x} p = ground (arith, p)
store_result-ok {r = err x} p = absurd (ground (arith, p))

module _ (t : Tables) (kv : ByteTable) (codec : BlobCodec) where
  -- What an operation on the archived blobs of a height does to the blob engine: nothing, or it
  -- removes all the blobs of the height, which is final and has every blob archived, and the
  -- metadata is stored as pruned.
  abbrev pub Prunes : Node t kv → ℕ → Node t kv → Type 0
  Prunes s h s' =
      (s'.engine ≡ s.engine)
      ⊎ ((is_height_finalized t kv codec s h ≡ true)
          × (m : BlobMetadata) × (all_archived m ≡ true)
          × (s'.engine ≡ mark_archived kv codec s.engine h (indices_from 0 m.blob_count))
          × (t.decided_table.get h s'.db.decided ≡ some (t.metadata.encode (mark_pruned m))))

  prune-engine :
      (s : Node t kv) (h : ℕ) (m : BlobMetadata)
      → (let s' = prune_archived_height t kv codec s h m in
          (s'.engine ≡ s.engine)
          ⊎ ((s'.engine ≡ mark_archived kv codec s.engine h (indices_from 0 m.blob_count))
              × (t.decided_table.get h s'.db.decided ≡ some (t.metadata.encode (mark_pruned m)))))
  unfolding prune_archived_height update_blob_metadata
  prune-engine s h m =
      ground
        (arith, t.decided_table.get-insert h h (t.metadata.encode (mark_pruned m)) s.db.decided)

  after_record-Prunes :
      (s : Node t kv) (h : ℕ) (m : BlobMetadata) → Prunes s h (after_record t kv codec s h m)
  unfolding after_record is_height_finalized
  after_record-Prunes s h m = elim (Bool-cases (all_archived m)) [
    | inl a ↦ elim (Bool-cases (m.blob_count == 0)) [
      | inl z ↦ inl (ground (arith, a, z))
      | inr z ↦ elim (Bool-cases (is_height_finalized t kv codec s h)) [
        | inl f ↦
            let s' = record s {
              pending_archive_heights = remove_height h s.pending_archive_heights;
            } in
            elim (prune-engine s' h m) [
              | inl q ↦ inl (ground (arith, a, z, f, q))
              | inr q ↦ inr (f, m, a, ground (arith, a, z, f, q.0), ground (arith, a, z, f, q.1))
            ]
        | inr f ↦ inl (ground (arith, a, z, f))
      ]
    ]
    | inr a ↦ inl (ground (arith, a))
  ]

  count-engine :
      (e : NoticeError) (s : Node t kv) → (count_mismatch t kv codec e s).engine ≡ s.engine
  unfolding count_mismatch
  count-engine e s = ground arith

  module _ (api : NoticeApi) (s : Node t kv) (n : ArchiveNotice) where
    -- The conditions under which a notice passes the checks.
    check_notice-ok :
        (m' : BlobMetadata)
        → check_notice t kv codec api s n ≡ ok m'
        → (v : Validator) × (get_by_address n.body.archived_by s.validators ≡ some v)
          × (api.verify n v.public_key ≡ true)
          × (m : BlobMetadata) × (get_blob_metadata t s.db n.body.height ≡ ok (some m))
          × (n.body.blob_index < m.blob_count)
          × (get_elem? m.blob_kzg_commitments n.body.blob_index ≡ some n.body.kzg_commitment)
    unfolding check_notice
    check_notice-ok m' e =
        let (v, p1, e1) =
          bind-ok (demand (get_by_address n.body.archived_by s.validators) unknown_validator) _ m'
            e in
        let (u2, p2, e2) =
          bind-ok (require (api.verify n v.public_key) invalid_signature) _ m' e1 in
        let (found, p3, e3) =
          bind-ok (store_result (get_blob_metadata t s.db n.body.height)) _ m' e2 in
        let (m, p4, e4) = bind-ok (demand found missing_metadata) _ m' e3 in
        let (u5, p5, e5) =
          bind-ok (require (ltb n.body.blob_index m.blob_count) index_exceeds_count) _ m' e4 in
        let (expected, p6, e6) =
          bind-ok (proposer_address_for_height t kv codec api s n.body.height m.proposer_index_hint)
            _ m' e5 in
        let (u7, p7, e7) = bind-ok (check_proposer t kv codec api expected n) _ m' e6 in
        let (c, p8, e8) =
          bind-ok (demand (get_elem? m.blob_kzg_commitments n.body.blob_index) panicked) _ m' e7 in
        let (u9, p9, e9) =
          bind-ok (require (bytes_ord.eq c n.body.kzg_commitment) commitment_mismatch) _ m' e8 in
        (
          v,
          demand-ok _ p1,
          require-ok _ p2,
          m,
          store_result-ok p3 ∙ ap ok (demand-ok _ p4),
          ltb→lt n.body.blob_index m.blob_count (require-ok _ p5),
          demand-ok _ p8 ∙ ap some ((bytes_ord.eq_iff c n.body.kzg_commitment).0 (require-ok _ p9)),
        )

  record_notice-Prunes :
      (s : Node t kv) (n : ArchiveNotice) (m : BlobMetadata)
      → Prunes s n.body.height (record_notice t kv codec s n m).1
  unfolding record_notice is_height_finalized
  record_notice-Prunes s n m = elim (Option-cases (set_archive_record (from_notice n) m)) [
    | inl e ↦ inl (ground (arith, e))
    | inr (m', e) ↦
        let h = n.body.height in
        let db = insert_archive_record t s.db h n.body.blob_index (from_notice n) in
        rw (e, record_notice)
          (after_record-Prunes (record s { db = update_blob_metadata t db h m' }) h m')
  ]

  after_checks-Prunes :
      (s : Node t kv) (n : ArchiveNotice) (m : BlobMetadata) (st : BlobArchivalStatus)
      → Prunes s n.body.height (after_checks t kv codec s n m st).1
  unfolding after_checks count_mismatch
  after_checks-Prunes s n m pending = record_notice-Prunes s n m
  after_checks-Prunes s n m (archived r) = inl (ground arith)

  -- A notice leaves the blob engine as it was, or its height is final, every blob in the metadata of
  -- that height is archived, the engine marks as archived the blobs of that height with the indices
  -- below the count of the metadata, and the metadata is stored as pruned.
  pub handle_archive_notice-Prunes :
      (api : NoticeApi) (s : Node t kv) (n : ArchiveNotice)
      → Prunes s n.body.height (handle_archive_notice t kv codec api s n).1
  unfolding handle_archive_notice
  handle_archive_notice-Prunes api s n = elim (Result-cases (check_notice t kv codec api s n)) [
    | inl (m, e) ↦
        rw (e, handle_archive_notice)
          (after_checks-Prunes s n m (archival_status n.body.blob_index m))
    | inr (x, e) ↦ inl (ground (arith, e, count-engine x s))
  ]

  -- A notice is accepted only from a validator, with that validator's signature, for a blob of a
  -- decided height, and with that blob's commitment.
  pub handle_archive_notice-ok :
      (api : NoticeApi) (s : Node t kv) (n : ArchiveNotice)
      → (handle_archive_notice t kv codec api s n).0 ≡ ok tt
      → (v : Validator) × (get_by_address n.body.archived_by s.validators ≡ some v)
        × (api.verify n v.public_key ≡ true)
        × (m : BlobMetadata) × (get_blob_metadata t s.db n.body.height ≡ ok (some m))
        × (n.body.blob_index < m.blob_count)
        × (get_elem? m.blob_kzg_commitments n.body.blob_index ≡ some n.body.kzg_commitment)
  unfolding handle_archive_notice
  handle_archive_notice-ok api s n p = elim (Result-cases (check_notice t kv codec api s n)) [
    | inl (m, e) ↦ check_notice-ok api s n m e
    | inr (x, e) ↦ absurd (ground (arith, e, p))
  ]
