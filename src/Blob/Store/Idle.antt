-- ===== src/Blob/Store/Idle.antt =====
-- Promotion at a height with no undecided blob (crates/blob_engine/src/store/rocksdb.rs).
use ultramarine.Common.{ℕ, ◌≡◌, ◌<◌, ◌^◌, ◌≢◌, ap, sym, ◌∙◌, false, some, List, [], arith}
use ultramarine.Common.Int.{ℤ, eqℤ_iff}
use ultramarine.Common.Bytes.{IsI64, to_be, is_prefix}
use ultramarine.Common.Ord.{bytes_ord}
use ultramarine.Common.Kv.Scan.{scan-select, scan}
use ultramarine.Common.Kv.Members.{Every-map, select-none}
use ultramarine.Blob.Key.{
  BlobKey, IsKey, to_undecided_key, undecided_prefix, undecided_prefix_iff, decided_prefix,
  decided_prefix_iff,
}
use ultramarine.Blob.Store.{
  BlobDb, ByteTable, BlobCodec, mark_decided, items_to_move, collect_undecided_entries,
  move_entries,
}
use ultramarine.Blob.Store.View.{IsStore, undecided_at, entries-found}
use ultramarine.Blob.Store.Promote.{mark_decided_round}

-- No undecided blob is left at a height.
abbrev pub NoneAt : (kv : ByteTable) → BlobDb kv → ℕ → Type 0
NoneAt kv db h =
    (k : BlobKey) (v : List ℕ)
    → IsKey k
    → k.height ≡ h
    → kv.get (to_undecided_key k) db.undecided ≢ some v

module _ (kv : ByteTable) (codec : BlobCodec) (h : ℕ) (r : ℤ) (hh : h < 2 ^ 64) (hr : IsI64 r) where
  scans_empty :
      (db : BlobDb kv)
      → IsStore kv db
      → NoneAt kv db h
      → (scan (to_be 8 h) (kv.entries db.undecided) ≡ [])
        × (scan (undecided_prefix h r) (kv.entries db.undecided) ≡ [])
  unfolding decided_prefix
  scans_empty db w none_at =
      let es = kv.entries db.undecided in
      (
        scan-select (to_be 8 h) es (kv.entries_ascending db.undecided)
            ∙ select-none (is_prefix (to_be 8 h)) es
                (Every-map es (λ k v e. (outside k v e).0) (entries-found kv db.undecided)),
        scan-select (undecided_prefix h r) es (kv.entries_ascending db.undecided)
            ∙ select-none (is_prefix (undecided_prefix h r)) es
                (Every-map es (λ k v e. (outside k v e).1) (entries-found kv db.undecided)),
      )
    where
      outside :
          (k v : List ℕ)
          → kv.get k db.undecided ≡ some v
          → (is_prefix (to_be 8 h) k ≡ false) × (is_prefix (undecided_prefix h r) k ≡ false)
      outside k v e =
          let (key, valid, s) = w.keyed k v e in
          let n = none_at key v valid in
          ground (
            arith,
            s,
            ap (is_prefix (to_be 8 h)) s,
            ap (is_prefix (undecided_prefix h r)) s,
            ap (λ j. kv.get j db.undecided) (sym s) ∙ e,
            (decided_prefix_iff key h valid hh).1,
            undecided_prefix_iff key h r valid hh hr,
            n,
          )

  -- At a height with no undecided blob, a promotion moves nothing.
  pub mark_decided_idle :
      (db : BlobDb kv) → IsStore kv db → NoneAt kv db h → mark_decided kv codec db h r ≡ (0, 0, db)
  unfolding mark_decided items_to_move collect_undecided_entries move_entries
  mark_decided_idle db w none_at = let q = scans_empty db w none_at in ground (arith, q.0, q.1)

  pub moved-NoneAt :
      (db : BlobDb kv) (w : IsStore kv db) (i : ℕ) (v : List ℕ)
      → i < 2 ^ 16
      → undecided_at kv db h r i ≡ some v
      → ((k : BlobKey) (u : List ℕ)
          → IsKey k
          → k.height ≡ h
          → kv.get (to_undecided_key k) db.undecided ≡ some u
          → k.round ≡ r)
      → NoneAt kv (mark_decided kv codec db h r).2 h
  moved-NoneAt db w i v hi e only k u valid p q = ground (
    arith,
    (mark_decided_round kv codec db w h r hh hr i v hi e k valid).1,
    eqℤ_iff k.round r,
    only k u valid p,
  )
