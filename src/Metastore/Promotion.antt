-- ===== src/Metastore/Promotion.antt =====
-- Promotion of blob metadata (crates/consensus/src/store.rs).
use ultramarine.Common.{ℕ, ◌≡◌, inl, inr, none, some, arith, ◌==◌, Option-cases, if◌then◌else◌}
use ultramarine.Common.Int.{ℤ}
use ultramarine.Common.Ord.{nat_ord, int_ord, pair_ord}
use ultramarine.Common.Result.{ok, err}
use ultramarine.Types.Metadata.{BlobMetadata}
use ultramarine.Metastore.{
  Tables, MetaDb, missing_blob_metadata, get_blob_metadata_undecided,
  insert_blob_metadata_undecided, mark_blob_metadata_decided,
}

module _ (t : Tables) (db : MetaDb t) (h : ℕ) (r : ℤ) where
  abbrev promoted : MetaDb t
  promoted = (mark_blob_metadata_decided t db h r).1

  -- Promotion moves the metadata of the decided round to the decided table and touches no other key;
  -- if it fails it changes nothing; and after it has succeeded, it succeeds again and changes
  -- nothing.
  pub mark_blob_metadata_decided_lem :
      (k : ℕ) (q : ℤ)
      → (t.decided_table.get k promoted.decided ≡ (
          if k == h
          then elim (t.undecided_table.get (h, r) db.undecided) [
            | some v ↦ some v
            | none ↦ t.decided_table.get k db.decided
          ]
          else t.decided_table.get k db.decided))
        × (t.undecided_table.get (k, q) promoted.undecided ≡ (
            if (pair_ord {A = ℕ} {B = ℤ}).eq (h, r) (k, q)
            then none
            else t.undecided_table.get (k, q) db.undecided))
        × ((mark_blob_metadata_decided t db h r).0 ≡ err (missing_blob_metadata h r)
            → promoted ≡ db)
        × ((mark_blob_metadata_decided t db h r).0 ≡ ok tt
            → mark_blob_metadata_decided t promoted h r ≡ (ok tt, promoted))
  unfolding mark_blob_metadata_decided
  mark_blob_metadata_decided_lem k q =
      elim (Option-cases (t.undecided_table.get (h, r) db.undecided)) [
        | inl e ↦ (
          ground (arith, e),
          ground (arith, e, (pair_ord {A = ℕ} {B = ℤ}).eq_iff (h, r) (k, q)),
          λ p. ground (arith, e, p),
          λ p. ground (arith, e, p),
        )
        | inr (v, e) ↦ (
          ground (arith, e, t.decided_table.get-insert h k v db.decided),
          ground (arith, e, t.undecided_table.get-remove (h, r) (k, q) db.undecided),
          λ p. ground (arith, e, p),
          λ p. ground (
            arith,
            e,
            t.undecided_table.get-remove (h, r) (h, r) db.undecided,
            (pair_ord {A = ℕ} {B = ℤ}).eq_iff (h, r) (h, r),
            t.decided_table.get-insert h h v db.decided,
          ),
        )
      ]

-- The first metadata of a round stays: a later one for the same round is not stored, and what is
-- read back is the first.
pub insert_blob_metadata_undecided_twice :
    (t : Tables) (db : MetaDb t) (h : ℕ) (r : ℤ) (m n : BlobMetadata)
    → t.undecided_table.get (h, r) db.undecided ≡ none
    → (let db1 = insert_blob_metadata_undecided t db h r m in
        (get_blob_metadata_undecided t db1 h r ≡ ok (some m))
        × (insert_blob_metadata_undecided t db1 h r n ≡ db1))
unfolding get_blob_metadata_undecided insert_blob_metadata_undecided
insert_blob_metadata_undecided_twice t db h r m n e =
    let hit = t.undecided_table.get-insert (h, r) (h, r) (t.metadata.encode m) db.undecided in
    let same = (pair_ord {A = ℕ} {B = ℤ}).eq_iff (h, r) (h, r) in
    (ground (arith, e, hit, same, t.metadata.decode-encode m), ground (arith, e, hit, same))
