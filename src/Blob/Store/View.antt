-- ===== src/Blob/Store/View.antt =====
-- The blob store as two maps: blobs by height, round and index, and decided blobs by height and
-- index (crates/blob_engine/src/store/rocksdb.rs).
use ultramarine.Common.{
  ℕ, ◌≡◌, ◌<◌, ◌^◌, ap, sym, ◌∙◌, true, Option, none, some, List, arith, if◌then◌else◌,
}
use ultramarine.Common.Int.{ℤ, pos}
use ultramarine.Common.Bytes.{IsI64, is_prefix}
use ultramarine.Common.Ord.{bytes_ord}
use ultramarine.Common.Kv.Sorted.{find, select, find-select, IsAscending}
use ultramarine.Common.Kv.Scan.{scan, scan-select}
use ultramarine.Common.Kv.Members.{Every, Every-map, Every-find, select-Every, select-IsAscending}
use ultramarine.Blob.Key.{
  BlobKey, IsKey, to_undecided_key, to_decided_key, from_undecided_key, from_decided_key,
  undecided_prefix, from_undecided_key-to_undecided_key, from_decided_key-to_decided_key,
  undecided_prefix_iff,
}
use ultramarine.Blob.Store.{BlobDb, ByteTable, Entries}

-- The keys of an undecided and of a decided blob.
abbrev pub uk : ℕ → ℤ → ℕ → List ℕ
uk h r i = to_undecided_key (record { height = h; round = r; index = i })

abbrev pub dk : ℕ → ℕ → List ℕ
dk h i = to_decided_key (record { height = h; round = pos 0; index = i })

pub to_undecided_key-injective :
    (a b : BlobKey) → IsKey a → IsKey b → to_undecided_key a ≡ to_undecided_key b → a ≡ b
to_undecided_key-injective a b va vb e = cc (
  from_undecided_key-to_undecided_key a va,
  from_undecided_key-to_undecided_key b vb,
  ap from_undecided_key e,
)

pub to_decided_key-injective :
    (a b : BlobKey)
    → IsKey a
    → IsKey b
    → to_decided_key a ≡ to_decided_key b
    → (a.height ≡ b.height) × (a.index ≡ b.index)
to_decided_key-injective a b va vb e = ground (
  arith,
  from_decided_key-to_decided_key a (pos 0) va,
  from_decided_key-to_decided_key b (pos 0) vb,
  ap (λ k. from_decided_key k (pos 0)) e,
)

module _ (kv : ByteTable) where
  abbrev pub undecided_at : BlobDb kv → ℕ → ℤ → ℕ → Option (List ℕ)
  undecided_at db h r i = kv.get (uk h r i) db.undecided

  abbrev pub decided_at : BlobDb kv → ℕ → ℕ → Option (List ℕ)
  decided_at db h i = kv.get (dk h i) db.decided

  -- The undecided family holds keys of blobs alone.
  pub record IsStore (db : BlobDb kv) : Type 0 where
    pub keyed :
        (j v : List ℕ)
        → kv.get j db.undecided ≡ some v
        → (k : BlobKey) × IsKey k × (j ≡ to_undecided_key k)

  -- The decided family holds decided keys of blobs alone.
  pub record IsPromoted (db : BlobDb kv) : Type 0 where
    pub promoted :
        (j v : List ℕ)
        → kv.get j db.decided ≡ some v
        → (k : BlobKey) × IsKey k × (j ≡ to_decided_key k)

-- Every entry has the key of a blob of one height and round.
abbrev pub Of : ℕ → ℤ → Entries → Type 0
Of h r = Every (λ k v. (x : ℕ) × (x < 2 ^ 16) × (k ≡ uk h r x))

module _ (kv : ByteTable) where
  pub entries-found : (m : kv.Map) → Every (λ k v. kv.get k m ≡ some v) (kv.entries m)
  entries-found m =
      Every-map (kv.entries m) (λ k v e. sym (kv.find-entries k m) ∙ e)
        (Every-find (kv.entries m) (kv.entries_ascending m))

  module _ (db : BlobDb kv) (w : IsStore kv db) (h : ℕ) (r : ℤ) (hh : h < 2 ^ 64)
      (hr : IsI64 r) where
    abbrev pub round_entries : Entries
    round_entries = scan (undecided_prefix h r) (kv.entries db.undecided)

    as_select : round_entries ≡ select (is_prefix (undecided_prefix h r)) (kv.entries db.undecided)
    as_select =
        scan-select (undecided_prefix h r) (kv.entries db.undecided)
          (kv.entries_ascending db.undecided)

    pub round_entries-IsAscending : IsAscending round_entries
    round_entries-IsAscending = rw as_select (
        select-IsAscending (is_prefix (undecided_prefix h r)) (kv.entries db.undecided)
          (kv.entries_ascending db.undecided))

    of_round :
        (k v : List ℕ)
        → (is_prefix (undecided_prefix h r) k ≡ true) × (kv.get k db.undecided ≡ some v)
        → (x : ℕ) × (x < 2 ^ 16) × (k ≡ uk h r x)
    of_round k v q =
        let (key, valid, e) = w.keyed k v q.1 in
        let p =
          (undecided_prefix_iff key h r valid hh hr).0
            (ap (is_prefix (undecided_prefix h r)) (sym e) ∙ q.0) in
        (key.index, valid.index_range, e ∙ ap to_undecided_key (cc (p.0, p.1)))

    pub round_entries-Of : Of h r round_entries
    round_entries-Of = rw as_select (
        Every-map _ of_round (
          select-Every (is_prefix (undecided_prefix h r)) _ (kv.entries db.undecided)
            (entries-found db.undecided)))

    pub round_entries-found : Every (λ k v. kv.get k db.undecided ≡ some v) round_entries
    round_entries-found = rw as_select (
        Every-map _ (λ k v q. q.1)
          (select-Every (is_prefix (undecided_prefix h r)) _ (kv.entries db.undecided)
            (entries-found db.undecided)))

    -- The scan of a round finds a key exactly if it is a key of that round.
    pub find-round_entries :
        (j : List ℕ)
        → find j round_entries
          ≡ (if is_prefix (undecided_prefix h r) j then kv.get j db.undecided else none)
    find-round_entries j =
        ap (find j) as_select
        ∙ find-select (is_prefix (undecided_prefix h r)) j (kv.entries db.undecided)
        ∙ ap (λ (x : Option (List ℕ)). if is_prefix (undecided_prefix h r) j then x else none)
            (kv.find-entries j db.undecided)
