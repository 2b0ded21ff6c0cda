-- ===== src/Metastore.antt =====
-- The metadata store (the blob metadata and archive records of crates/consensus/src/store.rs): redb
-- tables, which are tables of the interface `Kv`, and protobuf encodings, which are parameters.
-- Transactions of the database succeed; an assertion that fails in a read is the error `panicked`.
pub mod Promotion
use ultramarine.Common.{
  ℕ, ◌≡◌, Bool, true, false, Option, none, some, List, [], ◌∷◌, ltb, ◌==◌, is_some, if◌then◌else◌,
}
use ultramarine.Common.Int.{ℤ}
use ultramarine.Common.Ord.{Ord, nat_ord, int_ord, pair_ord}
use ultramarine.Common.Kv.{Kv}
use ultramarine.Common.Kv.Sorted.{select}
use ultramarine.Common.Result.{Result, ok, err, ◌>>=◌}
use ultramarine.Types.Metadata.{ArchiveRecord, BlobMetadata, set_archive_record}

pub data StoreError : Type 0 where
  protobuf panicked : StoreError
  missing_blob_metadata : ℕ → ℤ → StoreError

-- A protobuf encoding: what is written is read back.
pub record Codec (A : Type 0) : Type 1 where
  pub Stored : Type 0
  pub encode : A → Stored
  pub decode : Stored → Result StoreError A
  pub decode-encode : (a : A) → decode (encode a) ≡ ok a

pub record Tables : Type 1 where
  pub metadata : Codec BlobMetadata
  pub records : Codec ArchiveRecord
  pub undecided_table : Kv (ℕ × ℤ) metadata.Stored
  pub decided_table : Kv ℕ metadata.Stored
  pub archival_table : Kv (ℕ × ℕ) records.Stored

-- The tables, and the height under "latest_height" of the metadata table.
pub record MetaDb (t : Tables) : Type 0 where
  pub undecided : t.undecided_table.Map
  pub decided : t.decided_table.Map
  pub archival : t.archival_table.Map
  pub latest_height : Option ℕ

module _ (t : Tables) where
  -- The entries of `table.range((height, 0)..=(height, u16::MAX))`.
  unfoldable pub archival_range : MetaDb t → ℕ → List ((ℕ × ℕ) × t.records.Stored)
  archival_range db height = select (λ k. k.0 == height) (t.archival_table.entries db.archival)

  -- The loop of `hydrate_archival_records`.
  unfoldable pub hydrate :
      List ((ℕ × ℕ) × t.records.Stored) → BlobMetadata → Result StoreError BlobMetadata
  hydrate [] m = ok m
  hydrate ((k, v) ∷ l) m = elim (t.records.decode v) [
    | err e ↦ err e
    | ok r ↦ elim (set_archive_record r m) [ none ↦ err panicked | some m' ↦ hydrate l m' ]
  ]

  unfoldable pub get_blob_metadata : MetaDb t → ℕ → Result StoreError (Option BlobMetadata)
  unfolding archival_range hydrate
  get_blob_metadata db height = elim (t.decided_table.get height db.decided) [
    | none ↦ ok none
    | some v ↦ do m ← t.metadata.decode v; m' ← hydrate (archival_range db height) m; ok (some m')
  ]

  pub get_blob_metadata_undecided : MetaDb t → ℕ → ℤ → Result StoreError (Option BlobMetadata)
  get_blob_metadata_undecided db height round =
      elim (t.undecided_table.get (height, round) db.undecided) [
        | none ↦ ok none
        | some v ↦ do m ← t.metadata.decode v; ok (some m)
      ]

  -- `insert_blob_metadata_undecided`: the first proposal of a round is kept.
  unfoldable pub insert_blob_metadata_undecided : MetaDb t → ℕ → ℤ → BlobMetadata → MetaDb t
  insert_blob_metadata_undecided db height round m =
      if is_some (t.undecided_table.get (height, round) db.undecided) then db else record db {
        undecided = t.undecided_table.insert (height, round) (t.metadata.encode m) db.undecided;
      }

  unfoldable pub insert_archive_record : MetaDb t → ℕ → ℕ → ArchiveRecord → MetaDb t
  insert_archive_record db height index r = record db {
    archival = t.archival_table.insert (height, index) (t.records.encode r) db.archival;
  }

  unfoldable pub update_blob_metadata : MetaDb t → ℕ → BlobMetadata → MetaDb t
  update_blob_metadata db height m = record db {
    decided = t.decided_table.insert height (t.metadata.encode m) db.decided;
  }

  unfoldable pub mark_blob_metadata_decided :
      MetaDb t → ℕ → ℤ → Result StoreError (Unit {0}) × MetaDb t
  mark_blob_metadata_decided db height round =
      elim (t.undecided_table.get (height, round) db.undecided) [
        | none ↦
            if is_some (t.decided_table.get height db.decided)
            then (ok tt, db)
            else (err (missing_blob_metadata height round), db)
        | some v ↦ (
          ok tt,
          record db {
            decided = t.decided_table.insert height v db.decided;
            latest_height = some height;
            undecided = t.undecided_table.remove (height, round) db.undecided;
          },
        )
      ]

  unfoldable pub insert_genesis_blob_metadata : MetaDb t → BlobMetadata → MetaDb t
  insert_genesis_blob_metadata db m =
      if is_some (t.decided_table.get 0 db.decided) then db else record db {
        decided = t.decided_table.insert 0 (t.metadata.encode m) db.decided;
        latest_height = some 0;
      }

  unfoldable pub get_latest_blob_metadata : MetaDb t → Result StoreError (Option (ℕ × BlobMetadata))
  unfolding get_blob_metadata
  get_latest_blob_metadata db = elim db.latest_height [
    | none ↦ ok none
    | some height ↦ elim (get_blob_metadata db height) [
      | err e ↦ err e
      | ok none ↦ ok none
      | ok (some m) ↦ ok (some (height, m))
    ]
  ]

  unfoldable pub delete_blob_metadata_undecided : MetaDb t → ℕ → ℤ → MetaDb t
  delete_blob_metadata_undecided db height round = record db {
    undecided = t.undecided_table.remove (height, round) db.undecided;
  }

  abbrev pub heights_of : List (ℕ × t.metadata.Stored) → List ℕ
  heights_of [] = []
  heights_of ((h, v) ∷ l) = h ∷ heights_of l

  pub decided_heights : MetaDb t → List ℕ
  decided_heights db = heights_of (t.decided_table.entries db.decided)

  -- The loop of `get_all_undecided_blob_metadata_before`, which stops at the height.
  unfoldable pub keys_below : ℕ → List ((ℕ × ℤ) × t.metadata.Stored) → List (ℕ × ℤ)
  keys_below height [] = []
  keys_below height ((k, v) ∷ l) =
      let rest = keys_below height l in if ltb k.0 height then k ∷ rest else []

  unfoldable pub get_all_undecided_blob_metadata_before : MetaDb t → ℕ → List (ℕ × ℤ)
  unfolding keys_below
  get_all_undecided_blob_metadata_before db height =
      keys_below height (t.undecided_table.entries db.undecided)
