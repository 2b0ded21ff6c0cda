-- ===== src/Blob/Store.antt =====
-- The RocksDB blob store (crates/blob_engine/src/store/rocksdb.rs): two column families, which are
-- tables `kv` of byte strings, and a serialization of sidecars, which is a parameter. Input and
-- output of the database succeed, as the handles of the two families do: `open` creates both.
pub mod View
pub mod Moves
pub mod Promote
pub mod Writes
pub mod Removal
pub mod Idle
use ultramarine.Common.{
  ℕ, suc, ◌+◌, ◌*◌, ◌≡◌, Bool, true, false, Option, none, some, List, [], ◌∷◌, leb, ltb, length,
  take, if◌then◌else◌,
}
use ultramarine.Common.Int.{ℤ, pos}
use ultramarine.Common.Bytes.{from_be, is_prefix, to_be}
use ultramarine.Common.Ord.{bytes_ord}
use ultramarine.Common.Kv.{Kv}
use ultramarine.Common.Kv.Scan.{scan}
use ultramarine.Common.Result.{Result, ok, err}
use ultramarine.Types.Part.{BlobSidecar}
use ultramarine.Blob.Key.{
  BlobKey, to_undecided_key, to_decided_key, from_undecided_key, undecided_prefix, decided_prefix,
}

pub data BlobStoreError : Type 0 where
  serialization deserialization : BlobStoreError

-- `serialize_blob` and `deserialize_blob`: the protobuf form of a sidecar.
pub record BlobCodec : Type 0 where
  pub serialize : BlobSidecar → Result BlobStoreError (List ℕ)
  pub deserialize : List ℕ → Result BlobStoreError BlobSidecar
  pub deserialize-serialize :
      (b : BlobSidecar) (v : List ℕ) → serialize b ≡ ok v → deserialize v ≡ ok b

abbrev pub ByteTable : Type 1
ByteTable = Kv (List ℕ) (List ℕ)

-- The two column families.
pub record BlobDb (kv : ByteTable) : Type 0 where
  pub undecided : kv.Map
  pub decided : kv.Map

abbrev pub Entries : Type 0
Entries = List (List ℕ × List ℕ)

-- `blob.blob.size()` of an entry that can be read, and 0 of one that cannot.
pub entry_size : BlobCodec → List ℕ → ℕ
entry_size codec v = elim (codec.deserialize v) [ ok b ↦ length b.blob | err e ↦ 0 ]

-- The sort by index, in the order of the list where two indices are equal.
unfoldable pub insert_by_index : BlobSidecar → List BlobSidecar → List BlobSidecar
insert_by_index b [] = b ∷ []
insert_by_index b (x ∷ l) = if leb b.index x.index then b ∷ x ∷ l else x ∷ insert_by_index b l

unfoldable pub sort_by_index : List BlobSidecar → List BlobSidecar
unfolding insert_by_index
sort_by_index [] = []
sort_by_index (b ∷ l) = insert_by_index b (sort_by_index l)

-- The loops that read the values of a scan.
unfoldable pub read_blobs : BlobCodec → Entries → Result BlobStoreError (List BlobSidecar)
read_blobs codec [] = ok []
read_blobs codec ((k, v) ∷ l) =
    let rest = read_blobs codec l in
    elim (codec.deserialize v) [
      | err e ↦ err e
      | ok b ↦ elim rest [ ok bs ↦ ok (b ∷ bs) | err e ↦ err e ]
    ]

unfoldable pub sorted_blobs :
    Result BlobStoreError (List BlobSidecar) → Result BlobStoreError (List BlobSidecar)
unfolding sort_by_index
sorted_blobs (ok bs) = ok (sort_by_index bs)
sorted_blobs (err e) = err e

module _ (kv : ByteTable) (codec : BlobCodec) where
  -- The loop of `put_undecided_blobs`: what is written before an error stays written.
  unfoldable pub put_blobs :
      BlobDb kv → ℕ → ℤ → List BlobSidecar → Result BlobStoreError (Unit {0}) × BlobDb kv
  put_blobs db height round [] = (ok tt, db)
  put_blobs db height round (b ∷ bs) = elim (codec.serialize b) [
    | err e ↦ (err e, db)
    | ok v ↦
        put_blobs
          (record db {
            undecided =
                kv.insert
                  (to_undecided_key (record { height = height; round = round; index = b.index })) v
                  db.undecided;
          })
          height round bs
  ]

  unfoldable pub put_undecided_blobs :
      BlobDb kv → ℕ → ℤ → List BlobSidecar → Result BlobStoreError ℕ × BlobDb kv
  unfolding put_blobs
  put_undecided_blobs db height round blobs =
      let (result, db') = put_blobs db height round blobs in
      (elim result [ ok _ ↦ ok (length blobs) | err e ↦ err e ], db')

  pub collect_undecided_entries : BlobDb kv → ℕ → Option ℤ → Entries
  collect_undecided_entries db height none = scan (to_be 8 height) (kv.entries db.undecided)
  collect_undecided_entries db height (some round) =
      scan (undecided_prefix height round) (kv.entries db.undecided)

  pub get_undecided_blobs : BlobDb kv → ℕ → ℤ → Result BlobStoreError (List BlobSidecar)
  unfolding read_blobs sorted_blobs
  get_undecided_blobs db height round =
      sorted_blobs
        (read_blobs codec (scan (undecided_prefix height round) (kv.entries db.undecided)))

  unfoldable pub get_decided_blobs : BlobDb kv → ℕ → Result BlobStoreError (List BlobSidecar)
  unfolding read_blobs sorted_blobs
  get_decided_blobs db height =
      sorted_blobs (read_blobs codec (scan (decided_prefix height) (kv.entries db.decided)))

  -- The loop of `mark_decided`: the count, the bytes and the database after the moves.
  pub move_entries : Entries → ℕ × ℕ × BlobDb kv → ℕ × ℕ × BlobDb kv
  unfolding entry_size
  move_entries [] acc = acc
  move_entries ((k, v) ∷ l) (count, bytes, db) = move_entries l (elim (from_undecided_key k) [
    | none ↦ (count, bytes, db)
    | some key ↦ (
      count + 1,
      bytes + entry_size codec v,
      record {
        undecided = kv.remove k db.undecided;
        decided = kv.insert (to_decided_key key) v db.decided;
      },
    )
  ])

  -- The entries that `mark_decided` moves: those of the round, or of every round if it has none.
  pub items_to_move : BlobDb kv → ℕ → ℤ → Entries
  unfolding collect_undecided_entries
  items_to_move db height round = elim (collect_undecided_entries db height (some round)) [
    | [] ↦ collect_undecided_entries db height none
    | e ∷ l ↦ e ∷ l
  ]

  pub mark_decided : BlobDb kv → ℕ → ℤ → ℕ × ℕ × BlobDb kv
  unfolding move_entries items_to_move
  mark_decided db height round = move_entries (items_to_move db height round) (0, 0, db)

  -- The loop of `drop_round`.
  pub drop_entries : Entries → ℕ × kv.Map → ℕ × kv.Map
  unfolding entry_size
  drop_entries [] acc = acc
  drop_entries ((k, v) ∷ l) (bytes, m) = drop_entries l (bytes + entry_size codec v, kv.remove k m)

  pub drop_round : BlobDb kv → ℕ → ℤ → ℕ × ℕ × BlobDb kv
  unfolding drop_entries
  drop_round db height round =
      let items = scan (undecided_prefix height round) (kv.entries db.undecided) in
      let (bytes, m) = drop_entries items (0, db.undecided) in
      (length items, bytes, record db { undecided = m })

module _ (kv : ByteTable) where
  pub remove_keys : List (List ℕ) → kv.Map → kv.Map
  remove_keys [] m = m
  remove_keys (k ∷ l) m = remove_keys l (kv.remove k m)

  pub archived_keys : ℕ → List ℕ → List (List ℕ)
  archived_keys height [] = []
  archived_keys height (i ∷ l) =
      to_decided_key (record { height = height; round = pos 0; index = i }) ∷ archived_keys height l

  pub delete_archived : BlobDb kv → ℕ → List ℕ → BlobDb kv
  unfolding remove_keys archived_keys
  delete_archived db height indices = record db {
    decided = remove_keys (archived_keys height indices) db.decided;
  }

  -- The keys that `prune_before` collects.
  pub keys_before : ℕ → Entries → List (List ℕ)
  keys_before height [] = []
  keys_before height ((k, v) ∷ l) =
      let rest = keys_before height l in
      if leb 8 (length k)
      then (if ltb (from_be (take 8 k)) height then k ∷ rest else rest)
      else rest

  pub prune_before : BlobDb kv → ℕ → ℕ × BlobDb kv
  unfolding remove_keys keys_before
  prune_before db height =
      let keys = keys_before height (kv.entries db.decided) in
      (length keys, record db { decided = remove_keys keys db.decided })
