-- ===== src/Commit/Restart.antt =====
-- What a node does with its blob metadata when it starts: `cleanup_stale_blob_metadata` and
-- `hydrate_blob_parent_root` of crates/consensus/src/state.rs, with `BlobMetadata::genesis`.
use ultramarine.Common.{
  ℕ, suc, ◌≡◌, refl, inl, inr, ◌⊎◌, false, ◌&&◌, none, some, List, [], ◌∷◌, arith, if◌then◌else◌,
  Bool-cases, Option-cases, ltb, is_some, replicate,
}
use ultramarine.Common.Int.{ℤ}
use ultramarine.Common.Ord.{nat_ord, int_ord, pair_ord}
use ultramarine.Common.Kv.Sorted.{find, IsAscending, Above-trans, find-Above}
use ultramarine.Common.Result.{Result, ok, err, Result-cases}
use ultramarine.Types.Part.{BeaconBlockHeader}
use ultramarine.Types.Metadata.{BlobMetadata, zero_hash}
use ultramarine.Metastore.{
  StoreError, Tables, MetaDb, get_latest_blob_metadata, insert_genesis_blob_metadata,
  get_blob_metadata, get_all_undecided_blob_metadata_before, keys_below,
  delete_blob_metadata_undecided, archival_range, hydrate,
}
use ultramarine.Blob.Store.{ByteTable}
use ultramarine.Merkle.{MerkleApi}
use ultramarine.Proposal.{Signing}
use ultramarine.Sidecar.{to_beacon_header, resolve_parent_root_for_height}
use ultramarine.Chain.{ChainTables}
use ultramarine.Chain.Prune.{has}
use ultramarine.Commit.{NodeState}

abbrev pub load_execution_gas_limit : ℕ
load_execution_gas_limit = 2000000000

-- `BlobMetadata::genesis`.
pub genesis : BlobMetadata
genesis = record {
  height = 0;
  parent_blob_root = zero_hash;
  blob_kzg_commitments = [];
  blob_count = 0;
  blob_keccak_hashes = [];
  archival_records = [];
  pruned = false;
  execution_payload_header = record {
    block_hash = zero_hash;
    parent_hash = zero_hash;
    state_root = zero_hash;
    receipts_root = zero_hash;
    logs_bloom = replicate 256 0;
    block_number = 0;
    gas_limit = load_execution_gas_limit;
    gas_used = 0;
    timestamp = 0;
    base_fee_per_gas = 0;
    blob_gas_used = 0;
    excess_blob_gas = 0;
    prev_randao = zero_hash;
    fee_recipient = replicate 20 0;
    extra_data = [];
    transactions_root = zero_hash;
    withdrawals_root = zero_hash;
    requests_hash = none;
  };
  proposer_index_hint = some 0;
}

module _ (t : Tables) where
  -- The loop over the stale entries.
  pub delete_entries : List (ℕ × ℤ) → MetaDb t → MetaDb t
  unfolding delete_blob_metadata_undecided
  delete_entries [] db = db
  delete_entries ((h, r) ∷ l) db = delete_entries l (delete_blob_metadata_undecided t db h r)

  unfoldable pub cleanup_stale_blob_metadata : MetaDb t → ℕ → MetaDb t
  unfolding delete_entries
  cleanup_stale_blob_metadata db current_height =
      delete_entries (get_all_undecided_blob_metadata_before t db current_height) db

  get-delete_entries :
      (l : List (ℕ × ℤ)) (db : MetaDb t) (j : ℕ × ℤ)
      → t.undecided_table.get j (delete_entries l db).undecided
        ≡ (if has j l then none else t.undecided_table.get j db.undecided)
  unfolding delete_entries delete_blob_metadata_undecided
  get-delete_entries [] db j = refl
  get-delete_entries ((h, r) ∷ l) db j = ground (
    arith,
    get-delete_entries l (delete_blob_metadata_undecided t db h r) j,
    t.undecided_table.get-remove (h, r) j db.undecided,
  )

  has-keys_below :
      (height : ℕ) (j : ℕ × ℤ) (l : List ((ℕ × ℤ) × t.metadata.Stored))
      → IsAscending l
      → has j (keys_below t height l) ≡ (is_some (find j l) && ltb j.0 height)
  unfolding keys_below find
  has-keys_below height j [] a = refl
  has-keys_below height (i, q) (((h, r), v) ∷ l) a = elim (Bool-cases (ltb h height)) [
    | inl p ↦ ground (arith, p, has-keys_below height (i, q) l a.1)
    | inr p ↦ elim (Bool-cases (ltb i height)) [
      | inr x ↦ ground (arith, p, x)
      | inl x ↦
          let above = Above-trans (i, q) (h, r) l (ground (arith, p, x)) a.0 in
          ground (arith, p, x, find-Above (i, q) l above)
    ]
  ]

  -- The cleaning at the start removes exactly the undecided metadata of the heights below the
  -- current one.
  pub cleanup_stale_blob_metadata_lem :
      (db : MetaDb t) (current_height h : ℕ) (q : ℤ)
      → t.undecided_table.get (h, q) (cleanup_stale_blob_metadata db current_height).undecided
        ≡ (if ltb h current_height then none else t.undecided_table.get (h, q) db.undecided)
  unfolding cleanup_stale_blob_metadata get_all_undecided_blob_metadata_before
  cleanup_stale_blob_metadata_lem db current_height h q =
      let l = t.undecided_table.entries db.undecided in
      ground (
        arith,
        get-delete_entries (keys_below t current_height l) db (h, q),
        has-keys_below current_height (h, q) l (t.undecided_table.entries_ascending db.undecided),
        t.undecided_table.find-entries (h, q) db.undecided,
      )

module _ (t : Tables) (kv : ByteTable) (c : ChainTables) (api : MerkleApi) (signing : Signing)
    (hash_tree_root : BeaconBlockHeader → List ℕ) where
  -- The state with the root of the latest decided metadata; an empty store is seeded.
  unfoldable pub hydrate_blob_parent_root :
      NodeState t kv c → Result StoreError (Unit {0}) × NodeState t kv c
  hydrate_blob_parent_root s = elim (get_latest_blob_metadata t s.node.db) [
    | err e ↦ (err e, s)
    | ok (some (height, m)) ↦ (
      ok tt,
      record s {
        last_blob_sidecar_root = hash_tree_root (to_beacon_header t api signing hash_tree_root m);
        last_blob_sidecar_height = height;
      },
    )
    | ok none ↦ (
      ok tt,
      record s {
        node = record s.node { db = insert_genesis_blob_metadata t s.node.db genesis };
        last_blob_sidecar_root =
            hash_tree_root (to_beacon_header t api signing hash_tree_root genesis);
        last_blob_sidecar_height = 0;
      },
    )
  ]

  latest_lem :
      (db : MetaDb t) (height : ℕ) (m : BlobMetadata)
      → get_latest_blob_metadata t db ≡ ok (some (height, m))
      → get_blob_metadata t db height ≡ ok (some m)
  unfolding get_latest_blob_metadata
  latest_lem db height m e = elim (Option-cases db.latest_height) [
    | inl p ↦ absurd (let q = rw (p, get_latest_blob_metadata) at e in ground (arith, q))
    | inr (h, p) ↦ elim (Result-cases (get_blob_metadata t db h)) [
      | inr (x, f) ↦ absurd (let q = rw (p, f, get_latest_blob_metadata) at e in ground (arith, q))
      | inl (none, f) ↦
          absurd (let q = rw (p, f, get_latest_blob_metadata) at e in ground (arith, q))
      | inl (some n, f) ↦ let q = rw (p, f, get_latest_blob_metadata) at e in ground (arith, q, f)
    ]
  ]

  resolve_lem :
      (db : MetaDb t) (height : ℕ) (m : BlobMetadata)
      → get_blob_metadata t db height ≡ ok (some m)
      → resolve_parent_root_for_height t api signing hash_tree_root db (suc height)
        ≡ ok (hash_tree_root (to_beacon_header t api signing hash_tree_root m))
  unfolding resolve_parent_root_for_height
  resolve_lem db height m e = rw (e, resolve_parent_root_for_height) refl

  get_latest-seeded :
      (db : MetaDb t) (m : BlobMetadata)
      → archival_range t db 0 ≡ []
      → get_latest_blob_metadata t (record db {
        decided = t.decided_table.insert 0 (t.metadata.encode m) db.decided;
        latest_height = some 0;
      })
        ≡ ok (some (0, m))
  unfolding get_latest_blob_metadata get_blob_metadata archival_range hydrate
  get_latest-seeded db m unarchived =
      rw
        (
          get_latest_blob_metadata,
          get_blob_metadata,
          t.decided_table.get-insert 0 0 (t.metadata.encode m) db.decided,
          t.metadata.decode-encode m,
          unarchived,
        )
        refl

  get_latest-insert_genesis :
      (db : MetaDb t) (m : BlobMetadata)
      → t.decided_table.get 0 db.decided ≡ none
      → archival_range t db 0 ≡ []
      → get_latest_blob_metadata t (insert_genesis_blob_metadata t db m) ≡ ok (some (0, m))
  unfolding insert_genesis_blob_metadata
  get_latest-insert_genesis db m free unarchived =
      rw (insert_genesis_blob_metadata, free) (get_latest-seeded db m unarchived)

  abbrev with_root : NodeState t kv c → BlobMetadata → ℕ → NodeState t kv c
  with_root s m height = record s {
    last_blob_sidecar_root = hash_tree_root (to_beacon_header t api signing hash_tree_root m);
    last_blob_sidecar_height = height;
  }

  hydrate_found :
      (s : NodeState t kv c) (height : ℕ) (m : BlobMetadata)
      → get_latest_blob_metadata t s.node.db ≡ ok (some (height, m))
      → hydrate_blob_parent_root s ≡ (ok tt, with_root s m height)
  unfolding hydrate_blob_parent_root
  hydrate_found s height m e = rw (hydrate_blob_parent_root, e) refl

  -- A state with the root of its latest metadata resolves that root at the next height, and
  -- another start changes nothing.
  started :
      (s0 s : NodeState t kv c) (height : ℕ) (m : BlobMetadata)
      → get_latest_blob_metadata t s.node.db ≡ ok (some (height, m))
      → hydrate_blob_parent_root s0 ≡ (ok tt, with_root s m height)
      → ((hydrate_blob_parent_root s0).0 ≡ ok tt)
        × (resolve_parent_root_for_height t api signing hash_tree_root
              (hydrate_blob_parent_root s0).1.node.db
              (suc (hydrate_blob_parent_root s0).1.last_blob_sidecar_height)
            ≡ ok (hydrate_blob_parent_root s0).1.last_blob_sidecar_root)
        × (hydrate_blob_parent_root (hydrate_blob_parent_root s0).1
            ≡ (ok tt, (hydrate_blob_parent_root s0).1))
  started s0 s height m e p = rw p (
    refl,
    resolve_lem s.node.db height m (latest_lem s.node.db height m e),
    hydrate_found (with_root s m height) height m e,
  )

  -- At the start of a node, where a store without latest metadata has neither metadata nor archive
  -- records of height 0, hydrate_blob_parent_root either fails and changes nothing, or succeeds. Then
  -- the root in the state is the one that resolve_parent_root_for_height gives for the height after
  -- the height in the state, and another start succeeds and changes nothing.
  pub hydrate_blob_parent_root_lem :
      (s : NodeState t kv c)
      → (get_latest_blob_metadata t s.node.db ≡ ok none
          → (t.decided_table.get 0 s.node.db.decided ≡ none) × (archival_range t s.node.db 0 ≡ []))
      → ((e : StoreError) × (hydrate_blob_parent_root s ≡ (err e, s)))
        ⊎ (((hydrate_blob_parent_root s).0 ≡ ok tt)
            × (resolve_parent_root_for_height t api signing hash_tree_root
                  (hydrate_blob_parent_root s).1.node.db
                  (suc (hydrate_blob_parent_root s).1.last_blob_sidecar_height)
                ≡ ok (hydrate_blob_parent_root s).1.last_blob_sidecar_root)
            × (hydrate_blob_parent_root (hydrate_blob_parent_root s).1
                ≡ (ok tt, (hydrate_blob_parent_root s).1)))
  unfolding hydrate_blob_parent_root insert_genesis_blob_metadata genesis
  hydrate_blob_parent_root_lem s seedable =
      elim (Result-cases (get_latest_blob_metadata t s.node.db)) [
        | inr (x, e) ↦ inl (x, rw (hydrate_blob_parent_root, e) refl)
        | inl (some (height, m), e) ↦ inr (started s s height m e (hydrate_found s height m e))
        | inl (none, e) ↦ inr (
            started s
              (record s {
                node = record s.node { db = insert_genesis_blob_metadata t s.node.db genesis };
              })
              0 genesis (get_latest-insert_genesis s.node.db genesis (seedable e).0 (seedable e).1)
              (rw (hydrate_blob_parent_root, e) refl))
      ]
