-- ===== src/Commit.antt =====
-- The commit of a decided value: `commit` of crates/consensus/src/state.rs, with the clean-up of
-- orphaned rounds. It joins the chain's tables, the metadata store, the blob engine and the archive
-- handling of a node. `merkle_root` of the tree_hash crate and the root of a header are parameters.
pub mod Height
pub mod Decided
pub mod Failure
pub mod Success
pub mod Stale
pub mod Cleanup
pub mod Bounds
pub mod Restart
pub mod Rehydrate
use ultramarine.Common.{
  ℕ, zero, suc, ◌+◌, ◌-◌, ◌≡◌, Bool, true, false, Option, none, some, List, [], ◌∷◌, ◌++◌, ltb, leb,
  ◌==◌, is_some, if◌then◌else◌, max, min, length, replicate,
}
use ultramarine.Common.Int.{ℤ, pos, negsuc, eqℤ, ltℤ}
use ultramarine.Common.Result.{Result, ok, err, ◌>>=◌}
use ultramarine.Types.Round.{Round, num, as_i64}
use ultramarine.Types.Part.{BeaconBlockHeader}
use ultramarine.Types.Validator.{Validator}
use ultramarine.Types.Metadata.{BlobMetadata, zero_hash}
use ultramarine.Metastore.{
  StoreError, Tables, MetaDb, get_blob_metadata, get_blob_metadata_undecided,
  mark_blob_metadata_decided, delete_blob_metadata_undecided,
}
use ultramarine.Blob.Store.{ByteTable, BlobCodec}
use ultramarine.Blob.Engine as Engine
use ultramarine.Archive.{Node, NoticeError, flush_pending_prunes}
use ultramarine.Merkle.{MerkleApi, pad_chunk}
use ultramarine.Proposal.{Signing}
use ultramarine.Sidecar.{to_beacon_header}
use ultramarine.Chain.{
  ChainTables, ChainDb, ProposedValue, CommitCertificate, DecidedValue, BlockPayloadRecord,
  ConsensusBlockMetadata, get_undecided_proposal, get_decided_value, insert_decided_value,
  insert_consensus_block_metadata, get_block_data, get_execution_requests,
  insert_decided_block_data, prune, delete_undecided_proposal, delete_undecided_block_data,
}

pub data CommitError : Type 0 where
  nothing_to_commit not_persisted missing_metadata : CommitError
  store_error : StoreError → CommitError
  prune_error : NoticeError → CommitError

-- The fields of `State` that a commit reads and writes. The rounds of a height are listed in the
-- order in which the hash set gives them.
pub record NodeState (t : Tables) (kv : ByteTable) (c : ChainTables) : Type 0 where
  pub node : Node t kv
  pub chain : ChainDb c
  pub current_round : Round
  pub blob_rounds : List (ℕ × List ℤ)
  pub last_blob_sidecar_root : List ℕ
  pub last_blob_sidecar_height : ℕ
  pub blob_retention_window : ℕ
  pub orphaned_blobs_dropped : ℕ
  pub stale_rounds_cleaned : ℕ

unfoldable pub rounds_of : ℕ → List (ℕ × List ℤ) → List ℤ
rounds_of h [] = []
rounds_of h ((k, r) ∷ l) = let rest = rounds_of h l in if k == h then r else rest

unfoldable pub remove_rounds : ℕ → List (ℕ × List ℤ) → List (ℕ × List ℤ)
remove_rounds h [] = []
remove_rounds h ((k, r) ∷ l) =
    let rest = remove_rounds h l in if k == h then rest else (k, r) ∷ rest

pub padded_addresses : List Validator → List ℕ
padded_addresses [] = []
padded_addresses (v ∷ l) = pad_chunk v.address ++ padded_addresses l

-- The height that the store is pruned to: the retention window below the certificate, but not above
-- the first height that waits for its archival.
unfoldable pub retain_height : ℕ → ℕ → List ℕ → ℕ
retain_height height window [] = height - (max window 1 - 1)
retain_height height window (p ∷ l) =
    let floor = height - (max window 1 - 1) in if ltb p floor then p else floor

module _ (t : Tables) (kv : ByteTable) (codec : BlobCodec) (c : ChainTables) (api : MerkleApi)
    (signing : Signing) (hash_tree_root : BeaconBlockHeader → List ℕ)
    (merkle_root : List ℕ → ℕ → List ℕ) where
  pub validator_set_hash : List Validator → List ℕ
  unfolding padded_addresses
  validator_set_hash [] = zero_hash
  validator_set_hash (v ∷ l) = merkle_root (padded_addresses (v ∷ l)) (length (v ∷ l))

  pub consensus_metadata :
      List Validator → CommitCertificate → ProposedValue → ConsensusBlockMetadata
  consensus_metadata validators cert p = record {
    height = cert.height;
    round = cert.round;
    proposer = p.proposer;
    timestamp = p.value.metadata.execution_payload_header.timestamp;
    validator_set_hash = validator_set_hash validators;
    execution_block_hash = p.value.metadata.execution_payload_header.block_hash;
    gas_limit = p.value.metadata.execution_payload_header.gas_limit;
    gas_used = p.value.metadata.execution_payload_header.gas_used;
  }

  abbrev pub set_parent_root : ℕ → BlobMetadata → NodeState t kv c → NodeState t kv c
  set_parent_root height m s = record s {
    last_blob_sidecar_root = hash_tree_root (to_beacon_header t api signing hash_tree_root m);
    last_blob_sidecar_height = height;
  }

  abbrev pub set_db : MetaDb t → NodeState t kv c → NodeState t kv c
  set_db db s = record s { node = record s.node { db = db } }

  -- The number of blobs of an undecided round; an error counts as none.
  pub undecided_count : MetaDb t → ℕ → ℤ → ℕ
  undecided_count db height round = elim (get_blob_metadata_undecided t db height round) [
    | err e ↦ 0
    | ok none ↦ 0
    | ok (some m) ↦ m.blob_count
  ]

  -- One round of the loop over orphaned rounds: a negative round is skipped.
  unfoldable pub drop_orphan : ℕ → ℤ → NodeState t kv c → ℤ → NodeState t kv c
  unfolding undecided_count
  drop_orphan height decided s (negsuc n) = s
  drop_orphan height decided s (pos n) = if eqℤ (pos n) decided then s else record s {
    node = record s.node {
      db = delete_blob_metadata_undecided t s.node.db height (pos n);
      engine = Engine.drop_round kv codec s.node.engine height (pos n);
    };
    orphaned_blobs_dropped = s.orphaned_blobs_dropped + undecided_count s.node.db height (pos n);
  }

  unfoldable pub drop_orphans : ℕ → ℤ → List ℤ → NodeState t kv c → NodeState t kv c
  unfolding drop_orphan
  drop_orphans height decided [] s = s
  drop_orphans height decided (r ∷ l) s =
      drop_orphans height decided l (drop_orphan height decided s r)

  -- The block data of the decided round.
  unfoldable pub decide_block_data : ChainDb c → CommitCertificate → ChainDb c
  decide_block_data db cert = elim (get_block_data c db cert.height cert.round) [
    | none ↦ db
    | some bytes ↦ elim (get_execution_requests c db cert.height cert.round) [
      | none ↦ db
      | some requests ↦
          insert_decided_block_data c db cert.height
            (record { execution_payload_ssz = bytes; execution_requests = requests })
    ]
  ]

  -- The end of a first commit, once the metadata are decided.
  unfoldable pub settle : NodeState t kv c → CommitCertificate → BlobMetadata → NodeState t kv c
  unfolding decide_block_data drop_orphans
  settle s cert m =
      let s1 = set_parent_root cert.height m s in
      let chain =
        prune c (decide_block_data s1.chain cert)
          (retain_height cert.height s1.blob_retention_window s1.node.pending_archive_heights) in
      let s2 =
        drop_orphans cert.height (as_i64 cert.round) (rounds_of cert.height s1.blob_rounds)
          (record s1 { chain = chain }) in
      record s2 { blob_rounds = remove_rounds cert.height s2.blob_rounds }

  unfoldable pub after_promotion :
      NodeState t kv c
      → CommitCertificate
      → Result StoreError (Unit {0})
      → Result CommitError (Unit {0}) × NodeState t kv c
  unfolding settle
  after_promotion s cert (err e) = (err (store_error e), s)
  after_promotion s cert (ok _) = elim (get_blob_metadata t s.node.db cert.height) [
    | err e ↦ (err (store_error e), s)
    | ok none ↦ (err missing_metadata, s)
    | ok (some m) ↦ (ok tt, settle s cert m)
  ]

  -- A first commit once the value and the consensus metadata are stored.
  unfoldable pub promote :
      NodeState t kv c → CommitCertificate → Result CommitError (Unit {0}) × NodeState t kv c
  unfolding after_promotion
  promote s cert =
      let promoted = mark_blob_metadata_decided t s.node.db cert.height (as_i64 cert.round) in
      after_promotion (set_db promoted.1 s) cert promoted.0

  -- A first commit once the value is stored.
  unfoldable pub after_value :
      NodeState t kv c
      → CommitCertificate
      → ProposedValue
      → Result CommitError (Unit {0}) × NodeState t kv c
  unfolding promote consensus_metadata
  after_value s cert p =
      if is_some (get_decided_value c s.chain cert.height)
      then elim (insert_consensus_block_metadata c s.chain cert.height
          (consensus_metadata s.node.validators cert p)) [
            | err e ↦ (err (store_error e), s)
            | ok chain ↦ promote (record s { chain = chain }) cert
          ]
      else (err not_persisted, s)

  -- The first commit of a proposal.
  unfoldable pub persist :
      NodeState t kv c
      → CommitCertificate
      → ProposedValue
      → Result CommitError (Unit {0}) × NodeState t kv c
  unfolding after_value
  persist s cert p =
      elim (insert_decided_value c s.chain (record { value = p.value; certificate = cert })) [
        | err e ↦ (err (store_error e), s)
        | ok chain ↦ after_value (record s { chain = chain }) cert p
      ]

  -- The metadata that a replay finds, promoted when they are still undecided; errors are logged.
  unfoldable pub replay_metadata : MetaDb t → CommitCertificate → Option BlobMetadata × MetaDb t
  replay_metadata db cert = elim (get_blob_metadata t db cert.height) [
    | err e ↦ (none, db)
    | ok (some m) ↦ (some m, db)
    | ok none ↦ elim (get_blob_metadata_undecided t db cert.height (as_i64 cert.round)) [
      | err e ↦ (none, db)
      | ok none ↦ (none, db)
      | ok (some m) ↦ (some m, (mark_blob_metadata_decided t db cert.height (as_i64 cert.round)).1)
    ]
  ]

  abbrev pub with_metadata : NodeState t kv c → ℕ → Option BlobMetadata → NodeState t kv c
  with_metadata s height none = s
  with_metadata s height (some m) = set_parent_root height m s

  -- The replay of a value that is already decided; errors are logged.
  unfoldable pub replay : NodeState t kv c → CommitCertificate → NodeState t kv c
  unfolding replay_metadata
  replay s cert =
      let engine = (Engine.mark_decided kv codec s.node.engine cert.height (as_i64 cert.round)).1 in
      let found = replay_metadata s.node.db cert in
      with_metadata (record s { node = record s.node { engine = engine; db = found.1 } })
        cert.height found.0

  -- The end of every commit.
  unfoldable pub advance :
      NodeState t kv c → CommitCertificate → Result CommitError (Unit {0}) × NodeState t kv c
  advance s cert =
      let node = record s.node {
        latest_finalized_height = max s.node.latest_finalized_height cert.height;
      } in
      let flushed = flush_pending_prunes t kv codec node in
      elim flushed.0 [
        | err e ↦ (err (prune_error e), record s { node = flushed.1 })
        | ok _ ↦ (
          ok tt,
          record s {
            node = record flushed.1 {
              current_height = max flushed.1.current_height (cert.height + 1);
            };
            current_round = num 0;
          },
        )
      ]

  abbrev pub advance_ok :
      Result CommitError (Unit {0}) × NodeState t kv c
      → CommitCertificate
      → Result CommitError (Unit {0}) × NodeState t kv c
  advance_ok (err e, s) cert = (err e, s)
  advance_ok (ok _, s) cert = advance s cert

  unfoldable pub commit :
      NodeState t kv c → CommitCertificate → Result CommitError (Unit {0}) × NodeState t kv c
  unfolding persist replay advance
  commit s cert = elim (get_undecided_proposal c s.chain cert.height cert.round) [
    | err e ↦ (err (store_error e), s)
    | ok (some p) ↦ advance_ok (persist s cert p) cert
    | ok none ↦ elim (get_decided_value c s.chain cert.height) [
      | none ↦ (err nothing_to_commit, s)
      | some d ↦ advance (replay s cert) cert
    ]
  ]
