-- ===== src/Commit/Success.antt =====
-- When a commit ends well (`commit` of crates/consensus/src/state.rs).
use ultramarine.Common.{
  ℕ, ◌<◌, ◌^◌, false, arith, ◌≡◌, ◌∙◌, refl, ap, true, some, List, [], max, is_some, ==_iff,
}
use ultramarine.Common.Result.{ok}
use ultramarine.Types.Round.{as_i64, num}
use ultramarine.Types.Part.{BeaconBlockHeader}
use ultramarine.Types.Metadata.{BlobMetadata}
use ultramarine.Metastore.{
  Tables, MetaDb, hydrate, archival_range, get_blob_metadata, mark_blob_metadata_decided,
}
use ultramarine.Common.Int.{ℤ}
use ultramarine.Common.Ord.{nat_ord, int_ord, pair_ord}
use ultramarine.Blob.Store.{ByteTable, BlobCodec}
use ultramarine.Archive.Heights.{flush_pending_prunes_idle}
use ultramarine.Merkle.{MerkleApi}
use ultramarine.Proposal.{Signing}
use ultramarine.Chain.{
  ChainTables, CommitCertificate, ProposedValue, DecidedValue, get_decided_value,
  get_undecided_proposal, is_nil, fits_i32,
}
use ultramarine.Chain.Reads.{
  get_decided_value-insert_decided_value, insert_decided_value_fine,
  insert_consensus_block_metadata_fine,
}
use ultramarine.Commit.{
  NodeState, settle, promote, after_value, after_promotion, persist, advance, commit, set_db,
  consensus_metadata,
}
use ultramarine.Commit.Height.{settle-Keeps}

module _ (t : Tables) where
  abbrev promoted_db : MetaDb t → ℕ → ℤ → BlobMetadata → MetaDb t
  promoted_db db height round m = record db {
    decided = t.decided_table.insert height (t.metadata.encode m) db.decided;
    latest_height = some height;
    undecided = t.undecided_table.remove (height, round) db.undecided;
  }

  promoted_lem :
      (db : MetaDb t) (height : ℕ) (round : ℤ) (m : BlobMetadata)
      → t.undecided_table.get (height, round) db.undecided ≡ some (t.metadata.encode m)
      → mark_blob_metadata_decided t db height round ≡ (ok tt, promoted_db db height round m)
  unfolding mark_blob_metadata_decided
  promoted_lem db height round m e = rw (e, mark_blob_metadata_decided) refl

  -- Promoted metadata are read, if the height has no archive record yet.
  get-promoted_db :
      (db : MetaDb t) (height : ℕ) (round : ℤ) (m : BlobMetadata)
      → archival_range t db height ≡ []
      → get_blob_metadata t (promoted_db db height round m) height ≡ ok (some m)
  unfolding get_blob_metadata hydrate archival_range
  get-promoted_db db height round m n =
      let g = t.decided_table.get-insert height height (t.metadata.encode m) db.decided in
      let z = (==_iff height height).1 refl in
      let g' = rw z at g in rw (g', t.metadata.decode-encode m, n, get_blob_metadata) refl

module _ (t : Tables) (kv : ByteTable) (codec : BlobCodec) (c : ChainTables) (api : MerkleApi)
    (signing : Signing) (hash_tree_root : BeaconBlockHeader → List ℕ)
    (merkle_root : List ℕ → ℕ → List ℕ) where
  after_promotion_fine :
      (s : NodeState t kv c) (cert : CommitCertificate) (m : BlobMetadata)
      → get_blob_metadata t s.node.db cert.height ≡ ok (some m)
      → after_promotion t kv codec c api signing hash_tree_root merkle_root s cert (ok tt)
        ≡ (ok tt, settle t kv codec c api signing hash_tree_root merkle_root s cert m)
  unfolding after_promotion
  after_promotion_fine s cert m e = rw (e, after_promotion) refl

  after_value_fine :
      (s : NodeState t kv c) (cert : CommitCertificate) (p : ProposedValue) (m : BlobMetadata)
      → fits_i32 cert.round ≡ true
      → is_some (get_decided_value c s.chain cert.height) ≡ true
      → t.undecided_table.get (cert.height, as_i64 cert.round) s.node.db.undecided
        ≡ some (t.metadata.encode m)
      → archival_range t s.node.db cert.height ≡ []
      → (s0 : NodeState t kv c) × (after_value t kv codec c api signing hash_tree_root merkle_root s
            cert p
          ≡ (ok tt, settle t kv codec c api signing hash_tree_root merkle_root s0 cert m))
        × (s0.node.pending_prune_heights ≡ s.node.pending_prune_heights)
  unfolding after_value promote
  after_value_fine s cert p m fits x e n =
      let meta =
        consensus_metadata t kv codec c api signing hash_tree_root merkle_root s.node.validators
          cert p in
      let (chain, f) = insert_consensus_block_metadata_fine c s.chain cert.height meta fits in
      let r = as_i64 cert.round in
      let s0 : NodeState t kv c =
        set_db t kv codec c api signing hash_tree_root merkle_root
          (promoted_db t s.node.db cert.height r m) (record s { chain = chain }) in
      (
        s0,
        rw (x, f, promoted_lem t s.node.db cert.height r m e, after_value)
            (after_promotion_fine s0 cert m (get-promoted_db t s.node.db cert.height r m n)),
        refl,
      )

  persist_fine :
      (s : NodeState t kv c) (cert : CommitCertificate) (p : ProposedValue) (m : BlobMetadata)
      → is_nil cert.round ≡ false
      → fits_i32 cert.round ≡ true
      → t.undecided_table.get (cert.height, as_i64 cert.round) s.node.db.undecided
        ≡ some (t.metadata.encode m)
      → archival_range t s.node.db cert.height ≡ []
      → (s0 : NodeState t kv c) × (persist t kv codec c api signing hash_tree_root merkle_root s
            cert p
          ≡ (ok tt, settle t kv codec c api signing hash_tree_root merkle_root s0 cert m))
        × (s0.node.pending_prune_heights ≡ s.node.pending_prune_heights)
  unfolding persist
  persist_fine s cert p m some_round fits e n =
      let d : DecidedValue = record { value = p.value; certificate = cert } in
      let (chain, f) = insert_decided_value_fine c s.chain d some_round in
      let z = (==_iff cert.height cert.height).1 refl in
      let x : is_some (get_decided_value c chain cert.height) ≡ true =
        ap is_some
          (rw z at (get_decided_value-insert_decided_value c s.chain chain d f cert.height)) in
      let (s0, g, same) = after_value_fine (record s { chain = chain }) cert p m fits x e n in
      (s0, rw (f, persist) g, same)

  advance_fine :
      (s : NodeState t kv c) (cert : CommitCertificate)
      → s.node.pending_prune_heights ≡ []
      → (advance t kv codec c api signing hash_tree_root merkle_root s cert).0 ≡ ok tt
  unfolding advance
  advance_fine s cert e =
      rw
        (
          flush_pending_prunes_idle t kv codec
              (record s.node {
                latest_finalized_height = max s.node.latest_finalized_height cert.height;
              })
              e,
          advance,
        )
        refl

  -- A commit of a height and round whose proposal and blob metadata are stored undecided ends well,
  -- if the round is not nil and below 2 ^ 31, the height has no archive record yet and no height
  -- waits to be pruned.
  pub commit_fine :
      (s : NodeState t kv c) (cert : CommitCertificate) (p : ProposedValue) (m : BlobMetadata)
      (r : ℕ)
      → cert.round ≡ num r
      → r < 2 ^ 31
      → get_undecided_proposal c s.chain cert.height cert.round ≡ ok (some p)
      → t.undecided_table.get (cert.height, as_i64 cert.round) s.node.db.undecided
        ≡ some (t.metadata.encode m)
      → archival_range t s.node.db cert.height ≡ []
      → s.node.pending_prune_heights ≡ []
      → (commit t kv codec c api signing hash_tree_root merkle_root s cert).0 ≡ ok tt
  unfolding commit
  commit_fine s cert p m r number low found e n idle =
      let is_number : is_nil cert.round ≡ false = rw number refl in
      let fits : fits_i32 cert.round ≡ true = rw number (ground (arith, low)) in
      let (s0, f, same) = persist_fine s cert p m is_number fits e n in
      let k = settle-Keeps t kv codec c api signing hash_tree_root merkle_root s0 cert m in
      rw (found, f, commit)
        (advance_fine (settle t kv codec c api signing hash_tree_root merkle_root s0 cert m) cert
          (k.0.2 ∙ same ∙ idle))
