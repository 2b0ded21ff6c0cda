-- ===== src/Tests/Commits.antt =====
-- Tests of the commit, of pruning and of the clean-up of stale rounds (state.rs and store.rs of
-- crates/consensus/src).
use ultramarine.Common.{
  ℕ, ◌+◌, ◌-◌, ◌≤◌, ◌<◌, ◌≡◌, ◌⊎◌, suc, refl, ap, true, false, ◌&&◌, none, some, [], ◌∷◌, List,
  ◌==◌, arith, max, is_some, if◌then◌else◌,
}
use ultramarine.Common.Int.{ℤ, pos, negsuc}
use ultramarine.Common.Ord.{nat_ord, int_ord, pair_ord, pair_lt}
use ultramarine.Common.Kv.{list_kv}
use ultramarine.Common.Kv.Sorted.{find, insert_sorted, select}
use ultramarine.Common.Result.{Result, ok, err}
use ultramarine.Types.Round.{num}
use ultramarine.Types.Part.{BeaconBlockHeader}
use ultramarine.Metastore.{StoreError, insert_blob_metadata_undecided, archival_range, MetaDb}
use ultramarine.Chain.{
  ChainTables, ChainDb, Value, ProposedValue, CommitCertificate, BlockPayloadRecord,
  ConsensusBlockMetadata, insert_undecided_proposal, get_undecided_proposal, get_decided_value,
  zip_decided, prune,
}
use ultramarine.Chain.Prune.{prune_lem, has}
use ultramarine.Commit.{NodeState, commit, CommitError, nothing_to_commit, retain_height, rounds_of}
use ultramarine.Commit.Decided.{committed, commit-ok}
use ultramarine.Commit.Failure.{Unmoved, commit-err}
use ultramarine.Commit.Success.{commit_fine}
use ultramarine.Commit.Stale.{cleanup_stale_round_blobs, not_negative, Cleaned}
use ultramarine.Commit.Bounds.{NotAbove, retain_height_bounds}
use ultramarine.Commit.Restart.{hydrate_blob_parent_root, hydrate_blob_parent_root_lem}
use ultramarine.Sidecar.{resolve_parent_root_for_height}
use ultramarine.Common.{not}
use ultramarine.Blob.Key.{IsKey}
use ultramarine.Blob.Metrics.{zeros}
use ultramarine.Blob.Store.View.{undecided_at}
use ultramarine.Commit.Cleanup.{cleanup_stale_round_blobs_lem, is_stale}
use ultramarine.Commit.Rehydrate.{rehydrate_pending_prunes, rehydrate_pending_prunes_lem}
use ultramarine.Archive.Rehydrate.{NoneFinal}
use ultramarine.Chain.Greatest.{IsGreatest}
use ultramarine.Tests.Archiving.{api}
use ultramarine.Tests.Blobs.{db, db-IsStore}
use ultramarine.Tests.Data.{tables, test_codec, test_signing}
use ultramarine.Tests.Archiving.{id_codec, meta_tables, meta, empty_meta, node}
use ultramarine.Tests.Inclusion.{toy_api}

abbrev chain_tables : ChainTables
chain_tables = record {
  values = id_codec Value;
  certificates = id_codec CommitCertificate;
  proposals = id_codec ProposedValue;
  consensus = id_codec ConsensusBlockMetadata;
  payloads = record {
    Stored = BlockPayloadRecord;
    bytes = λ r. r.execution_payload_ssz;
    encode = λ r. r;
    decode_proto = λ r. some r;
    decode_proto-encode = λ r. refl;
  };
  eq_consensus = λ a b. false;
  eq_consensus_iff = λ a b e. absurd (ground (arith, e));
  values_table = list_kv ℕ Value;
  certificates_table = list_kv ℕ CommitCertificate;
  proposals_table = list_kv (ℕ × ℤ) ProposedValue;
  decided_data_table = list_kv ℕ BlockPayloadRecord;
  undecided_data_table = list_kv (ℕ × ℤ) BlockPayloadRecord;
  consensus_table = list_kv ℕ ConsensusBlockMetadata;
}

abbrev empty_chain : ChainDb chain_tables
empty_chain = record {
  decided_values = chain_tables.values_table.empty;
  certificates = chain_tables.certificates_table.empty;
  undecided_proposals = chain_tables.proposals_table.empty;
  decided_block_data = chain_tables.decided_data_table.empty;
  undecided_block_data = chain_tables.undecided_data_table.empty;
  consensus_metadata = chain_tables.consensus_table.empty;
}

abbrev proposal : ProposedValue
proposal = record {
  height = 5;
  round = num 0;
  proposer = 1 ∷ [];
  value = record {
    value = 77;
    metadata = record {
      execution_payload_header = meta.execution_payload_header;
      blob_kzg_commitments = meta.blob_kzg_commitments;
    };
  };
}

abbrev proposed_chain : ChainDb chain_tables
proposed_chain = insert_undecided_proposal chain_tables empty_chain proposal

abbrev proposed_meta : MetaDb meta_tables
proposed_meta = insert_blob_metadata_undecided meta_tables empty_meta 5 (pos 0) meta

abbrev node_state : NodeState meta_tables tables chain_tables
node_state = record {
  node = record node { db = proposed_meta };
  chain = proposed_chain;
  current_round = num 5;
  blob_rounds = (5, pos 0 ∷ pos 4 ∷ []) ∷ [];
  last_blob_sidecar_root = [];
  last_blob_sidecar_height = 4;
  blob_retention_window = 10;
  orphaned_blobs_dropped = 0;
  stale_rounds_cleaned = 0;
}

abbrev certificate : CommitCertificate
certificate = record { height = 5; round = num 0; votes = [] }

abbrev root_of : BeaconBlockHeader → List ℕ
root_of h = h.body_root

abbrev run_commit :
    NodeState meta_tables tables chain_tables
    → CommitCertificate
    → Result CommitError (Unit {0}) × NodeState meta_tables tables chain_tables
run_commit s cert =
    commit meta_tables tables test_codec chain_tables toy_api test_signing root_of (λ l n. l) s cert

found_proposal : get_undecided_proposal chain_tables proposed_chain 5 (num 0) ≡ ok (some proposal)
unfolding get_undecided_proposal insert_undecided_proposal find insert_sorted
found_proposal = refl

found_meta : meta_tables.undecided_table.get (5, pos 0) proposed_meta.undecided ≡ some meta
unfolding insert_blob_metadata_undecided find insert_sorted
found_meta = refl

no_records : archival_range meta_tables proposed_meta 5 ≡ []
unfolding insert_blob_metadata_undecided archival_range select find
no_records = refl

commit_fine_example : (run_commit node_state certificate).0 ≡ ok tt
commit_fine_example =
    commit_fine meta_tables tables test_codec chain_tables toy_api test_signing root_of (λ l n. l)
      node_state certificate proposal meta 0 refl (omega arith) found_proposal found_meta no_records
      refl

fine_commit : (run_commit node_state certificate).0 ≡ ok tt
fine_commit =
    commit_fine meta_tables tables test_codec chain_tables toy_api test_signing root_of (λ l n. l)
      node_state certificate proposal meta 0 refl (omega arith) found_proposal found_meta no_records
      refl

abbrev committed_state : NodeState meta_tables tables chain_tables
committed_state = (run_commit node_state certificate).1

commit-ok_example :
    (committed_state.node.current_height ≡ max 6 (5 + 1))
    × (committed_state.node.latest_finalized_height ≡ max 0 5)
    × (committed_state.current_round ≡ num 0)
    × ((h : ℕ)
        → get_decided_value chain_tables committed_state.chain h
          ≡ committed meta_tables tables test_codec chain_tables toy_api test_signing root_of
              (λ l n. l)
              node_state
              certificate
              h)
    × (is_some (get_decided_value chain_tables committed_state.chain 5) ≡ true)
commit-ok_example =
    commit-ok meta_tables tables test_codec chain_tables toy_api test_signing root_of (λ l n. l)
      node_state committed_state certificate (ap (λ x. (x, committed_state)) fine_commit)

-- A certificate of a height that is not known.
abbrev unknown_certificate : CommitCertificate
unknown_certificate = record { height = 8; round = num 1; votes = [] }

refused : run_commit node_state unknown_certificate ≡ (err nothing_to_commit, node_state)
unfolding commit get_undecided_proposal insert_undecided_proposal get_decided_value zip_decided find
    insert_sorted
refused = refl

commit-err_example :
    Unmoved meta_tables tables test_codec chain_tables toy_api test_signing root_of
      (λ l n. l)
      node_state
      node_state
      unknown_certificate
      nothing_to_commit
commit-err_example =
    commit-err meta_tables tables test_codec chain_tables toy_api test_signing root_of (λ l n. l)
      node_state node_state unknown_certificate nothing_to_commit refused

-- A blob of a round that is stale at round 5.
abbrev blob_state : NodeState meta_tables tables chain_tables
blob_state = record node_state {
  node = record node_state.node { engine = record { store = db; metrics = zeros } };
}

abbrev cleaned_state : NodeState meta_tables tables chain_tables
cleaned_state =
    (cleanup_stale_round_blobs meta_tables tables test_codec chain_tables blob_state 5 (num 5)).1

cleanup_stale_round_blobs_example :
    Cleaned meta_tables tables test_codec chain_tables blob_state cleaned_state 5
      (pos 0)
      (5 == 5 && (has (pos 0) (rounds_of 5 blob_state.blob_rounds) && is_stale (num 5) (pos 0)))
    × ((i : ℕ)
        → IsKey (record { height = 5; round = pos 0; index = i })
        → undecided_at tables cleaned_state.node.engine.store 5 (pos 0) i ≡ (
            if 5 == 5
              && (has (pos 0) (rounds_of 5 blob_state.blob_rounds) && is_stale (num 5) (pos 0))
            then none
            else undecided_at tables blob_state.node.engine.store 5 (pos 0) i))
    × (not_negative (pos 0) ≡ true
        → has (pos 0) (rounds_of 5 cleaned_state.blob_rounds) ≡ (
            has (pos 0) (rounds_of 5 blob_state.blob_rounds)
            && not (5 == 5 && is_stale (num 5) (pos 0))))
cleanup_stale_round_blobs_example =
    cleanup_stale_round_blobs_lem meta_tables tables test_codec chain_tables blob_state 5 (num 5) 5
      (pos 0) db-IsStore (omega arith) (omega arith)

prune_example :
    (chain_tables.proposals_table.get
        (5, pos 0)
        (prune chain_tables proposed_chain 6).undecided_proposals
      ≡ (if pair_lt nat_ord int_ord (5, pos 0) (6, negsuc 0)
          then none
          else chain_tables.proposals_table.get (5, pos 0) proposed_chain.undecided_proposals))
    × (chain_tables.undecided_data_table.get
          (5, pos 0)
          (prune chain_tables proposed_chain 6).undecided_block_data
        ≡ (if pair_lt nat_ord int_ord (5, pos 0) (6, negsuc 0)
            then none
            else chain_tables.undecided_data_table.get
                (5, pos 0)
                proposed_chain.undecided_block_data))
    × (get_decided_value chain_tables (prune chain_tables proposed_chain 6) 5
        ≡ get_decided_value chain_tables proposed_chain 5)
prune_example = prune_lem chain_tables proposed_chain 6 5 (pos 0)

retain_height_bounds_example :
    (retain_height 20 8 (9 ∷ 15 ∷ []) ≤ 20)
    × NotAbove (retain_height 20 8 (9 ∷ 15 ∷ [])) (9 ∷ 15 ∷ [])
    × (◌≡◌ {A = List ℕ} (9 ∷ 15 ∷ []) [] → 20 < retain_height 20 8 (9 ∷ 15 ∷ []) + max 8 1)
    × (retain_height 20 8 (9 ∷ 15 ∷ []) ≤ 20 - (max 8 1 - 1))
retain_height_bounds_example = retain_height_bounds 20 8 (9 ∷ 15 ∷ []) (omega arith)

abbrev hydrated : Result StoreError (Unit {0}) × NodeState meta_tables tables chain_tables
hydrated =
    hydrate_blob_parent_root meta_tables tables chain_tables toy_api test_signing root_of node_state

no_genesis : meta_tables.decided_table.get 0 proposed_meta.decided ≡ none
unfolding insert_blob_metadata_undecided find
no_genesis = refl

no_genesis_records : archival_range meta_tables proposed_meta 0 ≡ []
unfolding insert_blob_metadata_undecided archival_range select find
no_genesis_records = refl

hydrate_blob_parent_root_example :
    ((e : StoreError) × (hydrated ≡ (err e, node_state)))
    ⊎ ((hydrated.0 ≡ ok tt)
        × (resolve_parent_root_for_height meta_tables toy_api test_signing root_of
              hydrated.1.node.db
              (suc hydrated.1.last_blob_sidecar_height)
            ≡ ok hydrated.1.last_blob_sidecar_root)
        × (hydrate_blob_parent_root meta_tables tables chain_tables toy_api test_signing root_of
              hydrated.1
            ≡ (ok tt, hydrated.1)))
hydrate_blob_parent_root_example =
    hydrate_blob_parent_root_lem meta_tables tables chain_tables toy_api test_signing root_of
      node_state (λ e. (no_genesis, no_genesis_records))

-- A node that starts with a decided height.
rehydrate_pending_prunes_example :
    (IsGreatest chain_tables
        (λ k. chain_tables.values_table.get k committed_state.chain.decided_values)
        (rehydrate_pending_prunes meta_tables tables test_codec chain_tables api true
          (1 ∷ [])
          committed_state).1.node.latest_finalized_height
      ⊎ (((rehydrate_pending_prunes meta_tables tables test_codec chain_tables api true
              (1 ∷ [])
              committed_state).1.node.latest_finalized_height
            ≡ committed_state.node.latest_finalized_height)
          × ((k : ℕ)
              → chain_tables.values_table.get k committed_state.chain.decided_values ≡ none)))
    × ((rehydrate_pending_prunes meta_tables tables test_codec chain_tables api true
          (1 ∷ [])
          committed_state).1.node.current_height
        ≡ committed_state.node.current_height)
    × NoneFinal meta_tables tables test_codec
        (rehydrate_pending_prunes meta_tables tables test_codec chain_tables api true
          (1 ∷ [])
          committed_state).1.node
        (rehydrate_pending_prunes meta_tables tables test_codec chain_tables api true
          (1 ∷ [])
          committed_state).1.node.pending_prune_heights
rehydrate_pending_prunes_example =
    rehydrate_pending_prunes_lem meta_tables tables test_codec chain_tables api true (1 ∷ [])
      committed_state
