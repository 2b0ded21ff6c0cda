-- ===== src/Commit/Rehydrate.antt =====
-- `rehydrate_pending_prunes` of crates/consensus/src/state.rs: the finalized height and the pending
-- heights that a node builds again when it starts.
use ultramarine.Common.{ℕ, ◌≡◌, ◌∙◌, ap, sym, inl, inr, ◌⊎◌, Bool, Option, none, List, subst}
use ultramarine.Common.Ord.{nat_ord}
use ultramarine.Common.Result.{Result}
use ultramarine.Metastore.{Tables}
use ultramarine.Blob.Store.{ByteTable, BlobCodec}
use ultramarine.Archive.{NoticeApi, NoticeError}
use ultramarine.Archive.Rehydrate.{rehydrate_node, rehydrate_node_lem, NoneFinal, latest_or}
use ultramarine.Chain.{ChainTables, max_decided_value_height}
use ultramarine.Chain.Greatest.{IsGreatest, max_decided_value_height_lem}
use ultramarine.Commit.{NodeState}

module _ (t : Tables) (kv : ByteTable) (codec : BlobCodec) (c : ChainTables) (api : NoticeApi)
    (archiver_enabled : Bool) (address : List ℕ) where
  pub rehydrate_pending_prunes : NodeState t kv c → Result NoticeError (Unit {0}) × NodeState t kv c
  unfolding max_decided_value_height rehydrate_node
  rehydrate_pending_prunes s =
      let r =
        rehydrate_node t kv codec api archiver_enabled address s.node
          (max_decided_value_height c s.chain) in
      (r.0, record s { node = r.1 })

  -- After rehydrate_pending_prunes, whether it fails or not, the latest finalized height is the
  -- greatest height under which a decided value is stored, or the old one where none is, the current
  -- height is the old one, and no height whose pruning is pending is final.
  pub rehydrate_pending_prunes_lem :
      (s : NodeState t kv c)
      → (IsGreatest c
            (λ k. c.values_table.get k s.chain.decided_values)
            (rehydrate_pending_prunes s).1.node.latest_finalized_height
          ⊎ (((rehydrate_pending_prunes s).1.node.latest_finalized_height
                ≡ s.node.latest_finalized_height)
              × ((k : ℕ) → c.values_table.get k s.chain.decided_values ≡ none)))
        × ((rehydrate_pending_prunes s).1.node.current_height ≡ s.node.current_height)
        × NoneFinal t kv codec
            (rehydrate_pending_prunes s).1.node
            (rehydrate_pending_prunes s).1.node.pending_prune_heights
  unfolding rehydrate_pending_prunes
  rehydrate_pending_prunes_lem s =
      let r =
        rehydrate_node_lem t kv codec api archiver_enabled address s.node
          (max_decided_value_height c s.chain) in
      (
        elim (max_decided_value_height_lem c s.chain) [
          | inl (x, e, g) ↦ inl (
              subst (IsGreatest c (λ k. c.values_table.get k s.chain.decided_values))
                (sym (r.0 ∙ ap (λ (o : Option ℕ). latest_or o s.node.latest_finalized_height) e)) g)
          | inr (e, f) ↦
              inr (r.0 ∙ ap (λ (o : Option ℕ). latest_or o s.node.latest_finalized_height) e, f)
        ],
        r.1,
        r.2,
      )
