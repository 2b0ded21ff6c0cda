-- ===== src/Archive/Heights.antt =====
-- The heights of a node under the pruning of archived blobs (crates/consensus/src/state.rs).
use ultramarine.Common.{ℕ, ◌≡◌, ◌∙◌, refl, inl, inr, none, some, List, [], ◌∷◌, arith}
use ultramarine.Common.Result.{ok, Result-cases}
use ultramarine.Types.Metadata.{BlobMetadata}
use ultramarine.Metastore.{Tables, get_blob_metadata}
use ultramarine.Blob.Store.{ByteTable, BlobCodec}
use ultramarine.Archive.{
  Node, prune_archived_height, flush_one, flush_each, flush_pending_prunes, remove_height,
  ready_heights,
}

module _ (t : Tables) (kv : ByteTable) (codec : BlobCodec) where
  abbrev pub SameHeights : Node t kv → Node t kv → Type 0
  SameHeights s s' =
      (s'.current_height ≡ s.current_height)
      × (s'.latest_finalized_height ≡ s.latest_finalized_height)

  pub prune_archived_height-SameHeights :
      (s : Node t kv) (h : ℕ) (m : BlobMetadata)
      → SameHeights s (prune_archived_height t kv codec s h m)
  unfolding prune_archived_height
  prune_archived_height-SameHeights s h m = (ground arith, ground arith)

  flush_one-SameHeights :
      (s : Node t kv) (h : ℕ) (m : BlobMetadata) → SameHeights s (flush_one t kv codec s h m)
  unfolding flush_one
  flush_one-SameHeights s h m =
      let p = prune_archived_height-SameHeights s h m in (ground (arith, p.0), ground (arith, p.1))

  pub flush_each-SameHeights :
      (s : Node t kv) (l : List ℕ) → SameHeights s (flush_each t kv codec s l).1
  unfolding flush_each
  flush_each-SameHeights s [] = (refl, refl)
  flush_each-SameHeights s (h ∷ l) =
      let s' : Node t kv = record s {
        pending_prune_heights = remove_height h s.pending_prune_heights;
      } in
      elim (Result-cases (get_blob_metadata t s.db h)) [
        | inr (e, p) ↦ rw (p, flush_each) (refl, refl)
        | inl (none, p) ↦ rw (p, flush_each) (flush_each-SameHeights s' l)
        | inl (some m, p) ↦
            rw (p, flush_each)
              (let a = flush_one-SameHeights s' h m in
                let b = flush_each-SameHeights (flush_one t kv codec s' h m) l in
                (b.0 ∙ a.0, b.1 ∙ a.1))
      ]

  pub flush_pending_prunes-SameHeights :
      (s : Node t kv) → SameHeights s (flush_pending_prunes t kv codec s).1
  unfolding flush_pending_prunes
  flush_pending_prunes-SameHeights s = flush_each-SameHeights s _

  -- With nothing to prune, nothing is done.
  pub flush_pending_prunes_idle :
      (s : Node t kv)
      → s.pending_prune_heights ≡ []
      → flush_pending_prunes t kv codec s ≡ (ok tt, s)
  unfolding flush_pending_prunes flush_each ready_heights
  flush_pending_prunes_idle s e = rw (e, flush_pending_prunes, ready_heights, flush_each) refl
