-- ===== src/Commit/Height.antt =====
-- What the steps of a commit leave alone (crates/consensus/src/state.rs).
use ultramarine.Common.{
  ℕ, ◌≡◌, ◌∙◌, refl, ap, sym, inl, inr, Bool, true, false, List, [], ◌∷◌, arith, max, ◌+◌,
  Bool-cases, Option-cases,
}
use ultramarine.Common.Int.{ℤ, pos, negsuc, eqℤ}
use ultramarine.Common.Result.{Result, ok, err, Result-cases}
use ultramarine.Types.Round.{num, as_i64}
use ultramarine.Types.Part.{BeaconBlockHeader}
use ultramarine.Types.Metadata.{BlobMetadata}
use ultramarine.Metastore.{Tables}
use ultramarine.Blob.Store.{ByteTable, BlobCodec}
use ultramarine.Archive.{Node, flush_pending_prunes}
use ultramarine.Archive.Heights.{flush_pending_prunes-SameHeights}
use ultramarine.Merkle.{MerkleApi}
use ultramarine.Proposal.{Signing}
use ultramarine.Chain.{
  ChainTables, ChainDb, CommitCertificate, get_decided_value, get_block_data,
  get_execution_requests,
}
use ultramarine.Chain.Reads.{get_decided_value-insert_decided_block_data, get_decided_value-prune}
use ultramarine.Commit.{
  NodeState, drop_orphan, drop_orphans, decide_block_data, settle, retain_height, rounds_of,
  advance, CommitError, nothing_to_commit, not_persisted, missing_metadata, store_error,
  prune_error,
}

-- The error of the pruning at the end of a commit, as against those of the steps before.
abbrev pub is_prune_error : CommitError → Bool
is_prune_error nothing_to_commit = false
is_prune_error not_persisted = false
is_prune_error missing_metadata = false
is_prune_error (store_error e) = false
is_prune_error (prune_error e) = true

pub err-injective :
    {A : Type 0} {x y : CommitError} → ◌≡◌ {A = Result CommitError A} (err x) (err y) → x ≡ y
err-injective e = ground (arith, e)

module _ (t : Tables) (kv : ByteTable) (codec : BlobCodec) (c : ChainTables) (api : MerkleApi)
    (signing : Signing) (hash_tree_root : BeaconBlockHeader → List ℕ)
    (merkle_root : List ℕ → ℕ → List ℕ) where
  abbrev pub Keeps : NodeState t kv c → NodeState t kv c → Type 0
  Keeps s s' =
      (s'.node.current_height ≡ s.node.current_height)
      × (s'.node.latest_finalized_height ≡ s.node.latest_finalized_height)
      × (s'.node.pending_prune_heights ≡ s.node.pending_prune_heights)
      × (s'.current_round ≡ s.current_round)

  drop_orphan-Keeps :
      (height : ℕ) (decided : ℤ) (s : NodeState t kv c) (r : ℤ)
      → Keeps s (drop_orphan t kv codec c api signing hash_tree_root merkle_root height decided s r)
        × ((drop_orphan t kv codec c api signing hash_tree_root merkle_root height decided s
              r).chain
            ≡ s.chain)
  unfolding drop_orphan
  drop_orphan-Keeps height decided s (negsuc n) = ((refl, refl, refl, refl), refl)
  drop_orphan-Keeps height decided s (pos n) = elim (Bool-cases (eqℤ (pos n) decided)) [
    | inl p ↦ rw p ((refl, refl, refl, refl), refl)
    | inr p ↦ rw p ((refl, refl, refl, refl), refl)
  ]

  pub drop_orphans-Keeps :
      (height : ℕ) (decided : ℤ) (l : List ℤ) (s : NodeState t kv c)
      → Keeps s
          (drop_orphans t kv codec c api signing hash_tree_root merkle_root height decided l s)
        × ((drop_orphans t kv codec c api signing hash_tree_root merkle_root height decided l
              s).chain
            ≡ s.chain)
  unfolding drop_orphans
  drop_orphans-Keeps height decided [] s = ((refl, refl, refl, refl), refl)
  drop_orphans-Keeps height decided (r ∷ l) s =
      let (a, b) = drop_orphan-Keeps height decided s r in
      let (x, y) =
        drop_orphans-Keeps height decided l
          (drop_orphan t kv codec c api signing hash_tree_root merkle_root height decided s r) in
      ((x.0 ∙ a.0, x.1 ∙ a.1, x.2 ∙ a.2, x.3 ∙ a.3), y ∙ b)

  pub get_decided_value-decide_block_data :
      (db : ChainDb c) (cert : CommitCertificate) (h : ℕ)
      → get_decided_value c
          (decide_block_data t kv codec c api signing hash_tree_root merkle_root db cert)
          h
        ≡ get_decided_value c db h
  unfolding decide_block_data
  get_decided_value-decide_block_data db cert h =
      elim (Option-cases (get_block_data c db cert.height cert.round)) [
        | inl p ↦ rw (p, decide_block_data) refl
        | inr (b, p) ↦ elim (Option-cases (get_execution_requests c db cert.height cert.round)) [
          | inl q ↦ rw (p, q, decide_block_data) refl
          | inr (r, q) ↦
              rw (p, q, decide_block_data)
                (get_decided_value-insert_decided_block_data c db cert.height _ h)
        ]
      ]

  -- The end of a first commit changes no height and no decided value.
  pub settle-Keeps :
      (s : NodeState t kv c) (cert : CommitCertificate) (m : BlobMetadata)
      → Keeps s (settle t kv codec c api signing hash_tree_root merkle_root s cert m)
        × ((h : ℕ)
            → get_decided_value c
                (settle t kv codec c api signing hash_tree_root merkle_root s cert m).chain
                h
              ≡ get_decided_value c s.chain h)
  unfolding settle
  settle-Keeps s cert m =
      let d =
        drop_orphans-Keeps cert.height (as_i64 cert.round) (rounds_of cert.height s.blob_rounds)
          _ in
      let retain =
        retain_height cert.height s.blob_retention_window s.node.pending_archive_heights in
      (
        d.0,
        λ h.
            ap (λ (x : ChainDb c). get_decided_value c x h) d.1
            ∙ get_decided_value-prune c
                (decide_block_data t kv codec c api signing hash_tree_root merkle_root s.chain cert)
                retain h
            ∙ get_decided_value-decide_block_data s.chain cert h,
      )

  -- A commit that ends well has moved to the next height and to round 0.
  pub advance_lem :
      (s s' : NodeState t kv c) (cert : CommitCertificate)
      → advance t kv codec c api signing hash_tree_root merkle_root s cert ≡ (ok tt, s')
      → (s'.node.current_height ≡ max s.node.current_height (cert.height + 1))
        × (s'.node.latest_finalized_height ≡ max s.node.latest_finalized_height cert.height)
        × (s'.current_round ≡ num 0)
        × (s'.chain ≡ s.chain)
  unfolding advance
  advance_lem s s' cert e =
      let node : Node t kv = record s.node {
        latest_finalized_height = max s.node.latest_finalized_height cert.height;
      } in
      let f = flush_pending_prunes t kv codec node in
      let k = flush_pending_prunes-SameHeights t kv codec node in
      elim (Result-cases f.0) [
        | inr (x, p) ↦ absurd (let q = rw (p, advance) at e in ground (arith, ap (λ y. y.0) q))
        | inl (x, p) ↦
            (let q = ap (λ y. y.1) (rw (p, advance) at e) in
              (
                sym (ap (λ (y : NodeState t kv c). y.node.current_height) q)
                    ∙ ap (λ (y : ℕ). max y (cert.height + 1)) k.0,
                sym (ap (λ (y : NodeState t kv c). y.node.latest_finalized_height) q) ∙ k.1,
                sym (ap (λ (y : NodeState t kv c). y.current_round) q),
                sym (ap (λ (y : NodeState t kv c). y.chain) q),
              ))
      ]

  -- A commit that fails at its end stays at its height, which is final.
  pub advance_err :
      (s s' : NodeState t kv c) (cert : CommitCertificate) (x : CommitError)
      → advance t kv codec c api signing hash_tree_root merkle_root s cert ≡ (err x, s')
      → (s'.node.current_height ≡ s.node.current_height)
        × (s'.current_round ≡ s.current_round)
        × (s'.chain ≡ s.chain)
        × (s'.node.latest_finalized_height ≡ max s.node.latest_finalized_height cert.height)
        × (is_prune_error x ≡ true)
  unfolding advance
  advance_err s s' cert x e =
      let node : Node t kv = record s.node {
        latest_finalized_height = max s.node.latest_finalized_height cert.height;
      } in
      let f = flush_pending_prunes t kv codec node in
      let k = flush_pending_prunes-SameHeights t kv codec node in
      elim (Result-cases f.0) [
        | inl (u, p) ↦ absurd (let q = rw (p, advance) at e in ground (arith, ap (λ y. y.0) q))
        | inr (u, p) ↦
            (let q = ap (λ y. y.1) (rw (p, advance) at e) in
              (
                sym (ap (λ (y : NodeState t kv c). y.node.current_height) q) ∙ k.0,
                sym (ap (λ (y : NodeState t kv c). y.current_round) q),
                sym (ap (λ (y : NodeState t kv c). y.chain) q),
                sym (ap (λ (y : NodeState t kv c). y.node.latest_finalized_height) q) ∙ k.1,
                sym (ap is_prune_error (err-injective (ap (λ y. y.0) (rw (p, advance) at e)))),
              ))
      ]
