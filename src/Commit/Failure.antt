-- ===== src/Commit/Failure.antt =====
-- What a failed commit leaves alone, and when a commit ends well (`commit` of crates/consensus/src/state.rs).
use ultramarine.Common.{
  ℕ, max, arith, if◌then◌else◌, ◌≡◌, ◌∙◌, refl, ap, sym, inl, inr, subst, false, none, some, List,
  ◌==◌, Bool-cases, Option-cases, is_some,
}
use ultramarine.Common.Result.{Result, ok, err, Result-cases}
use ultramarine.Types.Round.{as_i64}
use ultramarine.Types.Part.{BeaconBlockHeader}
use ultramarine.Metastore.{Tables, get_blob_metadata, StoreError, mark_blob_metadata_decided}
use ultramarine.Blob.Store.{ByteTable, BlobCodec}
use ultramarine.Merkle.{MerkleApi}
use ultramarine.Proposal.{Signing}
use ultramarine.Chain.{
  ChainTables, ChainDb, CommitCertificate, ProposedValue, DecidedValue, get_decided_value,
  get_undecided_proposal, insert_decided_value, insert_consensus_block_metadata,
}
use ultramarine.Chain.Reads.{
  get_decided_value-insert_decided_value, get_decided_value-insert_consensus_block_metadata,
}
use ultramarine.Commit.{
  promote, after_value, NodeState, CommitError, after_promotion, persist, replay, advance, commit,
  set_db, consensus_metadata,
}
use ultramarine.Commit.Height.{Keeps, settle-Keeps, advance_err, is_prune_error, err-injective}
use ultramarine.Commit.Decided.{replay-Keeps, advance_ok-cases}

module _ (t : Tables) (kv : ByteTable) (codec : BlobCodec) (c : ChainTables) (api : MerkleApi)
    (signing : Signing) (hash_tree_root : BeaconBlockHeader → List ℕ)
    (merkle_root : List ℕ → ℕ → List ℕ) where
  after_promotion-Keeps :
      (s : NodeState t kv c) (cert : CommitCertificate) (r : Result StoreError (Unit {0}))
      → Keeps t kv codec c api signing hash_tree_root merkle_root s
          (after_promotion t kv codec c api signing hash_tree_root merkle_root s cert r).1
        × ((h : ℕ)
            → get_decided_value c
                (after_promotion t kv codec c api signing hash_tree_root merkle_root s cert
                  r).1.chain
                h
              ≡ get_decided_value c s.chain h)
  unfolding after_promotion
  after_promotion-Keeps s cert (err x) = ((refl, refl, refl, refl), λ h. refl)
  after_promotion-Keeps s cert (ok _) =
      elim (Result-cases (get_blob_metadata t s.node.db cert.height)) [
        | inr (x, p) ↦ rw (p, after_promotion) ((refl, refl, refl, refl), λ h. refl)
        | inl (none, p) ↦ rw (p, after_promotion) ((refl, refl, refl, refl), λ h. refl)
        | inl (some m, p) ↦
            rw (p, after_promotion)
              (settle-Keeps t kv codec c api signing hash_tree_root merkle_root s cert m)
      ]

  after_value-Keeps :
      (s : NodeState t kv c) (cert : CommitCertificate) (p : ProposedValue)
      → Keeps t kv codec c api signing hash_tree_root merkle_root s
          (after_value t kv codec c api signing hash_tree_root merkle_root s cert p).1
        × ((h : ℕ)
            → get_decided_value c
                (after_value t kv codec c api signing hash_tree_root merkle_root s cert p).1.chain
                h
              ≡ get_decided_value c s.chain h)
  unfolding after_value promote
  after_value-Keeps s cert p =
      let meta =
        consensus_metadata t kv codec c api signing hash_tree_root merkle_root s.node.validators
          cert p in
      elim (Bool-cases (is_some (get_decided_value c s.chain cert.height))) [
        | inr x ↦ rw (x, after_value) ((refl, refl, refl, refl), λ h. refl)
        | inl x ↦ elim (Result-cases (insert_consensus_block_metadata c s.chain cert.height meta)) [
          | inr (y, f) ↦ rw (x, f, after_value) ((refl, refl, refl, refl), λ h. refl)
          | inl (chain, f) ↦
              let promoted =
                mark_blob_metadata_decided t s.node.db cert.height (as_i64 cert.round) in
              let s0 : NodeState t kv c =
                set_db t kv codec c api signing hash_tree_root merkle_root promoted.1
                  (record s { chain = chain }) in
              let k = after_promotion-Keeps s0 cert promoted.0 in
              rw (x, f, after_value)
                (
                  k.0,
                  λ h.
                      k.1 h
                      ∙ get_decided_value-insert_consensus_block_metadata c s.chain chain
                          cert.height meta f h,
                )
        ]
      ]

  -- The first part of a commit, also where it fails, keeps the heights and every decided value but
  -- that of its own height.
  persist-Keeps :
      (s : NodeState t kv c) (cert : CommitCertificate) (p : ProposedValue)
      → Keeps t kv codec c api signing hash_tree_root merkle_root s
          (persist t kv codec c api signing hash_tree_root merkle_root s cert p).1
        × ((h : ℕ)
            → (cert.height == h) ≡ false
            → get_decided_value c
                (persist t kv codec c api signing hash_tree_root merkle_root s cert p).1.chain
                h
              ≡ get_decided_value c s.chain h)
  unfolding persist
  persist-Keeps s cert p =
      let d : DecidedValue = record { value = p.value; certificate = cert } in
      elim (Result-cases (insert_decided_value c s.chain d)) [
        | inr (y, f) ↦ rw (f, persist) ((refl, refl, refl, refl), λ h n. refl)
        | inl (chain, f) ↦
            let k = after_value-Keeps (record s { chain = chain }) cert p in
            rw (f, persist)
              (
                k.0,
                λ h n.
                    k.1 h
                    ∙ (rw n at (get_decided_value-insert_decided_value c s.chain chain d f h)),
              )
      ]

  -- What the steps before the end of a commit leave alone where they fail.
  abbrev pub Early : NodeState t kv c → NodeState t kv c → Type 0
  Early s s' =
      (s'.node.engine ≡ s.node.engine)
      × (s'.last_blob_sidecar_root ≡ s.last_blob_sidecar_root)
      × (s'.blob_rounds ≡ s.blob_rounds)

  stopped :
      (s : NodeState t kv c) {s0 s' : NodeState t kv c} {x y : CommitError}
      → is_prune_error y ≡ false
      → Early s s0
      → ◌≡◌ {A = Result CommitError (Unit {0}) × NodeState t kv c} (err y, s0) (err x, s')
      → (is_prune_error x ≡ false) × Early s s'
  stopped s n k e = (
    subst (λ (z : CommitError). is_prune_error z ≡ false) (err-injective (ap (λ z. z.0) e)) n,
    subst (λ (z : NodeState t kv c). Early s z) (ap (λ z. z.1) e) k,
  )

  after_promotion-err :
      (s s' : NodeState t kv c) (cert : CommitCertificate) (r : Result StoreError (Unit {0}))
      (x : CommitError)
      → after_promotion t kv codec c api signing hash_tree_root merkle_root s cert r ≡ (err x, s')
      → (is_prune_error x ≡ false) × Early s s'
  unfolding after_promotion
  after_promotion-err s s' cert (err y) x e = stopped s refl (refl, refl, refl) e
  after_promotion-err s s' cert (ok _) x e =
      elim (Result-cases (get_blob_metadata t s.node.db cert.height)) [
        | inr (y, p) ↦ stopped s refl (refl, refl, refl) (rw (p, after_promotion) at e)
        | inl (none, p) ↦ stopped s refl (refl, refl, refl) (rw (p, after_promotion) at e)
        | inl (some m, p) ↦
            absurd (let q = rw (p, after_promotion) at e in ground (arith, ap (λ y. y.0) q))
      ]

  after_value-err :
      (s s' : NodeState t kv c) (cert : CommitCertificate) (p : ProposedValue) (x : CommitError)
      → after_value t kv codec c api signing hash_tree_root merkle_root s cert p ≡ (err x, s')
      → (is_prune_error x ≡ false) × Early s s'
  unfolding after_value promote
  after_value-err s s' cert p x e =
      let meta =
        consensus_metadata t kv codec c api signing hash_tree_root merkle_root s.node.validators
          cert p in
      elim (Bool-cases (is_some (get_decided_value c s.chain cert.height))) [
        | inr y ↦ stopped s refl (refl, refl, refl) (rw (y, after_value) at e)
        | inl y ↦ elim (Result-cases (insert_consensus_block_metadata c s.chain cert.height meta)) [
          | inr (z, f) ↦ stopped s refl (refl, refl, refl) (rw (y, f, after_value) at e)
          | inl (chain, f) ↦
              let promoted =
                mark_blob_metadata_decided t s.node.db cert.height (as_i64 cert.round) in
              after_promotion-err
                (set_db t kv codec c api signing hash_tree_root merkle_root promoted.1
                  (record s { chain = chain }))
                s' cert promoted.0 x (rw (y, f, after_value) at e)
        ]
      ]

  persist-err :
      (s s' : NodeState t kv c) (cert : CommitCertificate) (p : ProposedValue) (x : CommitError)
      → persist t kv codec c api signing hash_tree_root merkle_root s cert p ≡ (err x, s')
      → (is_prune_error x ≡ false) × Early s s'
  unfolding persist
  persist-err s s' cert p x e =
      let d : DecidedValue = record { value = p.value; certificate = cert } in
      elim (Result-cases (insert_decided_value c s.chain d)) [
        | inr (y, f) ↦ stopped s refl (refl, refl, refl) (rw (f, persist) at e)
        | inl (chain, f) ↦
            after_value-err (record s { chain = chain }) s' cert p x (rw (f, persist) at e)
      ]

  -- What a commit that fails with an error leaves alone.
  abbrev pub Unmoved :
      NodeState t kv c → NodeState t kv c → CommitCertificate → CommitError → Type 0
  Unmoved s s' cert x =
      (s'.node.current_height ≡ s.node.current_height)
      × (s'.current_round ≡ s.current_round)
      × ((h : ℕ)
          → (cert.height == h) ≡ false
          → get_decided_value c s'.chain h ≡ get_decided_value c s.chain h)
      × (s'.node.latest_finalized_height ≡ (
          if is_prune_error x
          then max s.node.latest_finalized_height cert.height
          else s.node.latest_finalized_height))
      × (is_prune_error x ≡ false → Early s s')

  unchanged :
      (s s' : NodeState t kv c) (cert : CommitCertificate) {x y : CommitError}
      → is_prune_error y ≡ false
      → ◌≡◌ {A = Result CommitError (Unit {0}) × NodeState t kv c} (err y, s) (err x, s')
      → Unmoved s s' cert x
  unchanged s s' cert {x} n e =
      let (m, early) = stopped s n (refl, refl, refl) e in
      subst (λ (z : NodeState t kv c). Unmoved s z cert x) (ap (λ z. z.1) e)
        (refl, refl, λ h n. refl, rw m refl, λ f. (refl, refl, refl))

  advance-Unmoved :
      (s s0 s' : NodeState t kv c) (cert : CommitCertificate) (x : CommitError)
      → Keeps t kv codec c api signing hash_tree_root merkle_root s s0
      → ((h : ℕ)
          → (cert.height == h) ≡ false
          → get_decided_value c s0.chain h ≡ get_decided_value c s.chain h)
      → advance t kv codec c api signing hash_tree_root merkle_root s0 cert ≡ (err x, s')
      → Unmoved s s' cert x
  advance-Unmoved s s0 s' cert x k values e =
      let a = advance_err t kv codec c api signing hash_tree_root merkle_root s0 s' cert x e in
      (
        a.0 ∙ k.0,
        a.1 ∙ k.3,
        λ h n. ap (λ (y : ChainDb c). get_decided_value c y h) a.2 ∙ values h n,
        rw (a.4) (a.3 ∙ ap (λ (y : ℕ). max y cert.height) k.1),
        λ f. absurd (ground (arith, f, a.4)),
      )

  -- A commit that fails leaves the node at its height and round, and every height but that of the
  -- certificate with the decided value that it had. Where it fails at the pruning of its end, the
  -- certificate's height has become final; where it fails before, the finalized height, the blobs,
  -- the tracked rounds and the parent root are as they were.
  pub commit-err :
      (s s' : NodeState t kv c) (cert : CommitCertificate) (x : CommitError)
      → commit t kv codec c api signing hash_tree_root merkle_root s cert ≡ (err x, s')
      → Unmoved s s' cert x
  unfolding commit
  commit-err s s' cert x e =
      elim (Result-cases (get_undecided_proposal c s.chain cert.height cert.round)) [
        | inr (y, p) ↦ unchanged s s' cert refl (rw (p, commit) at e)
        | inl (none, p) ↦ elim (Option-cases (get_decided_value c s.chain cert.height)) [
          | inl f ↦ unchanged s s' cert refl (rw (p, f, commit) at e)
          | inr (d, f) ↦
              let k = replay-Keeps t kv codec c api signing hash_tree_root merkle_root s cert in
              advance-Unmoved s (replay t kv codec c api signing hash_tree_root merkle_root s cert)
                s' cert x k.0 (λ h n. ap (λ (y : ChainDb c). get_decided_value c y h) k.1)
                (rw (p, f, commit) at e)
        ]
        | inl (some p, f) ↦
            let s0 = (persist t kv codec c api signing hash_tree_root merkle_root s cert p).1 in
            let k = persist-Keeps s cert p in
            let q = rw (f, commit) at e in
            elim (advance_ok-cases t kv codec c api signing hash_tree_root merkle_root
              (persist t kv codec c api signing hash_tree_root merkle_root s cert p) cert) [
                | inl a ↦ advance-Unmoved s s0 s' cert x k.0 k.1 (sym a ∙ q)
                | inr (y, a, b) ↦
                    let g = sym a ∙ q in
                    let (m, early) = persist-err s s' cert p x (b ∙ g) in
                    (
                      sym (ap (λ z. z.1.node.current_height) g) ∙ k.0.0,
                      sym (ap (λ z. z.1.current_round) g) ∙ k.0.3,
                      λ h n. sym (ap (λ z. get_decided_value c z.1.chain h) g) ∙ k.1 h n,
                      rw m (sym (ap (λ z. z.1.node.latest_finalized_height) g) ∙ k.0.1),
                      λ f. early,
                    )
              ]
      ]
