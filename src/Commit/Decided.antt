-- ===== src/Commit/Decided.antt =====
-- The decided values and the heights after a commit (`commit` of crates/consensus/src/state.rs).
use ultramarine.Common.{
  ℕ, ◌≡◌, ◌∙◌, refl, ap, sym, inl, inr, ◌⊎◌, subst, true, Option, none, some, List, ◌==◌, arith,
  max, ◌+◌, if◌then◌else◌, Bool-cases, Option-cases, is_some, ==_iff,
}
use ultramarine.Common.Result.{Result, ok, err, Result-cases}
use ultramarine.Types.Round.{num, as_i64}
use ultramarine.Types.Part.{BeaconBlockHeader}
use ultramarine.Types.Metadata.{BlobMetadata}
use ultramarine.Metastore.{Tables, get_blob_metadata, StoreError, mark_blob_metadata_decided}
use ultramarine.Blob.Store.{ByteTable, BlobCodec}
use ultramarine.Merkle.{MerkleApi}
use ultramarine.Proposal.{Signing}
use ultramarine.Chain.{
  ChainTables, ChainDb, CommitCertificate, ProposedValue, DecidedValue, get_decided_value,
  get_undecided_proposal, insert_decided_value, insert_consensus_block_metadata,
}
use ultramarine.Chain.Reads.{
  get_decided_value-insert_decided_value, get_decided_value-insert_consensus_block_metadata,
}
use ultramarine.Commit.{
  promote, after_value, NodeState, CommitError, settle, after_promotion, persist, replay,
  replay_metadata, with_metadata, advance, advance_ok, commit, set_db, consensus_metadata,
}
use ultramarine.Commit.Height.{Keeps, settle-Keeps, advance_lem}

module _ (t : Tables) (kv : ByteTable) (codec : BlobCodec) (c : ChainTables) (api : MerkleApi)
    (signing : Signing) (hash_tree_root : BeaconBlockHeader → List ℕ)
    (merkle_root : List ℕ → ℕ → List ℕ) where
  after_promotion-ok :
      (s s' : NodeState t kv c) (cert : CommitCertificate) (r : Result StoreError (Unit {0}))
      → after_promotion t kv codec c api signing hash_tree_root merkle_root s cert r ≡ (ok tt, s')
      → (m : BlobMetadata) × (s'
          ≡ settle t kv codec c api signing hash_tree_root merkle_root s cert m)
  unfolding after_promotion
  after_promotion-ok s s' cert (err x) e = absurd (ground (arith, ap (λ y. y.0) e))
  after_promotion-ok s s' cert (ok _) e =
      elim (Result-cases (get_blob_metadata t s.node.db cert.height)) [
        | inr (x, p) ↦
            absurd (let q = rw (p, after_promotion) at e in ground (arith, ap (λ y. y.0) q))
        | inl (none, p) ↦
            absurd (let q = rw (p, after_promotion) at e in ground (arith, ap (λ y. y.0) q))
        | inl (some m, p) ↦ let q = rw (p, after_promotion) at e in (m, sym (ap (λ y. y.1) q))
      ]

  promote-ok :
      (s s' : NodeState t kv c) (cert : CommitCertificate)
      → promote t kv codec c api signing hash_tree_root merkle_root s cert ≡ (ok tt, s')
      → Keeps t kv codec c api signing hash_tree_root merkle_root s s'
        × ((h : ℕ) → get_decided_value c s'.chain h ≡ get_decided_value c s.chain h)
  unfolding promote
  promote-ok s s' cert e =
      let promoted = mark_blob_metadata_decided t s.node.db cert.height (as_i64 cert.round) in
      let s0 : NodeState t kv c =
        set_db t kv codec c api signing hash_tree_root merkle_root promoted.1 s in
      let (m, f) = after_promotion-ok s0 s' cert promoted.0 e in
      let k = settle-Keeps t kv codec c api signing hash_tree_root merkle_root s0 cert m in
      subst
        (λ (y : NodeState t kv c).
          Keeps t kv codec c api signing hash_tree_root merkle_root s y
          × ((h : ℕ) → get_decided_value c y.chain h ≡ get_decided_value c s.chain h))
        (sym f) k

  after_value-ok :
      (s s' : NodeState t kv c) (cert : CommitCertificate) (p : ProposedValue)
      → after_value t kv codec c api signing hash_tree_root merkle_root s cert p ≡ (ok tt, s')
      → Keeps t kv codec c api signing hash_tree_root merkle_root s s'
        × ((h : ℕ) → get_decided_value c s'.chain h ≡ get_decided_value c s.chain h)
  unfolding after_value
  after_value-ok s s' cert p e =
      let meta =
        consensus_metadata t kv codec c api signing hash_tree_root merkle_root s.node.validators
          cert p in
      elim (Bool-cases (is_some (get_decided_value c s.chain cert.height))) [
        | inr x ↦ absurd (let q = rw (x, after_value) at e in ground (arith, ap (λ y. y.0) q))
        | inl x ↦ elim (Result-cases (insert_consensus_block_metadata c s.chain cert.height meta)) [
          | inr (y, f) ↦
              absurd (let q = rw (x, f, after_value) at e in ground (arith, ap (λ y. y.0) q))
          | inl (chain, f) ↦
              let k =
                promote-ok (record s { chain = chain }) s' cert (rw (x, f, after_value) at e) in
              (
                k.0,
                λ h.
                    k.1 h
                    ∙ get_decided_value-insert_consensus_block_metadata c s.chain chain cert.height
                        meta f h,
              )
        ]
      ]

  -- A first commit that ends well keeps the heights, and stores the proposal's value with the
  -- certificate.
  persist-ok :
      (s s' : NodeState t kv c) (cert : CommitCertificate) (p : ProposedValue)
      → persist t kv codec c api signing hash_tree_root merkle_root s cert p ≡ (ok tt, s')
      → Keeps t kv codec c api signing hash_tree_root merkle_root s s'
        × ((h : ℕ)
            → get_decided_value c s'.chain h ≡ (
                if cert.height == h
                then some (record { value = p.value; certificate = cert })
                else get_decided_value c s.chain h))
  unfolding persist
  persist-ok s s' cert p e =
      let d : DecidedValue = record { value = p.value; certificate = cert } in
      elim (Result-cases (insert_decided_value c s.chain d)) [
        | inr (y, f) ↦ absurd (let q = rw (f, persist) at e in ground (arith, ap (λ y. y.0) q))
        | inl (chain, f) ↦
            let k = after_value-ok (record s { chain = chain }) s' cert p (rw (f, persist) at e) in
            (k.0, λ h. k.1 h ∙ get_decided_value-insert_decided_value c s.chain chain d f h)
      ]

  with_metadata-Keeps :
      (s : NodeState t kv c) (height : ℕ) (o : Option BlobMetadata)
      → Keeps t kv codec c api signing hash_tree_root merkle_root s
          (with_metadata t kv codec c api signing hash_tree_root merkle_root s height o)
        × ((with_metadata t kv codec c api signing hash_tree_root merkle_root s height o).chain
            ≡ s.chain)
  with_metadata-Keeps s height none = ((refl, refl, refl, refl), refl)
  with_metadata-Keeps s height (some m) = ((refl, refl, refl, refl), refl)

  pub replay-Keeps :
      (s : NodeState t kv c) (cert : CommitCertificate)
      → Keeps t kv codec c api signing hash_tree_root merkle_root s
          (replay t kv codec c api signing hash_tree_root merkle_root s cert)
        × ((replay t kv codec c api signing hash_tree_root merkle_root s cert).chain ≡ s.chain)
  unfolding replay
  replay-Keeps s cert =
      with_metadata-Keeps _ cert.height
        (replay_metadata t kv codec c api signing hash_tree_root merkle_root s.node.db cert).0

  -- The decided value of a height after a commit: that of the undecided proposal, if there is one.
  abbrev pub committed : NodeState t kv c → CommitCertificate → ℕ → Option DecidedValue
  committed s cert h = elim (get_undecided_proposal c s.chain cert.height cert.round) [
    | err e ↦ none
    | ok none ↦ get_decided_value c s.chain h
    | ok (some p) ↦
        if cert.height == h
        then some (record { value = p.value; certificate = cert })
        else get_decided_value c s.chain h
  ]

  advance_ok-ok :
      (r : Result CommitError (Unit {0}) × NodeState t kv c) (cert : CommitCertificate)
      (s' : NodeState t kv c)
      → advance_ok t kv codec c api signing hash_tree_root merkle_root r cert ≡ (ok tt, s')
      → (r.0 ≡ ok tt)
        × (advance t kv codec c api signing hash_tree_root merkle_root r.1 cert ≡ (ok tt, s'))
  advance_ok-ok (err x, s) cert s' e = absurd (ground (arith, ap (λ y. y.0) e))
  advance_ok-ok (ok _, s) cert s' e = (refl, e)

  pub advance_ok-cases :
      (r : Result CommitError (Unit {0}) × NodeState t kv c) (cert : CommitCertificate)
      → (advance_ok t kv codec c api signing hash_tree_root merkle_root r cert
          ≡ advance t kv codec c api signing hash_tree_root merkle_root r.1 cert)
        ⊎ ((x : CommitError) × (advance_ok t kv codec c api signing hash_tree_root merkle_root r
                cert
              ≡ (err x, r.1))
            × (r ≡ (err x, r.1)))
  advance_ok-cases (err x, s) cert = inr (x, refl, refl)
  advance_ok-cases (ok _, s) cert = inl refl

  -- A commit that ends well moves the node past the height of the certificate and never back, to
  -- round 0, and makes the height final. The height then has a decided value: that of the undecided
  -- proposal with the certificate, or the one that was there; every other height keeps its own.
  pub commit-ok :
      (s s' : NodeState t kv c) (cert : CommitCertificate)
      → commit t kv codec c api signing hash_tree_root merkle_root s cert ≡ (ok tt, s')
      → (s'.node.current_height ≡ max s.node.current_height (cert.height + 1))
        × (s'.node.latest_finalized_height ≡ max s.node.latest_finalized_height cert.height)
        × (s'.current_round ≡ num 0)
        × ((h : ℕ) → get_decided_value c s'.chain h ≡ committed s cert h)
        × (is_some (get_decided_value c s'.chain cert.height) ≡ true)
  unfolding commit
  commit-ok s s' cert e =
      elim (Result-cases (get_undecided_proposal c s.chain cert.height cert.round)) [
        | inr (x, p) ↦ absurd (let q = rw (p, commit) at e in ground (arith, ap (λ y. y.0) q))
        | inl (none, p) ↦ elim (Option-cases (get_decided_value c s.chain cert.height)) [
          | inl f ↦ absurd (let q = rw (p, f, commit) at e in ground (arith, ap (λ y. y.0) q))
          | inr (d, f) ↦
              let q = rw (p, f, commit) at e in
              let k = replay-Keeps s cert in
              let a =
                advance_lem t kv codec c api signing hash_tree_root merkle_root
                  (replay t kv codec c api signing hash_tree_root merkle_root s cert) s' cert q in
              let values : (h : ℕ)
                  → get_decided_value c s'.chain h ≡ get_decided_value c s.chain h =
                λ h. ap (λ (x : ChainDb c). get_decided_value c x h) (a.3 ∙ k.1) in
              (
                a.0 ∙ ap (λ (x : ℕ). max x (cert.height + 1)) k.0.0,
                a.1 ∙ ap (λ (x : ℕ). max x cert.height) k.0.1,
                a.2,
                λ h. rw (p, committed) (values h),
                ap is_some (values cert.height ∙ f),
              )
        ]
        | inl (some p, f) ↦
            let q = rw (f, commit) at e in
            let (fine, q') =
              advance_ok-ok (persist t kv codec c api signing hash_tree_root merkle_root s cert p)
                cert s' q in
            let s0 = (persist t kv codec c api signing hash_tree_root merkle_root s cert p).1 in
            let k = persist-ok s s0 cert p (ap (λ x. (x, s0)) fine) in
            let a = advance_lem t kv codec c api signing hash_tree_root merkle_root s0 s' cert q' in
            let values : (h : ℕ)
                → get_decided_value c s'.chain h ≡ (
                    if cert.height == h
                    then some (record { value = p.value; certificate = cert })
                    else get_decided_value c s.chain h) =
              λ h. ap (λ (x : ChainDb c). get_decided_value c x h) a.3 ∙ k.1 h in
            (
              a.0 ∙ ap (λ (x : ℕ). max x (cert.height + 1)) k.0.0,
              a.1 ∙ ap (λ (x : ℕ). max x cert.height) k.0.1,
              a.2,
              λ h. rw (f, committed) (values h),
              ap is_some (values cert.height)
                  ∙ (let z = (==_iff cert.height cert.height).1 refl in rw z refl),
            )
      ]
