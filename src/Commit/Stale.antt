-- ===== src/Commit/Stale.antt =====
-- The clean-up of rounds that are too old to be proposed again: `cleanup_stale_round_blobs` of
-- crates/consensus/src/state.rs.
use ultramarine.Common.{
  ℕ, ◌+◌, ◌-◌, ◌≡◌, refl, ap, sym, inl, inr, ◌⊎◌, Bool, true, false, ◌&&◌, none, List, [], ◌∷◌,
  ◌==◌, arith, if◌then◌else◌, Bool-cases,
}
use ultramarine.Common.Int.{ℤ, pos, negsuc, ltℤ, eqℤ_iff}
use ultramarine.Common.Ord.{nat_ord, int_ord, pair_ord}
use ultramarine.Types.Round.{Round, nil, num}
use ultramarine.Metastore.{Tables, delete_blob_metadata_undecided}
use ultramarine.Blob.Store.{ByteTable, BlobCodec}
use ultramarine.Blob.Engine as Engine
use ultramarine.Chain.{ChainTables, delete_undecided_proposal, delete_undecided_block_data}
use ultramarine.Chain.Prune.{has}
use ultramarine.Commit.{NodeState, rounds_of}

abbrev pub stale_round_blob_retention : ℕ
stale_round_blob_retention = 3

-- The first round that is kept, and 0 where the source returns early: a cut-off of 0 or less.
unfoldable pub cutoff_round : Round → ℕ
cutoff_round nil = 0
cutoff_round (num r) = r - stale_round_blob_retention

unfoldable pub rounds_below : ℕ → List ℤ → List ℤ
rounds_below cutoff [] = []
rounds_below cutoff (r ∷ l) =
    let rest = rounds_below cutoff l in if ltℤ r (pos cutoff) then r ∷ rest else rest

unfoldable pub rounds_from : ℕ → List ℤ → List ℤ
rounds_from cutoff [] = []
rounds_from cutoff (r ∷ l) =
    let rest = rounds_from cutoff l in if ltℤ r (pos cutoff) then rest else r ∷ rest

unfoldable pub retain_rounds : ℕ → ℕ → List (ℕ × List ℤ) → List (ℕ × List ℤ)
unfolding rounds_from
retain_rounds height cutoff [] = []
retain_rounds height cutoff ((k, r) ∷ l) =
    let rest = retain_rounds height cutoff l in
    if k == height then (k, rounds_from cutoff r) ∷ rest else (k, r) ∷ rest

module _ (t : Tables) (kv : ByteTable) (codec : BlobCodec) (c : ChainTables) where
  -- One stale round: its metadata, its proposal, its block data and its blobs.
  unfoldable pub clean_round : ℕ → ℕ → NodeState t kv c → NodeState t kv c
  unfolding delete_blob_metadata_undecided delete_undecided_proposal delete_undecided_block_data
  clean_round height r s = record s {
    node = record s.node {
      db = delete_blob_metadata_undecided t s.node.db height (pos r);
      engine = Engine.drop_round kv codec s.node.engine height (pos r);
    };
    chain =
        delete_undecided_block_data c (delete_undecided_proposal c s.chain height (num r)) height
          (num r);
  }

  -- The loop over the stale rounds, which counts them; a negative round is skipped.
  unfoldable pub clean_rounds : ℕ → List ℤ → ℕ × NodeState t kv c → ℕ × NodeState t kv c
  unfolding clean_round
  clean_rounds height [] acc = acc
  clean_rounds height (negsuc n ∷ l) acc = clean_rounds height l acc
  clean_rounds height (pos n ∷ l) (cleaned, s) =
      clean_rounds height l (cleaned + 1, clean_round height n s)

  unfoldable pub cleanup_stale_round_blobs : NodeState t kv c → ℕ → Round → ℕ × NodeState t kv c
  unfolding clean_rounds rounds_below retain_rounds cutoff_round
  cleanup_stale_round_blobs s height round =
      let cutoff = cutoff_round round in
      let stale = rounds_below cutoff (rounds_of height s.blob_rounds) in
      let (cleaned, s') = clean_rounds height stale (0, s) in
      if cutoff == 0 then (0, s) else elim stale [
        | [] ↦ (0, s)
        | r ∷ l ↦ (
          cleaned,
          record s' {
            blob_rounds = retain_rounds height cutoff s'.blob_rounds;
            stale_rounds_cleaned = s'.stale_rounds_cleaned + cleaned;
          },
        )
      ]

pub List-cases : {A : Type 0} (l : List A) → (l ≡ []) ⊎ ((x : A) × (r : List A) × (l ≡ x ∷ r))
List-cases [] = inl refl
List-cases (x ∷ l) = inr (x, l, refl)

abbrev pub not_negative : ℤ → Bool
not_negative (pos n) = true
not_negative (negsuc n) = false

pub none_below_zero :
    (q : ℤ) (cutoff : ℕ) → (cutoff == 0) ≡ true → (ltℤ q (pos cutoff) && not_negative q) ≡ false
none_below_zero (pos n) cutoff e = ground (arith, e)
none_below_zero (negsuc n) cutoff e = refl

pub has-rounds_below :
    (cutoff : ℕ) (q : ℤ) (l : List ℤ)
    → has q (rounds_below cutoff l) ≡ (has q l && ltℤ q (pos cutoff))
unfolding rounds_below
has-rounds_below cutoff q [] = refl
has-rounds_below cutoff q (r ∷ l) = ground (arith, has-rounds_below cutoff q l, eqℤ_iff r q)

module _ (t : Tables) (kv : ByteTable) (codec : BlobCodec) (c : ChainTables) where
  -- What the tables hold of a round after some rounds of a height are removed.
  abbrev pub Cleaned : NodeState t kv c → NodeState t kv c → ℕ → ℤ → Bool → Type 0
  Cleaned s s' h q removed =
      (c.proposals_table.get (h, q) s'.chain.undecided_proposals
        ≡ (if removed then none else c.proposals_table.get (h, q) s.chain.undecided_proposals))
      × (c.undecided_data_table.get (h, q) s'.chain.undecided_block_data ≡ (
          if removed then none else c.undecided_data_table.get (h, q) s.chain.undecided_block_data))
      × (t.undecided_table.get (h, q) s'.node.db.undecided
          ≡ (if removed then none else t.undecided_table.get (h, q) s.node.db.undecided))

  clean_rounds_lem :
      (height : ℕ) (l : List ℤ) (n : ℕ) (s : NodeState t kv c) (h : ℕ) (q : ℤ)
      → Cleaned s
          (clean_rounds t kv codec c height l (n, s)).1
          h
          q
          (height == h && has q l && not_negative q)
  unfolding clean_rounds clean_round delete_blob_metadata_undecided delete_undecided_proposal
      delete_undecided_block_data
  clean_rounds_lem height [] n s h q = (ground arith, ground arith, ground arith)
  clean_rounds_lem height (negsuc k ∷ l) n s h q =
      let ih = clean_rounds_lem height l n s h q in
      let f = eqℤ_iff (negsuc k) q in
      (ground (arith, ih.0, f), ground (arith, ih.1, f), ground (arith, ih.2, f))
  clean_rounds_lem height (pos k ∷ l) n s h q =
      let s1 = clean_round t kv codec c height k s in
      let ih = clean_rounds_lem height l (n + 1) s1 h q in
      let f = eqℤ_iff (pos k) q in
      (
        ground (
          arith,
          ih.0,
          f,
          c.proposals_table.get-remove (height, pos k) (h, q) s.chain.undecided_proposals,
        ),
        ground (
          arith,
          ih.1,
          f,
          c.undecided_data_table.get-remove (height, pos k) (h, q) s.chain.undecided_block_data,
        ),
        ground (
          arith,
          ih.2,
          f,
          t.undecided_table.get-remove (height, pos k) (h, q) s.node.db.undecided,
        ),
      )

  untouched : (s : NodeState t kv c) (h : ℕ) (q : ℤ) (b : Bool) → b ≡ false → Cleaned s s h q b
  untouched s h q b e = (ground (arith, e), ground (arith, e), ground (arith, e))

  pub clean_tables :
      (s : NodeState t kv c) (height : ℕ) (round : Round) (h : ℕ) (q : ℤ)
      → Cleaned s (cleanup_stale_round_blobs t kv codec c s height round).1 h q (
          height == h
          && (has q (rounds_of height s.blob_rounds) && ltℤ q (pos (cutoff_round round)))
          && not_negative q)
  unfolding cleanup_stale_round_blobs
  clean_tables s height round h q =
      let cutoff = cutoff_round round in
      let tracked = rounds_of height s.blob_rounds in
      let l = rounds_below cutoff tracked in
      let e = has-rounds_below cutoff q tracked in
      let ih = clean_rounds_lem height l 0 s h q in
      elim (Bool-cases (cutoff == 0)) [
        | inl p ↦
            rw (p, cleanup_stale_round_blobs)
              (untouched s h q _ (ground (arith, none_below_zero q cutoff p)))
        | inr p ↦ elim (List-cases l) [
          | inl f ↦
              rw (p, f, cleanup_stale_round_blobs)
                (untouched s h q _ (ground (arith, sym e, ap (has q) f)))
          | inr (r, rest, f) ↦ rw (p, f, cleanup_stale_round_blobs) (rw e at ih)
        ]
      ]
