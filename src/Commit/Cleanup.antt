-- ===== src/Commit/Cleanup.antt =====
-- What the clean-up of stale rounds removes (`cleanup_stale_round_blobs` of
-- crates/consensus/src/state.rs).
use ultramarine.Common.{
  ℕ, ◌+◌, ◌<◌, ◌≤◌, ◌^◌, ◌≡◌, refl, ap, sym, ◌∙◌, inl, inr, Bool, true, false, ◌&&◌, not, none,
  List, [], ◌∷◌, ltb, ◌==◌, arith, if◌then◌else◌, Bool-cases, subst,
}
use ultramarine.Common.Int.{ℤ, pos, negsuc, ltℤ, eqℤ_iff}
use ultramarine.Common.Ord.{nat_ord, int_ord}
use ultramarine.Types.Round.{Round, nil, num}
use ultramarine.Metastore.{Tables}
use ultramarine.Blob.Key.{BlobKey, IsKey}
use ultramarine.Blob.Store.{ByteTable, BlobCodec}
use ultramarine.Blob.Store.View.{undecided_at, IsStore}
use ultramarine.Blob.Store.Promote.{drop_round_lem}
use ultramarine.Blob.Store.Removal.{drop_round-IsStore}
use ultramarine.Blob.Engine.Idle.{drop_round-store}
use ultramarine.Chain.{ChainTables}
use ultramarine.Chain.Prune.{has}
use ultramarine.Commit.{NodeState, rounds_of}
use ultramarine.Commit.Stale.{
  cleanup_stale_round_blobs, clean_rounds, clean_round, rounds_below, rounds_from, retain_rounds,
  cutoff_round, Cleaned, clean_tables, not_negative, List-cases, has-rounds_below, none_below_zero,
}

-- A round that lies more than three rounds below the round entered.
abbrev pub is_stale : Round → ℤ → Bool
is_stale nil q = false
is_stale (num r) (negsuc n) = false
is_stale (num r) (pos n) = ltb (n + 3) r

-- Rounds are u32.
abbrev pub IsRound : Round → Type 0
IsRound nil = Unit
IsRound (num r) = r < 2 ^ 32

is_stale_lem :
    (round : Round) (q : ℤ)
    → (ltℤ q (pos (cutoff_round round)) && not_negative q) ≡ is_stale round q
unfolding cutoff_round
is_stale_lem nil (pos n) = ground arith
is_stale_lem nil (negsuc n) = refl
is_stale_lem (num r) (pos n) = ground arith
is_stale_lem (num r) (negsuc n) = refl

cutoff_round-lt : (round : Round) → IsRound round → cutoff_round round ≤ 2 ^ 32
unfolding cutoff_round
cutoff_round-lt nil h = omega arith
cutoff_round-lt (num r) h = omega arith

abbrev AllLow : List ℤ → Type 0
AllLow [] = Unit
AllLow (pos n ∷ l) = (n < 2 ^ 63) × AllLow l
AllLow (negsuc n ∷ l) = AllLow l

rounds_below-AllLow : (cutoff : ℕ) (l : List ℤ) → cutoff ≤ 2 ^ 32 → AllLow (rounds_below cutoff l)
unfolding rounds_below
rounds_below-AllLow cutoff [] h = tt
rounds_below-AllLow cutoff (pos n ∷ l) h = elim (Bool-cases (ltb n cutoff)) [
  | inl p ↦ rw p (ground (arith, p), rounds_below-AllLow cutoff l h)
  | inr p ↦ rw p (rounds_below-AllLow cutoff l h)
]
rounds_below-AllLow cutoff (negsuc n ∷ l) h = rounds_below-AllLow cutoff l h

has-rounds_from :
    (cutoff : ℕ) (q : ℤ) (l : List ℤ)
    → has q (rounds_from cutoff l) ≡ (has q l && not (ltℤ q (pos cutoff)))
unfolding rounds_from
has-rounds_from cutoff q [] = refl
has-rounds_from cutoff q (r ∷ l) = ground (arith, has-rounds_from cutoff q l, eqℤ_iff r q)

has-retain_rounds :
    (height cutoff h : ℕ) (q : ℤ) (l : List (ℕ × List ℤ))
    → has q (rounds_of h (retain_rounds height cutoff l))
      ≡ (has q (rounds_of h l) && not (height == h && ltℤ q (pos cutoff)))
unfolding retain_rounds rounds_of
has-retain_rounds height cutoff h q [] = refl
has-retain_rounds height cutoff h q ((k, r) ∷ l) =
    ground (arith, has-retain_rounds height cutoff h q l, has-rounds_from cutoff q r)

removed_lem : (a b l n x : Bool) → (l && n) ≡ x → (a && (b && l) && n) ≡ (a && (b && x))
removed_lem true true l n x e = e
removed_lem true false l n x e = refl
removed_lem false b l n x e = refl

kept_lem : (l n x : Bool) → (l && n) ≡ x → n ≡ true → l ≡ x
kept_lem true n x e f = sym f ∙ e
kept_lem false n x e f = e

module _ (t : Tables) (kv : ByteTable) (codec : BlobCodec) (c : ChainTables) where
  clean_rounds-blob_rounds :
      (height : ℕ) (l : List ℤ) (n : ℕ) (s : NodeState t kv c)
      → (clean_rounds t kv codec c height l (n, s)).1.blob_rounds ≡ s.blob_rounds
  unfolding clean_rounds clean_round
  clean_rounds-blob_rounds height [] n s = refl
  clean_rounds-blob_rounds height (negsuc k ∷ l) n s = clean_rounds-blob_rounds height l n s
  clean_rounds-blob_rounds height (pos k ∷ l) n s =
      clean_rounds-blob_rounds height l (n + 1) (clean_round t kv codec c height k s)

  -- The blobs of the cleaned rounds leave the store of the engine.
  clean_rounds-blobs :
      (height : ℕ) (l : List ℤ) (n : ℕ) (s : NodeState t kv c) (k : BlobKey)
      → IsStore kv s.node.engine.store
      → height < 2 ^ 64
      → AllLow l
      → IsKey k
      → undecided_at kv
          (clean_rounds t kv codec c height l (n, s)).1.node.engine.store
          k.height
          k.round
          k.index
        ≡ (if height == k.height && has k.round l && not_negative k.round
            then none
            else undecided_at kv s.node.engine.store k.height k.round k.index)
  unfolding clean_rounds clean_round
  clean_rounds-blobs height [] n s k w hh low v = ground arith
  clean_rounds-blobs height (negsuc j ∷ l) n s k w hh low v =
      ground (arith, clean_rounds-blobs height l n s k w hh low v, eqℤ_iff (negsuc j) k.round)
  clean_rounds-blobs height (pos j ∷ l) n s k w hh low v =
      let e = drop_round-store kv codec s.node.engine height (pos j) in
      let kept = drop_round-IsStore kv codec s.node.engine.store height (pos j) w in
      let ih =
        clean_rounds-blobs height l (n + 1) (clean_round t kv codec c height j s) k
          (subst (IsStore kv) (sym e) kept) hh low.1 v in
      let one = (drop_round_lem kv codec height (pos j) s.node.engine.store w hh low.0 k v).1 in
      let here = ap (λ d. undecided_at kv d k.height k.round k.index) e ∙ one in
      ground (arith, ih, here, eqℤ_iff (pos j) k.round, eqℤ_iff k.round (pos j))

  clean_blobs :
      (s : NodeState t kv c) (height : ℕ) (round : Round) (k : BlobKey)
      → IsStore kv s.node.engine.store
      → height < 2 ^ 64
      → IsRound round
      → IsKey k
      → undecided_at kv
          (cleanup_stale_round_blobs t kv codec c s height round).1.node.engine.store
          k.height
          k.round
          k.index
        ≡ (if height == k.height
              && (has k.round (rounds_of height s.blob_rounds)
                  && ltℤ k.round (pos (cutoff_round round)))
              && not_negative k.round
            then none
            else undecided_at kv s.node.engine.store k.height k.round k.index)
  unfolding cleanup_stale_round_blobs
  clean_blobs s height round k w hh hr v =
      let cutoff = cutoff_round round in
      let tracked = rounds_of height s.blob_rounds in
      let l = rounds_below cutoff tracked in
      let e = has-rounds_below cutoff k.round tracked in
      let ih =
        clean_rounds-blobs height l 0 s k w hh
          (rounds_below-AllLow cutoff tracked (cutoff_round-lt round hr)) v in
      elim (Bool-cases (cutoff == 0)) [
        | inl p ↦
            rw (p, cleanup_stale_round_blobs) (ground (arith, none_below_zero k.round cutoff p))
        | inr p ↦ elim (List-cases l) [
          | inl f ↦ rw (p, f, cleanup_stale_round_blobs) (ground (arith, sym e, ap (has k.round) f))
          | inr (r, rest, f) ↦ rw (p, f, cleanup_stale_round_blobs) (rw e at ih)
        ]
      ]

  clean_tracked :
      (s : NodeState t kv c) (height : ℕ) (round : Round) (h : ℕ) (q : ℤ)
      → not_negative q ≡ true
      → has q (rounds_of h (cleanup_stale_round_blobs t kv codec c s height round).1.blob_rounds)
        ≡ (has q (rounds_of h s.blob_rounds)
            && not (height == h && ltℤ q (pos (cutoff_round round))))
  unfolding cleanup_stale_round_blobs
  clean_tracked s height round h q n =
      let cutoff = cutoff_round round in
      let tracked = rounds_of height s.blob_rounds in
      let l = rounds_below cutoff tracked in
      let e = has-rounds_below cutoff q tracked in
      elim (Bool-cases (cutoff == 0)) [
        | inl p ↦ rw (p, cleanup_stale_round_blobs) (ground (arith, none_below_zero q cutoff p, n))
        | inr p ↦ elim (List-cases l) [
          | inl f ↦
              rw (p, f, cleanup_stale_round_blobs)
                (elim (Bool-cases (height == h)) [
                  | inr z ↦ ground (arith, z)
                  | inl z ↦
                      let here : height ≡ h = ground (arith, z) in
                      let same = ap (λ (x : ℕ). has q (rounds_of x s.blob_rounds)) here in
                      ground (arith, z, same, sym e, ap (has q) f)
                ])
          | inr (r, rest, f) ↦
              rw (p, f, cleanup_stale_round_blobs)
                (rw (clean_rounds-blob_rounds height l 0 s)
                  (has-retain_rounds height cutoff h q s.blob_rounds))
        ]
      ]

  -- Where the store of the engine holds keys of blobs alone and the height and the round entered are
  -- in their ranges, the cleaning at a round removes, of every height and round, the undecided
  -- proposal, block data, blob metadata and blobs (these for keys in their ranges) exactly if the height is the given one and the
  -- round is tracked for it, is not negative and lies more than three rounds below the round
  -- entered; of the rounds that are not negative, exactly these are no longer tracked.
  pub cleanup_stale_round_blobs_lem :
      (s : NodeState t kv c) (height : ℕ) (round : Round) (h : ℕ) (q : ℤ)
      → IsStore kv s.node.engine.store
      → height < 2 ^ 64
      → IsRound round
      → Cleaned t kv codec c s
          (cleanup_stale_round_blobs t kv codec c s height round).1
          h
          q
          (height == h && (has q (rounds_of height s.blob_rounds) && is_stale round q))
        × ((i : ℕ)
            → IsKey (record { height = h; round = q; index = i })
            → undecided_at kv
                (cleanup_stale_round_blobs t kv codec c s height round).1.node.engine.store
                h
                q
                i
              ≡ (if height == h && (has q (rounds_of height s.blob_rounds) && is_stale round q)
                  then none
                  else undecided_at kv s.node.engine.store h q i))
        × (not_negative q ≡ true
            → has q
                (rounds_of h (cleanup_stale_round_blobs t kv codec c s height round).1.blob_rounds)
              ≡ (has q (rounds_of h s.blob_rounds) && not (height == h && is_stale round q)))
  cleanup_stale_round_blobs_lem s height round h q w hh hr =
      let e = is_stale_lem round q in
      let tracked = has q (rounds_of height s.blob_rounds) in
      let low = ltℤ q (pos (cutoff_round round)) in
      let same : (height == h && (tracked && low) && not_negative q)
          ≡ (height == h && (tracked && is_stale round q)) =
        removed_lem (height == h) tracked low (not_negative q) (is_stale round q) e in
      (
        subst (Cleaned t kv codec c s (cleanup_stale_round_blobs t kv codec c s height round).1 h q)
            same (clean_tables t kv codec c s height round h q),
        λ i v.
            clean_blobs s height round (record { height = h; round = q; index = i }) w hh hr v
            ∙ ap (λ (b : Bool). if b then none else undecided_at kv s.node.engine.store h q i) same,
        λ n.
            clean_tracked s height round h q n
            ∙ ap (λ (b : Bool). has q (rounds_of h s.blob_rounds) && not (height == h && b))
                (kept_lem low (not_negative q) (is_stale round q) e n),
      )
