-- ===== src/Chain/Prune.antt =====
-- What pruning removes from the tables of crates/consensus/src/store.rs.
use ultramarine.Common.{
  ℕ, ◌≡◌, refl, inl, inr, Bool, false, ◌||◌, ◌&&◌, none, List, [], ◌∷◌, is_some, arith,
  if◌then◌else◌, Bool-cases,
}
use ultramarine.Common.Int.{ℤ, negsuc}
use ultramarine.Common.Ord.{Ord, nat_ord, int_ord, pair_ord, pair_lt}
use ultramarine.Common.Kv.{Kv}
use ultramarine.Common.Kv.Sorted.{find, IsAscending, Above-trans, find-Above}
use ultramarine.Chain.{ChainTables, ChainDb, remove_all, keys_below_bound, prune, get_decided_value}

abbrev pub has : {K : Type 0} ⦃o : Ord K⦄ → K → List K → Bool
has j [] = false
has ⦃o⦄ j (k ∷ l) = o.eq k j || has j l

pub get-remove_all :
    {K V : Type 0} ⦃o : Ord K⦄ (kv : Kv K V) (l : List K) (m : kv.Map) (j : K)
    → kv.get j (remove_all kv l m) ≡ (if has j l then none else kv.get j m)
unfolding remove_all
get-remove_all kv [] m j = refl
get-remove_all ⦃o⦄ kv (k ∷ l) m j =
    ground (arith, get-remove_all kv l (kv.remove k m) j, kv.get-remove k j m)

pub has-keys_below_bound :
    {K V : Type 0} ⦃o : Ord K⦄ (bound j : K) (l : List (K × V))
    → IsAscending l
    → has j (keys_below_bound bound l) ≡ (is_some (find j l) && o.lt j bound)
unfolding keys_below_bound find
has-keys_below_bound bound j [] a = refl
has-keys_below_bound ⦃o⦄ bound j ((k, v) ∷ l) a = elim (Bool-cases (o.lt k bound)) [
  | inl p ↦ ground (arith, p, has-keys_below_bound bound j l a.1, o.eq_iff k j)
  | inr p ↦ elim (Bool-cases (o.lt j bound)) [
    | inr q ↦ ground (arith, p, q)
    | inl q ↦ elim (Bool-cases (o.lt j k)) [
      | inl r ↦ ground (arith, p, q, r, o.eq_iff k j, find-Above j l (Above-trans j k l r a.0))
      | inr r ↦ absurd (ground (arith, p, q, r, o.lt_connex j k r, o.lt_trans k j bound))
    ]
  ]
]

pub get-prune_range :
    {K V : Type 0} ⦃o : Ord K⦄ (kv : Kv K V) (m : kv.Map) (bound j : K)
    → kv.get j (remove_all kv (keys_below_bound bound (kv.entries m)) m)
      ≡ (if o.lt j bound then none else kv.get j m)
get-prune_range ⦃o⦄ kv m bound j = ground (
  arith,
  get-remove_all kv (keys_below_bound bound (kv.entries m)) m j,
  has-keys_below_bound bound j (kv.entries m) (kv.entries_ascending m),
  kv.find-entries j m,
)

module _ (t : ChainTables) where
  -- Pruning to a height removes exactly the undecided proposals and block data below it, and those
  -- of that height in a round below `Nil`, of which there are none; every decided value is read as
  -- before.
  pub prune_lem :
      (db : ChainDb t) (retain height : ℕ) (round : ℤ)
      → (t.proposals_table.get (height, round) (prune t db retain).undecided_proposals ≡ (
          if pair_lt nat_ord int_ord (height, round) (retain, negsuc 0)
          then none
          else t.proposals_table.get (height, round) db.undecided_proposals))
        × (t.undecided_data_table.get (height, round) (prune t db retain).undecided_block_data ≡ (
            if pair_lt nat_ord int_ord (height, round) (retain, negsuc 0)
            then none
            else t.undecided_data_table.get (height, round) db.undecided_block_data))
        × (get_decided_value t (prune t db retain) height ≡ get_decided_value t db height)
  unfolding prune get_decided_value
  prune_lem db retain height round = (
    get-prune_range t.proposals_table db.undecided_proposals (retain, negsuc 0) (height, round),
    get-prune_range t.undecided_data_table db.undecided_block_data (retain, negsuc 0)
        (height, round),
    refl,
  )
