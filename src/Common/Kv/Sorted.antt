-- ===== src/Common/Kv/Sorted.antt =====
-- Lists of entries in the strict order of their keys, and a table made of one: it shows that the
-- laws of `Kv` can be met, and is what tests and examples run on.
use ultramarine.Common.{
  ◌≡◌, refl, Bool, true, Option, none, some, List, [], ◌∷◌, arith, if◌then◌else◌, Bool-cases, inl,
  inr,
}
use ultramarine.Common.Ord.{Ord, lt_of_ne}

module _ {K V : Type 0} ⦃o : Ord K⦄ where
  -- The value of the first entry with the key.
  unfoldable pub find : K → List (K × V) → Option V
  find k [] = none
  find k ((j, v) ∷ l) = if o.eq j k then some v else find k l

  -- Every key of the list is above `k`.
  abbrev pub Above : K → List (K × V) → Type 0
  Above k [] = Unit
  Above k ((j, v) ∷ l) = (o.lt k j ≡ true) × Above k l

  abbrev pub IsAscending : List (K × V) → Type 0
  IsAscending [] = Unit
  IsAscending ((k, v) ∷ l) = Above k l × IsAscending l

  pub Above-trans : (j k : K) (l : List (K × V)) → o.lt j k ≡ true → Above k l → Above j l
  Above-trans j k [] h a = tt
  Above-trans j k ((i, v) ∷ l) h a = (o.lt_trans j k i h a.0, Above-trans j k l h a.1)

  -- A key above which the whole list lies is not in it.
  pub find-Above : (k : K) (l : List (K × V)) → Above k l → find k l ≡ none
  unfolding find
  find-Above k [] a = refl
  find-Above k ((j, v) ∷ l) a = ground (arith, find-Above k l a.1, o.eq_iff j k, o.lt_irrefl k, a.0)

  unfoldable pub insert_sorted : K → V → List (K × V) → List (K × V)
  insert_sorted k v [] = (k, v) ∷ []
  insert_sorted k v ((j, w) ∷ l) =
      if o.lt k j
      then (k, v) ∷ (j, w) ∷ l
      else if o.eq k j
      then (k, v) ∷ l
      else (j, w) ∷ insert_sorted k v l

  unfoldable pub remove_sorted : K → List (K × V) → List (K × V)
  remove_sorted k [] = []
  remove_sorted k ((j, w) ∷ l) =
      let rest = remove_sorted k l in if o.eq k j then rest else (j, w) ∷ rest

  insert_sorted-Above :
      (i k : K) (v : V) (l : List (K × V))
      → o.lt i k ≡ true
      → Above i l
      → Above i (insert_sorted k v l)
  unfolding insert_sorted
  insert_sorted-Above i k v [] h a = (h, tt)
  insert_sorted-Above i k v ((j, w) ∷ l) h a = ground (arith, insert_sorted-Above i k v l h a.1)

  pub insert_sorted-IsAscending :
      (k : K) (v : V) (l : List (K × V)) → IsAscending l → IsAscending (insert_sorted k v l)
  unfolding insert_sorted
  insert_sorted-IsAscending k v [] a = (tt, tt)
  insert_sorted-IsAscending k v ((j, w) ∷ l) a = elim (Bool-cases (o.lt k j)) [
    | inl p ↦ rw p ((p, Above-trans k j l p a.0), a)
    | inr p ↦ rw p (elim (Bool-cases (o.eq k j)) [
      | inl e ↦ rw e (rw ((o.eq_iff k j).0 e) a.0, a.1)
      | inr n ↦
          rw n (
            insert_sorted-Above j k v l (lt_of_ne k j p n) a.0,
            insert_sorted-IsAscending k v l a.1,
          )
    ])
  ]

  remove_sorted-Above : (i k : K) (l : List (K × V)) → Above i l → Above i (remove_sorted k l)
  unfolding remove_sorted
  remove_sorted-Above i k [] a = tt
  remove_sorted-Above i k ((j, w) ∷ l) a = ground (arith, remove_sorted-Above i k l a.1)

  pub remove_sorted-IsAscending :
      (k : K) (l : List (K × V)) → IsAscending l → IsAscending (remove_sorted k l)
  unfolding remove_sorted
  remove_sorted-IsAscending k [] a = tt
  remove_sorted-IsAscending k ((j, w) ∷ l) a =
      ground (arith, remove_sorted-Above j k l a.0, remove_sorted-IsAscending k l a.1)

  pub find-insert_sorted :
      (k j : K) (v : V) (l : List (K × V))
      → find j (insert_sorted k v l) ≡ (if o.eq k j then some v else find j l)
  unfolding find insert_sorted
  find-insert_sorted k j v [] = refl
  find-insert_sorted k j v ((i, w) ∷ l) =
      ground (arith, find-insert_sorted k j v l, o.eq_iff k i, o.eq_iff i j, o.eq_iff k j)

  pub find-remove_sorted :
      (k j : K) (l : List (K × V))
      → find j (remove_sorted k l) ≡ (if o.eq k j then none else find j l)
  unfolding find remove_sorted
  find-remove_sorted k j [] = ground arith
  find-remove_sorted k j ((i, w) ∷ l) =
      ground (arith, find-remove_sorted k j l, o.eq_iff k i, o.eq_iff i j, o.eq_iff k j)

  -- The entries with a key that passes a test.
  unfoldable pub select : (K → Bool) → List (K × V) → List (K × V)
  select p [] = []
  select p ((k, v) ∷ l) = let rest = select p l in if p k then (k, v) ∷ rest else rest

  pub find-select :
      (p : K → Bool) (j : K) (l : List (K × V))
      → find j (select p l) ≡ (if p j then find j l else none)
  unfolding find select
  find-select p j [] = ground arith
  find-select p j ((i, w) ∷ l) = ground (arith, find-select p j l, o.eq_iff i j)
