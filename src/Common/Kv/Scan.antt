-- ===== src/Common/Kv/Scan.antt =====
-- A forward scan of a table of byte strings by a prefix: the iterator starts at the prefix, and the
-- loop breaks at the first key without it.
use ultramarine.Common.{
  ℕ, ◌≡◌, refl, ap, sym, true, false, List, [], ◌∷◌, arith, if◌then◌else◌, Bool-cases, inl, inr,
}
use ultramarine.Common.Bytes.{is_prefix}
use ultramarine.Common.Ord.{bytes_ord, bytes_lt}
use ultramarine.Common.Kv.Sorted.{Above, IsAscending, select}

module _ {V : Type 0} where
  -- The entries from the first key that is not below `p`.
  unfoldable pub seek : List ℕ → List (List ℕ × V) → List (List ℕ × V)
  seek p [] = []
  seek p ((k, v) ∷ l) = let rest = seek p l in if bytes_lt k p then rest else (k, v) ∷ l

  unfoldable pub take_prefix : List ℕ → List (List ℕ × V) → List (List ℕ × V)
  take_prefix p [] = []
  take_prefix p ((k, v) ∷ l) =
      let rest = take_prefix p l in if is_prefix p k then (k, v) ∷ rest else []

  unfoldable pub scan : List ℕ → List (List ℕ × V) → List (List ℕ × V)
  unfolding seek take_prefix
  scan p l = take_prefix p (seek p l)

-- A key below the prefix does not have it.
below_prefix : (p k : List ℕ) → bytes_lt k p ≡ true → is_prefix p k ≡ false
unfolding is_prefix
below_prefix [] [] h = cc
below_prefix [] (x ∷ k) h = cc
below_prefix (y ∷ p) [] h = refl
below_prefix (y ∷ p) (x ∷ k) h = ground (arith, below_prefix p k)

-- Above a key that is not below the prefix and does not have it, no key has it.
past_prefix :
    (p k j : List ℕ)
    → bytes_lt k p ≡ false
    → is_prefix p k ≡ false
    → bytes_lt k j ≡ true
    → is_prefix p j ≡ false
unfolding is_prefix
past_prefix [] k j h n a = cc
past_prefix (y ∷ p) [] j h n a = cc
past_prefix (y ∷ p) (x ∷ k) [] h n a = refl
past_prefix (y ∷ p) (x ∷ k) (z ∷ j) h n a = ground (arith, past_prefix p k j)

not_below : (p k j : List ℕ) → bytes_lt k p ≡ false → bytes_lt k j ≡ true → bytes_lt j p ≡ false
not_below p k j h a = elim (Bool-cases (bytes_lt j p)) [
  | inl b ↦ cc (bytes_ord.lt_trans k j p a b)
  | inr b ↦ b
]

module _ {V : Type 0} where
  select_past :
      (p k : List ℕ) (l : List (List ℕ × V))
      → bytes_lt k p ≡ false
      → is_prefix p k ≡ false
      → Above k l
      → select (is_prefix p) l ≡ []
  unfolding select
  select_past p k [] h n a = refl
  select_past p k ((j, v) ∷ l) h n a = rw (past_prefix p k j h n a.0) (select_past p k l h n a.1)

  take_prefix-select :
      (p : List ℕ) (l : List (List ℕ × V))
      → IsAscending l
      → ((k : List ℕ) → Above k l → bytes_lt k p ≡ false → take_prefix p l ≡ select (is_prefix p) l)
  unfolding take_prefix select
  take_prefix-select p [] a k b h = refl
  take_prefix-select p ((j, v) ∷ l) a k b h = elim (Bool-cases (is_prefix p j)) [
    | inl e ↦ rw e (ap (λ r. (j, v) ∷ r) (take_prefix-select p l a.1 j a.0 (not_below p k j h b.0)))
    | inr e ↦ rw e (sym (select_past p j l (not_below p k j h b.0) e a.0))
  ]

  -- On a table in the order of its keys the scan gives exactly the entries with the prefix.
  pub scan-select :
      (p : List ℕ) (l : List (List ℕ × V)) → IsAscending l → scan p l ≡ select (is_prefix p) l
  unfolding scan select
  scan-select p [] a = refl
  scan-select p ((j, v) ∷ l) a = elim (Bool-cases (bytes_lt j p)) [
    | inl e ↦ rw (e, below_prefix p j e) (scan-select p l a.1)
    | inr e ↦ rw e (elim (Bool-cases (is_prefix p j)) [
      | inl q ↦ rw q (ap (λ r. (j, v) ∷ r) (take_prefix-select p l a.1 j a.0 e))
      | inr q ↦ rw q (sym (select_past p j l e q a.0))
    ])
  ]
