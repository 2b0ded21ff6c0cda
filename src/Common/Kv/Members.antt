-- ===== src/Common/Kv/Members.antt =====
-- What holds of every entry of an ascending list, and of the entries that a scan selects.
use ultramarine.Common.{
  ◌≡◌, refl, Bool, true, false, some, List, [], ◌∷◌, arith, Bool-cases, inl, inr,
}
use ultramarine.Common.Ord.{Ord}
use ultramarine.Common.Kv.Sorted.{find, Above, IsAscending, select}

abbrev pub Every {ℓ} : {K V : Type 0} → (K → V → Type ℓ) → List (K × V) → Type ℓ
Every P [] = Unit
Every P ((k, v) ∷ l) = P k v × Every P l

pub Every-map {ℓ κ} :
    {K V : Type 0} {P : K → V → Type ℓ} {Q : K → V → Type κ} (l : List (K × V))
    → ((k : K) (v : V) → P k v → Q k v)
    → Every P l
    → Every Q l
Every-map [] f a = tt
Every-map ((k, v) ∷ l) f a = (f k v a.0, Every-map l f a.1)

module _ {K V : Type 0} ⦃o : Ord K⦄ where
  lift_find :
      (k : K) (v : V) (l r : List (K × V))
      → Above k r
      → Every (λ j w. find j l ≡ some w) r
      → Every (λ j w. find j ((k, v) ∷ l) ≡ some w) r
  unfolding find
  lift_find k v l [] a e = tt
  lift_find k v l ((j, w) ∷ r) a e =
      (ground (arith, e.0, a.0, o.eq_iff k j, o.lt_irrefl k), lift_find k v l r a.1 e.1)

  -- Each entry is found under its key.
  pub Every-find : (l : List (K × V)) → IsAscending l → Every (λ k v. find k l ≡ some v) l
  unfolding find
  Every-find [] a = tt
  Every-find ((k, v) ∷ l) a =
      (ground (arith, o.eq_iff k k), lift_find k v l l a.0 (Every-find l a.1))

  pub select-Every {ℓ} :
      (p : K → Bool) (P : K → V → Type ℓ) (l : List (K × V))
      → Every P l
      → Every (λ k v. (p k ≡ true) × P k v) (select p l)
  unfolding select
  select-Every p P [] e = tt
  select-Every p P ((k, v) ∷ l) e = elim (Bool-cases (p k)) [
    | inl q ↦ rw q ((q, e.0), select-Every p P l e.1)
    | inr q ↦ rw q (select-Every p P l e.1)
  ]

  select-Above : (p : K → Bool) (j : K) (l : List (K × V)) → Above j l → Above j (select p l)
  unfolding select
  select-Above p j [] a = tt
  select-Above p j ((k, v) ∷ l) a = elim (Bool-cases (p k)) [
    | inl q ↦ rw q (a.0, select-Above p j l a.1)
    | inr q ↦ rw q (select-Above p j l a.1)
  ]

  pub select-IsAscending :
      (p : K → Bool) (l : List (K × V)) → IsAscending l → IsAscending (select p l)
  unfolding select
  select-IsAscending p [] a = tt
  select-IsAscending p ((k, v) ∷ l) a = elim (Bool-cases (p k)) [
    | inl q ↦ rw q (select-Above p k l a.0, select-IsAscending p l a.1)
    | inr q ↦ rw q (select-IsAscending p l a.1)
  ]

  -- Two tests that agree on the entries select the same ones.
  pub select-agree :
      (p q : K → Bool) (l : List (K × V)) → Every (λ k v. p k ≡ q k) l → select p l ≡ select q l
  unfolding select
  select-agree p q [] e = refl
  select-agree p q ((k, v) ∷ l) e = rw (e.0, select-agree p q l e.1)

  -- A test that no entry passes selects nothing.
  pub select-none :
      (p : K → Bool) (l : List (K × V)) → Every (λ k v. p k ≡ false) l → select p l ≡ []
  unfolding select
  select-none p [] e = refl
  select-none p ((k, v) ∷ l) e = rw (e.0, select-none p l e.1)
