-- ===== src/Common/Ord.antt =====
-- Total orders by Boolean tests (`Ord` and `Eq` of Rust), on numbers, pairs and byte strings.
use mathlib.Core.List.{List, [], ◌∷◌}
use ultramarine.Common.Int.{ℤ, ltℤ, eqℤ, eqℤ_iff}
use ultramarine.Common.{
  ℕ, ◌≡◌, refl, ◌↔◌, Bool, true, false, ◌&&◌, ◌||◌, arith, ltb, ◌==◌ as nat_eq,
}

pub record Ord (K : Type 0) : Type 0 where
  pub lt : K → K → Bool
  pub eq : K → K → Bool
  pub eq_iff : (a b : K) → (eq a b ≡ true) ↔ (a ≡ b)
  pub lt_irrefl : (a : K) → lt a a ≡ false
  pub lt_trans : (a b c : K) → lt a b ≡ true → lt b c ≡ true → lt a c ≡ true
  pub lt_connex : (a b : K) → lt a b ≡ false → lt b a ≡ false → a ≡ b

pub lt_of_ne :
    {K : Type 0} ⦃o : Ord K⦄ (a b : K) → o.lt a b ≡ false → o.eq a b ≡ false → o.lt b a ≡ true
lt_of_ne ⦃o⦄ a b h n = ground (arith, o.lt_connex a b h, o.eq_iff a b)

pub nat_eq_iff : (a b : ℕ) → (nat_eq a b ≡ true) ↔ (a ≡ b)
nat_eq_iff a b = ground arith

pub nat_irrefl : (a : ℕ) → ltb a a ≡ false
nat_irrefl a = ground arith

pub nat_trans : (a b c : ℕ) → ltb a b ≡ true → ltb b c ≡ true → ltb a c ≡ true
nat_trans a b c h k = ground arith

pub nat_connex : (a b : ℕ) → ltb a b ≡ false → ltb b a ≡ false → a ≡ b
nat_connex a b h k = ground arith

instance abbrev pub nat_ord : Ord ℕ
nat_ord = record {
  lt = ltb;
  eq = nat_eq;
  eq_iff = nat_eq_iff;
  lt_irrefl = nat_irrefl;
  lt_trans = nat_trans;
  lt_connex = nat_connex;
}

pub int_irrefl : (a : ℤ) → ltℤ a a ≡ false
int_irrefl a = ground arith

pub int_trans : (a b c : ℤ) → ltℤ a b ≡ true → ltℤ b c ≡ true → ltℤ a c ≡ true
int_trans a b c h k = ground arith

pub int_connex : (a b : ℤ) → ltℤ a b ≡ false → ltℤ b a ≡ false → a ≡ b
int_connex a b h k = ground arith

instance abbrev pub int_ord : Ord ℤ
int_ord = record {
  lt = ltℤ;
  eq = eqℤ;
  eq_iff = eqℤ_iff;
  lt_irrefl = int_irrefl;
  lt_trans = int_trans;
  lt_connex = int_connex;
}

-- Pairs in lexicographic order, as tuples of Rust.
module _ {A B : Type 0} (a : Ord A) (b : Ord B) where
  abbrev pub pair_lt : A × B → A × B → Bool
  pair_lt (x, y) (x', y') = a.lt x x' || (a.eq x x' && b.lt y y')

  abbrev pub pair_eq : A × B → A × B → Bool
  pair_eq (x, y) (x', y') = a.eq x x' && b.eq y y'

  pub pair_eq_iff : (p q : A × B) → (pair_eq p q ≡ true) ↔ (p ≡ q)
  pair_eq_iff (x, y) (x', y') = ground (arith, a.eq_iff x x', b.eq_iff y y')

  pub pair_irrefl : (p : A × B) → pair_lt p p ≡ false
  pair_irrefl (x, y) = ground (arith, a.lt_irrefl x, b.lt_irrefl y)

  pub pair_trans : (p q r : A × B) → pair_lt p q ≡ true → pair_lt q r ≡ true → pair_lt p r ≡ true
  pair_trans (x, y) (x', y') (x'', y'') h k = ground (
    arith,
    a.eq_iff x x',
    a.eq_iff x' x'',
    a.eq_iff x x'',
    a.lt_trans x x' x'',
    b.lt_trans y y' y'',
  )

  pub pair_connex : (p q : A × B) → pair_lt p q ≡ false → pair_lt q p ≡ false → p ≡ q
  pair_connex (x, y) (x', y') h k =
      ground (arith, a.eq_iff x x', a.eq_iff x' x, a.lt_connex x x', b.lt_connex y y')

instance abbrev pub pair_ord : {A B : Type 0} ⦃a : Ord A⦄ ⦃b : Ord B⦄ → Ord (A × B)
pair_ord ⦃a⦄ ⦃b⦄ = record {
  lt = pair_lt a b;
  eq = pair_eq a b;
  eq_iff = pair_eq_iff a b;
  lt_irrefl = pair_irrefl a b;
  lt_trans = pair_trans a b;
  lt_connex = pair_connex a b;
}

-- Byte strings in lexicographic order, a prefix first.
abbrev pub bytes_lt : List ℕ → List ℕ → Bool
bytes_lt [] [] = false
bytes_lt [] (y ∷ ys) = true
bytes_lt (x ∷ xs) [] = false
bytes_lt (x ∷ xs) (y ∷ ys) = ltb x y || (nat_eq x y && bytes_lt xs ys)

abbrev pub bytes_eq : List ℕ → List ℕ → Bool
bytes_eq [] [] = true
bytes_eq [] (y ∷ ys) = false
bytes_eq (x ∷ xs) [] = false
bytes_eq (x ∷ xs) (y ∷ ys) = nat_eq x y && bytes_eq xs ys

pub bytes_eq_iff : (a b : List ℕ) → (bytes_eq a b ≡ true) ↔ (a ≡ b)
bytes_eq_iff [] [] = ground arith
bytes_eq_iff [] (y ∷ ys) = ground arith
bytes_eq_iff (x ∷ xs) [] = ground arith
bytes_eq_iff (x ∷ xs) (y ∷ ys) = ground (arith, bytes_eq_iff xs ys)

pub bytes_irrefl : (a : List ℕ) → bytes_lt a a ≡ false
bytes_irrefl [] = refl
bytes_irrefl (x ∷ xs) = ground (arith, bytes_irrefl xs)

pub bytes_trans : (a b c : List ℕ) → bytes_lt a b ≡ true → bytes_lt b c ≡ true → bytes_lt a c ≡ true
bytes_trans [] [] c h k = cc
bytes_trans [] (y ∷ ys) [] h k = cc
bytes_trans [] (y ∷ ys) (z ∷ zs) h k = refl
bytes_trans (x ∷ xs) [] c h k = cc
bytes_trans (x ∷ xs) (y ∷ ys) [] h k = cc
bytes_trans (x ∷ xs) (y ∷ ys) (z ∷ zs) h k = ground (arith, bytes_trans xs ys zs)

pub bytes_connex : (a b : List ℕ) → bytes_lt a b ≡ false → bytes_lt b a ≡ false → a ≡ b
bytes_connex [] [] h k = refl
bytes_connex [] (y ∷ ys) h k = cc
bytes_connex (x ∷ xs) [] h k = cc
bytes_connex (x ∷ xs) (y ∷ ys) h k = ground (arith, bytes_connex xs ys)

instance abbrev pub bytes_ord : Ord (List ℕ)
bytes_ord = record {
  lt = bytes_lt;
  eq = bytes_eq;
  eq_iff = bytes_eq_iff;
  lt_irrefl = bytes_irrefl;
  lt_trans = bytes_trans;
  lt_connex = bytes_connex;
}
