-- ===== src/Common/Bytes.antt =====
-- Big-endian byte strings: `to_be_bytes` and `from_be_bytes` of the fixed-width integers.
use Prim.Native.Nat.{ℕ, zero, suc, ◌+◌, ◌-◌, ◌*◌, ◌/◌, ◌%◌, ◌^◌, ◌<◌}
use mathlib.Core.Path.{◌≡◌, refl, ap}
use mathlib.Core.List.{List, [], ◌∷◌, ◌++◌}
use mathlib.Core.Bool.{Bool, true, false, ◌&&◌}
use mathlib.Core.Logic.{◌↔◌}
use native.Mathlib.Omega.{arith}
use native.Mathlib.Nat.{pow-suc}
use ultramarine.Common.Tests.{ltb, ◌==◌, if◌then◌else◌}
use ultramarine.Common.Lists.{length, length-append, take, drop}
use ultramarine.Common.Int.{ℤ, pos, negsuc}

-- The `w` low bytes of `n`, the most significant first.
unfoldable pub to_be : ℕ → ℕ → List ℕ
to_be zero n = []
to_be (suc w) n = to_be w (n / 256) ++ (n % 256) ∷ []

from_be_acc : ℕ → List ℕ → ℕ
from_be_acc acc [] = acc
from_be_acc acc (b ∷ bs) = from_be_acc (acc * 256 + b) bs

-- The number that a byte string stands for.
pub from_be : List ℕ → ℕ
unfolding from_be_acc
from_be bs = from_be_acc 0 bs

pub length-to_be : (w n : ℕ) → length (to_be w n) ≡ w
unfolding to_be
length-to_be zero n = refl
length-to_be (suc w) n =
    omega (arith, length-append (to_be w (n / 256)) ((n % 256) ∷ []), length-to_be w (n / 256))

from_be_acc-snoc :
    (acc : ℕ) (bs : List ℕ) (b : ℕ) → from_be_acc acc (bs ++ b ∷ []) ≡ from_be_acc acc bs * 256 + b
unfolding from_be_acc
from_be_acc-snoc acc [] b = refl
from_be_acc-snoc acc (c ∷ bs) b = from_be_acc-snoc (acc * 256 + c) bs b

div_bound : (w n : ℕ) → n < 256 ^ suc w → n / 256 < 256 ^ w
div_bound w n h = omega (arith, pow-suc 256 w)

-- A number of at most `w` bytes is read back.
pub from_be-to_be : (w n : ℕ) → n < 256 ^ w → from_be (to_be w n) ≡ n
unfolding from_be to_be
from_be-to_be zero n h = omega arith
from_be-to_be (suc w) n h = omega (
  arith,
  from_be_acc-snoc 0 (to_be w (n / 256)) (n % 256),
  from_be-to_be w (n / 256) (div_bound w n h),
)

-- The two's complement bit pattern of an `i64`.
abbrev pub to_bits64 : ℤ → ℕ
to_bits64 (pos n) = n
to_bits64 (negsuc n) = 2 ^ 64 - 1 - n

-- The `i64` of a bit pattern.
abbrev pub of_bits64 : ℕ → ℤ
of_bits64 w = if ltb w (2 ^ 63) then pos w else negsuc (2 ^ 64 - 1 - w)

-- The values of an `i64`.
abbrev pub IsI64 : ℤ → Type 0
IsI64 (pos n) = n < 2 ^ 63
IsI64 (negsuc n) = n < 2 ^ 63

pub of_bits64-to_bits64 : (r : ℤ) → IsI64 r → of_bits64 (to_bits64 r) ≡ r
of_bits64-to_bits64 (pos n) h = ground arith
of_bits64-to_bits64 (negsuc n) h = ground arith

pub to_bits64-lt : (r : ℤ) → IsI64 r → to_bits64 r < 2 ^ 64
to_bits64-lt (pos n) h = omega arith
to_bits64-lt (negsuc n) h = omega arith

-- `key.starts_with(prefix)`, with the prefix first.
unfoldable pub is_prefix : List ℕ → List ℕ → Bool
is_prefix [] k = true
is_prefix (p ∷ ps) [] = false
is_prefix (p ∷ ps) (k ∷ ks) = p == k && is_prefix ps ks

module _ {A : Type 0} where
  pub take-append : (n : ℕ) (xs ys : List A) → length xs ≡ n → take n (xs ++ ys) ≡ xs
  take-append zero [] ys h = refl
  take-append zero (x ∷ xs) ys h = absurd (omega arith)
  take-append (suc n) [] ys h = absurd (omega arith)
  take-append (suc n) (x ∷ xs) ys h = ap (λ l. x ∷ l) (take-append n xs ys (omega arith))

  pub drop-append : (n : ℕ) (xs ys : List A) → length xs ≡ n → drop n (xs ++ ys) ≡ ys
  drop-append zero [] ys h = refl
  drop-append zero (x ∷ xs) ys h = absurd (omega arith)
  drop-append (suc n) [] ys h = absurd (omega arith)
  drop-append (suc n) (x ∷ xs) ys h = drop-append n xs ys (omega arith)

pub is_prefix-append :
    (p xs ys : List ℕ) → length p ≡ length xs → (is_prefix p (xs ++ ys) ≡ true) ↔ (p ≡ xs)
unfolding is_prefix
is_prefix-append [] [] ys h = ground arith
is_prefix-append [] (x ∷ xs) ys h = absurd (omega arith)
is_prefix-append (p ∷ ps) [] ys h = absurd (omega arith)
is_prefix-append (p ∷ ps) (x ∷ xs) ys h = ground (arith, is_prefix-append ps xs ys (omega arith))

-- Distinct numbers of `w` bytes have distinct byte strings.
pub to_be-injective : (w m n : ℕ) → m < 256 ^ w → n < 256 ^ w → to_be w m ≡ to_be w n → m ≡ n
to_be-injective w m n hm hn e = cc (from_be-to_be w m hm, from_be-to_be w n hn, ap from_be e)

pub to_bits64-injective : (a b : ℤ) → IsI64 a → IsI64 b → to_bits64 a ≡ to_bits64 b → a ≡ b
to_bits64-injective a b ha hb e =
    cc (of_bits64-to_bits64 a ha, of_bits64-to_bits64 b hb, ap of_bits64 e)
