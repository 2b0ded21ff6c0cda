-- ===== src/Commit/Bounds.antt =====
-- The height that a commit prunes to (`commit` of crates/consensus/src/state.rs).
use ultramarine.Common.{ℕ, suc, ◌+◌, ◌-◌, ◌≤◌, ◌<◌, ◌≡◌, List, [], ◌∷◌, arith, max}
use ultramarine.Commit.{retain_height}

-- A list of heights in rising order, from a bound on.
abbrev pub Rising : ℕ → List ℕ → Type 0
Rising b [] = Unit
Rising b (p ∷ l) = (b ≤ p) × Rising (suc p) l

abbrev pub NotAbove : ℕ → List ℕ → Type 0
NotAbove b [] = Unit
NotAbove b (p ∷ l) = (b ≤ p) × NotAbove b l

pub Rising-NotAbove : (b k : ℕ) (l : List ℕ) → b ≤ k → Rising k l → NotAbove b l
Rising-NotAbove b k [] h r = tt
Rising-NotAbove b k (p ∷ l) h r =
    (omega (arith, r.0), Rising-NotAbove b (suc p) l (omega (arith, r.0)) r.1)

-- The height that a commit prunes to is not above the height of the certificate, nor above any
-- height that waits for its archival; with none waiting, the last heights of the retention window,
-- at least one, are kept.
pub retain_height_bounds :
    (height window : ℕ) (waiting : List ℕ)
    → Rising 0 waiting
    → (retain_height height window waiting ≤ height)
      × NotAbove (retain_height height window waiting) waiting
      × (waiting ≡ [] → height < retain_height height window waiting + max window 1)
      × (retain_height height window waiting ≤ height - (max window 1 - 1))
unfolding retain_height
retain_height_bounds height window [] r = (omega arith, tt, λ e. omega arith, omega arith)
retain_height_bounds height window (p ∷ l) r = (
  ground arith,
  (ground arith, Rising-NotAbove _ (suc p) l (ground arith) r.1),
  λ e. absurd (ground (arith, e)),
  ground arith,
)
