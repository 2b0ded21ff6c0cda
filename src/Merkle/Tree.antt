-- ===== src/Merkle/Tree.antt =====
-- Complete binary trees of hashes.
use ultramarine.Common.{
  ℕ, zero, suc, ◌-◌, ◌/◌, ◌%◌, ◌^◌, ◌≤◌, ◌≡◌, refl, List, [], ◌∷◌, ◌++◌, arith, length, take, drop,
  replicate, length-append, length-replicate, get_or, ltb, if◌then◌else◌,
}

-- The `w` bytes of `n`, the least significant first.
unfoldable pub to_le : ℕ → ℕ → List ℕ
to_le zero n = []
to_le (suc w) n = n % 256 ∷ to_le w (n / 256)

abbrev pub zero_leaf : List ℕ
zero_leaf = replicate 32 0

abbrev pub pad : ℕ → List (List ℕ) → List (List ℕ)
pad n l = l ++ replicate (n - length l) zero_leaf

abbrev pub leaf_at : List (List ℕ) → ℕ → List ℕ
leaf_at l i = get_or l i zero_leaf

-- The root of the complete tree of a depth over a list of leaves.
unfoldable pub tree_root : (List ℕ → List ℕ → List ℕ) → ℕ → List (List ℕ) → List ℕ
tree_root hash zero l = leaf_at l 0
tree_root hash (suc d) l =
    hash (tree_root hash d (take (2 ^ d) l)) (tree_root hash d (drop (2 ^ d) l))

-- The siblings on the way from a leaf up to the root.
unfoldable pub siblings : (List ℕ → List ℕ → List ℕ) → ℕ → List (List ℕ) → ℕ → List (List ℕ)
unfolding tree_root
siblings hash zero l i = []
siblings hash (suc d) l i =
    let left = siblings hash d (take (2 ^ d) l) i in
    let right = siblings hash d (drop (2 ^ d) l) (i - 2 ^ d) in
    if ltb i (2 ^ d)
    then left ++ tree_root hash d (drop (2 ^ d) l) ∷ []
    else right ++ tree_root hash d (take (2 ^ d) l) ∷ []

pub length-siblings :
    (hash : List ℕ → List ℕ → List ℕ) (d : ℕ) (l : List (List ℕ)) (i : ℕ)
    → length (siblings hash d l i) ≡ d
unfolding siblings
length-siblings hash zero l i = refl
length-siblings hash (suc d) l i =
    let a = length-siblings hash d (take (2 ^ d) l) i in
    let b = length-siblings hash d (drop (2 ^ d) l) (i - 2 ^ d) in
    ground (
      arith,
      a,
      b,
      length-append (siblings hash d (take (2 ^ d) l) i) (tree_root hash d (drop (2 ^ d) l) ∷ []),
      length-append (siblings hash d (drop (2 ^ d) l) (i - 2 ^ d))
          (tree_root hash d (take (2 ^ d) l) ∷ []),
    )

pub length-pad : (n : ℕ) (l : List (List ℕ)) → length l ≤ n → length (pad n l) ≡ n
length-pad n l h = omega (
  arith,
  length-append l (replicate (n - length l) zero_leaf),
  length-replicate (n - length l) zero_leaf,
)
