-- ===== src/Merkle/Branch.antt =====
-- The loop of `merkle_root_from_branch` (crates/types/src/ethereum_compat/merkle.rs) over the paths
-- of a complete binary tree.
use ultramarine.Common.{
  ℕ, zero, suc, ◌+◌, ◌-◌, ◌/◌, ◌%◌, ◌^◌, ◌<◌, ◌≡◌, refl, sym, ap, ◌∙◌, ◌⊎◌, inl, inr, false, ◌&&◌,
  ◌==◌, List, [], ◌∷◌, ◌++◌, arith, length, take, drop, length-take, length-drop, get_or,
  Bool-cases, if◌then◌else◌, ltb,
}
use ultramarine.Common.Ord.{bytes_ord}
use ultramarine.Merkle.{MerkleApi, merkle_root_from_branch}
use ultramarine.Merkle.Tree.{leaf_at, tree_root, siblings, length-siblings, zero_leaf}
use native.Mathlib.Nat.{two-pow-succ}

pub get_or-take :
    {A : Type 0} (n i : ℕ) (l : List A) (d : A) → i < n → get_or (take n l) i d ≡ get_or l i d
get_or-take zero i l d h = elim h [ ]
get_or-take (suc n) i [] d h = refl
get_or-take (suc n) zero (x ∷ l) d h = refl
get_or-take (suc n) (suc i) (x ∷ l) d h = get_or-take n i l d (omega arith)

pub get_or-drop :
    {A : Type 0} (n i : ℕ) (l : List A) (d : A) → get_or (drop n l) i d ≡ get_or l (i + n) d
get_or-drop zero i l d = ground arith
get_or-drop (suc n) i [] d = refl
get_or-drop (suc n) i (x ∷ l) d =
    let e : i + suc n ≡ suc (i + n) = omega arith in rw e (get_or-drop n i l d)

module _ (api : MerkleApi) where
  -- The last sibling of a path: the bit above the others says on which side it stands.
  pub branch-snoc_left :
      (b : List (List ℕ)) (v s : List ℕ) (i : ℕ)
      → i < 2 ^ length b
      → merkle_root_from_branch api v (b ++ s ∷ []) i
        ≡ api.hash32_concat (merkle_root_from_branch api v b i) s
  unfolding merkle_root_from_branch
  branch-snoc_left [] v s i h = let e : i ≡ 0 = omega arith in rw e refl
  branch-snoc_left (t ∷ b) v s i h =
      branch-snoc_left b (if i % 2 == 1 then api.hash32_concat t v else api.hash32_concat v t) s
        (i / 2) (omega (arith, two-pow-succ (length b)))

  pub branch-snoc_right :
      (b : List (List ℕ)) (v s : List ℕ) (i j : ℕ)
      → i < 2 ^ length b
      → j ≡ i + 2 ^ length b
      → merkle_root_from_branch api v (b ++ s ∷ []) j
        ≡ api.hash32_concat s (merkle_root_from_branch api v b i)
  unfolding merkle_root_from_branch
  branch-snoc_right [] v s i j h e = let e' : j ≡ 1 = omega arith in rw e' refl
  branch-snoc_right (t ∷ b) v s i j h e =
      let p = two-pow-succ (length b) in
      let m : j % 2 ≡ i % 2 = omega (arith, p) in
      branch-snoc_right b (if j % 2 == 1 then api.hash32_concat t v else api.hash32_concat v t) s
        (i / 2) (j / 2) (omega (arith, p)) (omega (arith, p))
      ∙ ap
          (λ (x : ℕ). api.hash32_concat s (
            merkle_root_from_branch api
              (if x == 1 then api.hash32_concat t v else api.hash32_concat v t) b (i / 2)))
          m

  -- The siblings of a leaf lead to the root of the tree.
  pub branch-siblings :
      (d : ℕ) (l : List (List ℕ)) (i : ℕ)
      → length l ≡ 2 ^ d
      → i < 2 ^ d
      → merkle_root_from_branch api (leaf_at l i) (siblings api.hash32_concat d l i) i
        ≡ tree_root api.hash32_concat d l
  unfolding merkle_root_from_branch tree_root siblings
  branch-siblings zero l i n h = let e : i ≡ 0 = omega arith in rw e refl
  branch-siblings (suc d) l i n h =
      let p = two-pow-succ d in
      elim (Bool-cases (ltb i (2 ^ d))) [
        | inl e ↦
            let r = tree_root api.hash32_concat d (drop (2 ^ d) l) in
            let left = siblings api.hash32_concat d (take (2 ^ d) l) i in
            let lt : i < 2 ^ d = ground (arith, e) in
            let ih =
              branch-siblings d (take (2 ^ d) l) i (omega (arith, p, length-take (2 ^ d) l)) lt in
            let same = get_or-take (2 ^ d) i l zero_leaf lt in
            rw (e, if◌then◌else◌)
              (branch-snoc_left left (leaf_at l i) r i
                  (rw (length-siblings api.hash32_concat d (take (2 ^ d) l) i) lt)
                ∙ ap (λ x. api.hash32_concat x r)
                    (ap (λ x. merkle_root_from_branch api x left i) (sym same) ∙ ih))
        | inr e ↦
            let r = tree_root api.hash32_concat d (take (2 ^ d) l) in
            let right = siblings api.hash32_concat d (drop (2 ^ d) l) (i - 2 ^ d) in
            let lt : i - 2 ^ d < 2 ^ d = ground (arith, e, p) in
            let ge : i ≡ (i - 2 ^ d) + 2 ^ d = ground (arith, e) in
            let ih =
              branch-siblings d (drop (2 ^ d) l) (i - 2 ^ d)
                (omega (arith, p, length-drop (2 ^ d) l)) lt in
            let same = get_or-drop (2 ^ d) (i - 2 ^ d) l zero_leaf in
            rw (e, if◌then◌else◌)
              (branch-snoc_right right (leaf_at l i) r (i - 2 ^ d) i
                  (rw (length-siblings api.hash32_concat d (drop (2 ^ d) l) (i - 2 ^ d)) lt)
                  (rw (length-siblings api.hash32_concat d (drop (2 ^ d) l) (i - 2 ^ d)) ge)
                ∙ ap (λ x. api.hash32_concat r x)
                    (ap (λ x. merkle_root_from_branch api x right (i - 2 ^ d))
                        (ap (λ (k : ℕ). get_or l k zero_leaf) ge ∙ sym same)
                      ∙ ih))
      ]

module _ (api : MerkleApi) where
  -- One step of a path: the value joined with a sibling.
  abbrev pub joined : ℕ → List ℕ → List ℕ → List ℕ
  joined i s v = if i % 2 == 1 then api.hash32_concat s v else api.hash32_concat v s

  -- On the way up two paths of one length, at one of their steps, two different pairs of inputs have
  -- one hash.
  pub Clash : List (List ℕ) → List (List ℕ) → List ℕ → List ℕ → ℕ → Type 0
  Clash [] c v w i = ⊥
  Clash (s ∷ b) [] v w i = ⊥
  Clash (s ∷ b) (t ∷ c) v w i =
      (((bytes_ord.eq v w && bytes_ord.eq s t) ≡ false) × (joined i s v ≡ joined i t w))
      ⊎ Clash b c (joined i s v) (joined i t w) (i / 2)

  -- Two paths of one length and one index to the same root start at the same value and are the
  -- same, or clash.
  pub branch-injective :
      (b c : List (List ℕ)) (v w : List ℕ) (i : ℕ)
      → length b ≡ length c
      → merkle_root_from_branch api v b i ≡ merkle_root_from_branch api w c i
      → ((v ≡ w) × (b ≡ c)) ⊎ Clash b c v w i
  unfolding merkle_root_from_branch Clash
  branch-injective [] [] v w i n e = inl (e, refl)
  branch-injective [] (t ∷ c) v w i n e = absurd (omega (arith, n))
  branch-injective (s ∷ b) [] v w i n e = absurd (omega (arith, n))
  branch-injective (s ∷ b) (t ∷ c) v w i n e =
      elim (branch-injective b c (joined i s v) (joined i t w) (i / 2) (omega (arith, n)) e) [
        | inr x ↦ inr (inr x)
        | inl same ↦ elim (Bool-cases (bytes_ord.eq v w && bytes_ord.eq s t)) [
          | inr y ↦ inr (inl (y, same.0))
          | inl y ↦
              let f : v ≡ w = (bytes_ord.eq_iff v w).0 (ground (arith, y)) in
              let g : s ≡ t = (bytes_ord.eq_iff s t).0 (ground (arith, y)) in
              inl (f, cc (g, same.1))
        ]
      ]
