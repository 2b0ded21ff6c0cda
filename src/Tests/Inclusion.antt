-- ===== src/Tests/Inclusion.antt =====
-- Tests of the inclusion proofs (crates/types/src/ethereum_compat/merkle.rs), with concatenation in
-- place of the hash function.
use ultramarine.Common.{
  ℕ, zero, suc, ◌/◌, ◌^◌, ◌≤◌, ◌<◌, ◌≡◌, refl, ap, ◌⊎◌, true, false, [], ◌∷◌, ◌++◌, List, arith,
  leb, if◌then◌else◌, replicate, length,
}
use ultramarine.Common.Result.{ok}
use ultramarine.Merkle.{
  MerkleApi, BeaconBlockBodyMinimal, from_ultramarine_data, generate_kzg_commitment_inclusion_proof,
  verify_kzg_commitment_inclusion_proof, compute_body_root,
}
use ultramarine.Merkle.Tree.{tree_root, siblings, leaf_at, pad, to_le}
use ultramarine.Merkle.Branch.{Clash}
use ultramarine.Merkle.{reconstruct_roots_from_proof, merkle_root_from_branch}
use ultramarine.Common.Ord.{bytes_ord}
use ultramarine.Common.{take, drop}
use ultramarine.Merkle.Inclusion.{list_path, verify-generate, verify_sound}
use native.Mathlib.Nat.{two-pow-succ}

-- The depth of the tree over a number of leaves.
pub depth_of : ℕ → ℕ → ℕ
depth_of zero n = 0
depth_of (suc f) n = let rest = depth_of f (n / 2) in if leb n 1 then 0 else suc rest

two-pow_pos : (d : ℕ) → 1 ≤ 2 ^ d
two-pow_pos zero = omega arith
two-pow_pos (suc d) = omega (arith, two-pow-succ d, two-pow_pos d)

two-pow_gt : (d : ℕ) → d < 2 ^ d
two-pow_gt zero = omega arith
two-pow_gt (suc d) = omega (arith, two-pow-succ d, two-pow_gt d)

depth_of_two-pow : (f d : ℕ) → d ≤ f → depth_of f (2 ^ d) ≡ d
unfolding depth_of
depth_of_two-pow zero d h = omega arith
depth_of_two-pow (suc f) zero h = refl
depth_of_two-pow (suc f) (suc d) h =
    let p = two-pow-succ d in
    let q = two-pow_pos d in
    let e : (2 ^ suc d) / 2 ≡ 2 ^ d = omega (arith, p) in
    let s : leb (2 ^ suc d) 1 ≡ false = ground (arith, p, q) in
    rw (s, e, depth_of_two-pow f d (omega arith)) refl

abbrev pub hasher : ℕ → List (List ℕ) → List ℕ
hasher n leaves = tree_root (λ a b. a ++ b) (depth_of n n) (pad n leaves)

pub hasher_lem :
    (d : ℕ) (leaves : List (List ℕ))
    → length leaves ≤ 2 ^ d
    → hasher (2 ^ d) leaves ≡ tree_root (λ a b. a ++ b) d (pad (2 ^ d) leaves)
hasher_lem d leaves h =
    ap (λ (k : ℕ). tree_root (λ a b. a ++ b) k (pad (2 ^ d) leaves))
      (depth_of_two-pow (2 ^ d) d (omega (arith, two-pow_gt d)))

abbrev pub toy_api : MerkleApi
toy_api = record {
  hash32_concat = λ a b. a ++ b;
  commitment_root = λ c. c;
  MerkleTree = List (List ℕ) × ℕ;
  create = λ leaves d. (leaves, d);
  tree_hash = λ t. tree_root (λ a b. a ++ b) t.1 t.0;
  generate_proof = λ t i d. ok (leaf_at t.0 i, siblings (λ a b. a ++ b) d t.0 i);
  merkle_hasher = hasher;
  mix_in_length = λ root n. root ++ (to_le 8 n ++ replicate 24 0);
  tree_hash-create = λ d leaves h. refl;
  generate_proof-create = λ d i leaves h k. refl;
  merkle_hasher_root = hasher_lem;
  mix_in_length_root = λ root n. refl;
}

abbrev toy_body : BeaconBlockBodyMinimal
toy_body = from_ultramarine_data ((1 ∷ []) ∷ (2 ∷ []) ∷ (3 ∷ []) ∷ []) (9 ∷ [])

verify-generate_example :
    (proof : List (List ℕ)) × (generate_kzg_commitment_inclusion_proof toy_api
        toy_body.blob_kzg_commitments 1 toy_body
      ≡ ok proof)
    × (verify_kzg_commitment_inclusion_proof toy_api
          (2 ∷ [])
          proof
          1
          (compute_body_root toy_api toy_body)
        ≡ true)
unfolding from_ultramarine_data
verify-generate_example = verify-generate toy_api toy_body 1 (2 ∷ []) refl (omega arith)

-- Two commitments that concatenation does not tell apart.
abbrev first_proof : List (List ℕ)
first_proof = (3 ∷ []) ∷ replicate 16 []

abbrev second_proof : List (List ℕ)
second_proof = [] ∷ replicate 16 []

first_accepted :
    verify_kzg_commitment_inclusion_proof toy_api (2 ∷ []) first_proof 0 (2 ∷ 3 ∷ []) ≡ true
unfolding verify_kzg_commitment_inclusion_proof reconstruct_roots_from_proof merkle_root_from_branch
first_accepted = refl

second_accepted :
    verify_kzg_commitment_inclusion_proof toy_api (2 ∷ 3 ∷ []) second_proof 0 (2 ∷ 3 ∷ []) ≡ true
unfolding verify_kzg_commitment_inclusion_proof reconstruct_roots_from_proof merkle_root_from_branch
second_accepted = refl

verify_sound_example :
    (◌≡◌ {A = List ℕ} (2 ∷ []) (2 ∷ 3 ∷ []) × (first_proof ≡ second_proof))
    ⊎ ((bytes_ord.eq (2 ∷ []) (2 ∷ 3 ∷ []) ≡ false) × ◌≡◌ {A = List ℕ} (2 ∷ []) (2 ∷ 3 ∷ []))
    ⊎ Clash toy_api (take 13 first_proof) (take 13 second_proof) (2 ∷ []) (2 ∷ 3 ∷ []) 0
    ⊎ Clash toy_api
        (drop 13 first_proof)
        (drop 13 second_proof)
        (list_path toy_api (2 ∷ []) first_proof 0)
        (list_path toy_api (2 ∷ 3 ∷ []) second_proof 0)
        11
verify_sound_example =
    verify_sound toy_api (2 ∷ []) (2 ∷ 3 ∷ []) first_proof second_proof 0 (2 ∷ 3 ∷ [])
      first_accepted second_accepted
