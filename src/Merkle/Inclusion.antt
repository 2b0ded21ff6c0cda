-- ===== src/Merkle/Inclusion.antt =====
-- Completeness and soundness of the inclusion proofs of crates/types/src/ethereum_compat/merkle.rs.
use ultramarine.Common.{
  ℕ, zero, suc, ◌+◌, ◌-◌, ◌^◌, ◌≤◌, ◌<◌, ◌≡◌, refl, sym, ap, ◌∙◌, ◌⊎◌, inl, inr, true, false, ◌&&◌,
  ◌==◌, List, [], ◌∷◌, ◌++◌, arith, length, take, drop, length-take, length-drop, length-append,
  take-append-drop, length-map, get_or, Bool-cases, ltb, some, none, Option-cases, replicate, map,
  get_elem?, leb,
}
use ultramarine.Common.Result.{ok, err}
use ultramarine.Common.Ord.{bytes_ord}
use ultramarine.Merkle.{
  MerkleApi, merkle_root_from_branch, verify_kzg_commitment_inclusion_proof, commitments_depth,
  body_depth, generate_kzg_commitment_inclusion_proof, reconstruct_roots_from_proof,
  compute_body_root, BeaconBlockBodyMinimal, first_leaves, commitments_subtree_proof,
  body_subtree_proof_with_body, tree_hash_kzg_commitments, MerkleError, too_many_commitments,
  index_out_of_bounds, commitment_leaves, body_merkle_leaves, tree_hash_empty_list, mix_length,
  blob_kzg_commitments_index, max_blob_commitments_per_block,
}
use ultramarine.Merkle.Tree.{
  leaf_at, tree_root, siblings, length-siblings, zero_leaf, to_le, length-pad, pad,
}
use ultramarine.Merkle.Branch.{branch-siblings, branch-snoc_left, branch-injective, Clash}

pub get_or-append :
    {A : Type 0} (l k : List A) (i : ℕ) (d : A) → i < length l → get_or (l ++ k) i d ≡ get_or l i d
get_or-append [] k i d h = elim h [ ]
get_or-append (x ∷ l) k zero d h = refl
get_or-append (x ∷ l) k (suc i) d h = get_or-append l k i d (omega arith)

pub get_or-map :
    {A B : Type 0} (f : A → B) (l : List A) (i : ℕ) (d : B) (a : A)
    → get_elem? l i ≡ some a
    → get_or (map f l) i d ≡ f a
get_or-map f [] i d a e = absurd (ground (arith, e))
get_or-map f (x ∷ l) zero d a e = ground (arith, e)
get_or-map f (x ∷ l) (suc i) d a e = get_or-map f l i d a e

pub get_elem?-lt : {A : Type 0} (l : List A) (i : ℕ) (a : A) → get_elem? l i ≡ some a → i < length l
get_elem?-lt [] i a e = absurd (ground (arith, e))
get_elem?-lt (x ∷ l) zero a e = omega arith
get_elem?-lt (x ∷ l) (suc i) a e = omega (arith, get_elem?-lt l i a e)

pub take-append_exact :
    {A : Type 0} (n : ℕ) (xs ys : List A) → length xs ≡ n → take n (xs ++ ys) ≡ xs
take-append_exact zero [] ys e = refl
take-append_exact zero (x ∷ xs) ys e = absurd (omega (arith, e))
take-append_exact (suc n) [] ys e = absurd (omega (arith, e))
take-append_exact (suc n) (x ∷ xs) ys e =
    ap (λ t. x ∷ t) (take-append_exact n xs ys (omega (arith, e)))

pub drop-append_exact :
    {A : Type 0} (n : ℕ) (xs ys : List A) → length xs ≡ n → drop n (xs ++ ys) ≡ ys
drop-append_exact zero [] ys e = refl
drop-append_exact zero (x ∷ xs) ys e = absurd (omega (arith, e))
drop-append_exact (suc n) [] ys e = absurd (omega (arith, e))
drop-append_exact (suc n) (x ∷ xs) ys e = drop-append_exact n xs ys (omega (arith, e))

pub take_all : {A : Type 0} (n : ℕ) (xs : List A) → length xs ≡ n → take n xs ≡ xs
take_all zero [] e = refl
take_all zero (x ∷ xs) e = absurd (omega (arith, e))
take_all (suc n) [] e = refl
take_all (suc n) (x ∷ xs) e = ap (λ t. x ∷ t) (take_all n xs (omega (arith, e)))

module _ (api : MerkleApi) where
  -- The last node of the list's branch.
  abbrev pub length_bytes : ℕ → List ℕ
  length_bytes n = to_le 8 n ++ replicate 24 0

  abbrev pub list_proof : List (List ℕ) → ℕ → List (List ℕ)
  list_proof cs i =
      siblings api.hash32_concat commitments_depth (commitment_leaves api cs) i
      ++ length_bytes (length cs) ∷ []

  abbrev pub list_root : List (List ℕ) → List ℕ
  list_root cs =
      api.hash32_concat (tree_root api.hash32_concat commitments_depth (commitment_leaves api cs))
        (length_bytes (length cs))

  pub length-commitment_leaves :
      (cs : List (List ℕ))
      → length cs ≤ 2 ^ commitments_depth
      → length (commitment_leaves api cs) ≡ 2 ^ commitments_depth
  length-commitment_leaves cs h =
      length-pad (2 ^ commitments_depth) (map (λ c. api.commitment_root c) cs)
        (rw (length-map cs (λ c. api.commitment_root c)) h)

  pub list_proof_lem :
      (cs : List (List ℕ)) (i : ℕ)
      → length cs ≤ 2 ^ commitments_depth
      → i < 2 ^ commitments_depth
      → commitments_subtree_proof api cs i ≡ ok (list_proof cs i, list_root cs)
  unfolding commitments_subtree_proof
  list_proof_lem cs i h k =
      let n = length-commitment_leaves cs h in
      let g = api.generate_proof-create commitments_depth i (commitment_leaves api cs) n k in
      let t = api.tree_hash-create commitments_depth (commitment_leaves api cs) n in
      let m =
        api.mix_in_length_root
          (tree_root api.hash32_concat commitments_depth (commitment_leaves api cs)) (length cs) in
      let s : ltb (2 ^ commitments_depth) (length cs) ≡ false = ground (arith, h) in
      rw s (rw g (rw t (rw m refl)))

  pub length-body_merkle_leaves :
      (root : List ℕ) (body : BeaconBlockBodyMinimal)
      → length (body_merkle_leaves api body root) ≡ 2 ^ body_depth
  unfolding body_merkle_leaves first_leaves
  length-body_merkle_leaves root body = refl

  pub leaf_at-body_merkle_leaves :
      (root : List ℕ) (body : BeaconBlockBodyMinimal)
      → leaf_at (body_merkle_leaves api body root) blob_kzg_commitments_index ≡ root
  unfolding body_merkle_leaves first_leaves
  leaf_at-body_merkle_leaves root body = refl

  pub body_proof_lem :
      (root : List ℕ) (body : BeaconBlockBodyMinimal)
      → body_subtree_proof_with_body api root body
        ≡ ok (
            siblings api.hash32_concat body_depth
              (body_merkle_leaves api body root)
              blob_kzg_commitments_index)
  unfolding body_subtree_proof_with_body
  body_proof_lem root body =
      rw
        (
          body_subtree_proof_with_body,
          api.generate_proof-create body_depth blob_kzg_commitments_index
              (body_merkle_leaves api body root) (length-body_merkle_leaves root body)
              (omega arith),
        )
        refl

  -- The root that the hasher computes is the root of the tree over the padded leaves.
  pub empty_root_lem : tree_hash_empty_list api ≡ api.mix_in_length zero_leaf 0
  unfolding tree_hash_empty_list mix_length
  empty_root_lem = sym (api.mix_in_length_root zero_leaf 0)

  pub compute_body_root_lem :
      (body : BeaconBlockBodyMinimal)
      → compute_body_root api body
        ≡ tree_root api.hash32_concat body_depth
            (body_merkle_leaves api body (tree_hash_kzg_commitments api body.blob_kzg_commitments))
  unfolding compute_body_root body_merkle_leaves first_leaves
  compute_body_root_lem body =
      let leaves = λ (empty : List ℕ).
        first_leaves api empty body
        ++ tree_hash_kzg_commitments api body.blob_kzg_commitments ∷ [] in
      api.merkle_hasher_root body_depth (leaves (tree_hash_empty_list api)) (omega arith)
      ∙ ap (λ e. tree_root api.hash32_concat body_depth (pad (2 ^ body_depth) (leaves e)))
          empty_root_lem

  pub mixed_root_lem :
      (leaves : List (List ℕ)) (n : ℕ)
      → length leaves ≡ 2 ^ commitments_depth
      → mix_length api
          (api.tree_hash (api.create (take (2 ^ commitments_depth) leaves) commitments_depth))
          n
        ≡ api.hash32_concat (tree_root api.hash32_concat commitments_depth leaves) (length_bytes n)
  unfolding mix_length
  mixed_root_lem leaves n h =
      rw
        (take_all (2 ^ commitments_depth) leaves h, api.tree_hash-create commitments_depth leaves h)
        refl

  pub tree_hash_kzg_commitments_lem :
      (c : List ℕ) (cs : List (List ℕ))
      → length (c ∷ cs) ≤ 2 ^ commitments_depth
      → tree_hash_kzg_commitments api (c ∷ cs) ≡ list_root (c ∷ cs)
  unfolding tree_hash_kzg_commitments
  tree_hash_kzg_commitments_lem c cs h =
      mixed_root_lem (commitment_leaves api (c ∷ cs)) (length (c ∷ cs))
        (length-commitment_leaves (c ∷ cs) h)

  pub leaf_at-commitment_leaves :
      (cs : List (List ℕ)) (i : ℕ) (c : List ℕ)
      → get_elem? cs i ≡ some c
      → leaf_at (commitment_leaves api cs) i ≡ api.commitment_root c
  leaf_at-commitment_leaves cs i c e =
      let f : List ℕ → List ℕ = λ x. api.commitment_root x in
      get_or-append (map f cs) (replicate (2 ^ commitments_depth - length (map f cs)) zero_leaf) i
        zero_leaf (omega (arith, length-map cs f, get_elem?-lt cs i c e))
      ∙ get_or-map f cs i zero_leaf c e

  pub subtree_too_many :
      (cs : List (List ℕ)) (i : ℕ)
      → ltb 4096 (length cs) ≡ true
      → commitments_subtree_proof api cs i ≡ err too_many_commitments
  unfolding commitments_subtree_proof
  subtree_too_many cs i p = rw p refl

  pub generate_err :
      (cs : List (List ℕ)) (i : ℕ) (body : BeaconBlockBodyMinimal)
      → ltb 4096 (length cs) ≡ true
      → (e : MerkleError) × (generate_kzg_commitment_inclusion_proof api cs i body ≡ err e)
  unfolding generate_kzg_commitment_inclusion_proof
  generate_err [] i body p = absurd (ground (arith, p))
  generate_err (c ∷ cs) i body p = elim (Bool-cases (leb (length (c ∷ cs)) i)) [
    | inl q ↦ (index_out_of_bounds i, rw q refl)
    | inr q ↦ (too_many_commitments, rw (q, subtree_too_many (c ∷ cs) i p) refl)
  ]

  -- A proof is generated for at most 4096 commitments.
  pub generate_bounded :
      (cs : List (List ℕ)) (i : ℕ) (body : BeaconBlockBodyMinimal) (proof : List (List ℕ))
      → generate_kzg_commitment_inclusion_proof api cs i body ≡ ok proof
      → length cs ≤ max_blob_commitments_per_block
  generate_bounded cs i body proof e = elim (Bool-cases (ltb 4096 (length cs))) [
    | inl p ↦ absurd (let q = generate_err cs i body p in ground (arith, q.1, e))
    | inr p ↦ ground (arith, p)
  ]

  pub verify-reconstruct :
      (c : List ℕ) (proof : List (List ℕ)) (i : ℕ) (root : List ℕ)
      → verify_kzg_commitment_inclusion_proof api c proof i root ≡ true
      → (r : List ℕ × List ℕ) × (reconstruct_roots_from_proof api c proof i ≡ some r)
  unfolding verify_kzg_commitment_inclusion_proof
  verify-reconstruct c proof i root e =
      elim (Option-cases (reconstruct_roots_from_proof api c proof i)) [
        | inl p ↦
            absurd (let f = rw (p, verify_kzg_commitment_inclusion_proof) at e in ground (arith, f))
        | inr r ↦ r
      ]

  -- The two parts of a generated proof, and the roots that they lead to.
  pub generate_lem :
      (cs : List (List ℕ)) (i : ℕ) (body : BeaconBlockBodyMinimal)
      → i < length cs
      → length cs ≤ 2 ^ commitments_depth
      → generate_kzg_commitment_inclusion_proof api cs i body
        ≡ ok (
            list_proof cs i
            ++ siblings api.hash32_concat body_depth
                (body_merkle_leaves api body (list_root cs))
                blob_kzg_commitments_index)
  unfolding generate_kzg_commitment_inclusion_proof
  generate_lem [] i body h k = elim h [ ]
  generate_lem (c ∷ cs) i body h k =
      let s : leb (length (c ∷ cs)) i ≡ false = ground (arith, h) in
      rw (s, list_proof_lem (c ∷ cs) i k (omega arith), body_proof_lem (list_root (c ∷ cs)) body)
        refl

  pub roots_lem :
      (cs : List (List ℕ)) (i : ℕ) (c : List ℕ) (rest : List (List ℕ))
      → get_elem? cs i ≡ some c
      → length cs ≤ 2 ^ commitments_depth
      → length rest ≡ body_depth
      → reconstruct_roots_from_proof api c (list_proof cs i ++ rest) i
        ≡ some (
          list_root cs,
          merkle_root_from_branch api (list_root cs) rest blob_kzg_commitments_index,
        )
  unfolding reconstruct_roots_from_proof
  roots_lem cs i c rest e k n =
      let i_lt = get_elem?-lt cs i c e in
      let m = length-commitment_leaves cs k in
      let path = siblings api.hash32_concat commitments_depth (commitment_leaves api cs) i in
      let l : length (list_proof cs i) ≡ commitments_depth + 1 = omega (
        arith,
        length-append path (length_bytes (length cs) ∷ []),
        length-siblings api.hash32_concat commitments_depth (commitment_leaves api cs) i,
      ) in
      let whole : length (list_proof cs i ++ rest) ≡ 17 =
        omega (arith, l, n, length-append (list_proof cs i) rest) in
      let test : (length (list_proof cs i ++ rest) == 17 && ltb i 4096) ≡ true =
        ground (arith, whole, i_lt, k) in
      let fst = take-append_exact 13 (list_proof cs i) rest l in
      let snd = drop-append_exact 13 (list_proof cs i) rest l in
      let up : merkle_root_from_branch api (api.commitment_root c) (list_proof cs i) i
          ≡ list_root cs =
        branch-snoc_left api path (api.commitment_root c) (length_bytes (length cs)) i (
          rw (length-siblings api.hash32_concat commitments_depth (commitment_leaves api cs) i)
            (omega (arith, i_lt, k)))
        ∙ ap (λ x. api.hash32_concat x (length_bytes (length cs)))
            (ap (λ x. merkle_root_from_branch api x path i)
                (sym (leaf_at-commitment_leaves cs i c e))
              ∙ branch-siblings api commitments_depth (commitment_leaves api cs) i m
                  (omega (arith, i_lt, k))) in
      rw (test, fst, snd, up) refl

  pub nonempty_root_lem :
      (cs : List (List ℕ))
      → 0 < length cs
      → length cs ≤ max_blob_commitments_per_block
      → tree_hash_kzg_commitments api cs ≡ list_root cs
  nonempty_root_lem [] h k = elim h [ ]
  nonempty_root_lem (c ∷ cs) h k = tree_hash_kzg_commitments_lem c cs k

  pub body_branch_lem :
      (body : BeaconBlockBodyMinimal) (root : List ℕ)
      → tree_hash_kzg_commitments api body.blob_kzg_commitments ≡ root
      → merkle_root_from_branch api root
          (siblings api.hash32_concat body_depth
            (body_merkle_leaves api body root)
            blob_kzg_commitments_index)
          blob_kzg_commitments_index
        ≡ compute_body_root api body
  body_branch_lem body root e =
      let leaves = body_merkle_leaves api body root in
      ap
        (λ x.
          merkle_root_from_branch api x
            (siblings api.hash32_concat body_depth leaves blob_kzg_commitments_index)
            blob_kzg_commitments_index)
        (sym (leaf_at-body_merkle_leaves root body))
      ∙ branch-siblings api body_depth leaves blob_kzg_commitments_index
          (length-body_merkle_leaves root body) (omega arith)
      ∙ ap (λ x. tree_root api.hash32_concat body_depth (body_merkle_leaves api body x)) (sym e)
      ∙ sym (compute_body_root_lem body)

  -- For every commitment of a body with at most 4096 of them, the generated proof exists, and the
  -- verifier accepts it at the index of the commitment and the root of the body.
  pub verify-generate :
      (body : BeaconBlockBodyMinimal) (i : ℕ) (c : List ℕ)
      → get_elem? body.blob_kzg_commitments i ≡ some c
      → length body.blob_kzg_commitments ≤ max_blob_commitments_per_block
      → (proof : List (List ℕ)) × (generate_kzg_commitment_inclusion_proof api
            body.blob_kzg_commitments i body
          ≡ ok proof)
        × (verify_kzg_commitment_inclusion_proof api c proof i (compute_body_root api body) ≡ true)
  unfolding verify_kzg_commitment_inclusion_proof
  verify-generate body i c e k =
      let cs = body.blob_kzg_commitments in
      let rest =
        siblings api.hash32_concat body_depth (body_merkle_leaves api body (list_root cs))
          blob_kzg_commitments_index in
      (
        list_proof cs i ++ rest,
        generate_lem cs i body (get_elem?-lt cs i c e) k,
        rw
            (
              verify_kzg_commitment_inclusion_proof,
              roots_lem cs i c rest e k (
                  length-siblings api.hash32_concat body_depth
                    (body_merkle_leaves api body (list_root cs)) blob_kzg_commitments_index),
            )
            ((bytes_ord.eq_iff
                (merkle_root_from_branch api (list_root cs) rest blob_kzg_commitments_index)
                (compute_body_root api body)).1
              (body_branch_lem body (list_root cs)
                (nonempty_root_lem cs (omega (arith, get_elem?-lt cs i c e)) k))),
      )

  pub reconstruct_some :
      (c : List ℕ) (proof : List (List ℕ)) (i : ℕ)
      → (length proof == 17 && ltb i 4096) ≡ true
      → reconstruct_roots_from_proof api c proof i
        ≡ some (
          merkle_root_from_branch api (api.commitment_root c) (take 13 proof) i,
          merkle_root_from_branch api
              (merkle_root_from_branch api (api.commitment_root c) (take 13 proof) i)
              (drop 13 proof)
              11,
        )
  unfolding reconstruct_roots_from_proof
  reconstruct_some c proof i e = rw e refl

  pub reconstruct_none :
      (c : List ℕ) (proof : List (List ℕ)) (i : ℕ)
      → (length proof == 17 && ltb i 4096) ≡ false
      → reconstruct_roots_from_proof api c proof i ≡ none
  unfolding reconstruct_roots_from_proof
  reconstruct_none c proof i e = rw e refl

  pub verify_inv :
      (c : List ℕ) (proof : List (List ℕ)) (i : ℕ) (root : List ℕ)
      → verify_kzg_commitment_inclusion_proof api c proof i root ≡ true
      → (length proof ≡ 17)
        × (merkle_root_from_branch api
              (merkle_root_from_branch api (api.commitment_root c) (take 13 proof) i)
              (drop 13 proof)
              11
            ≡ root)
  unfolding verify_kzg_commitment_inclusion_proof
  verify_inv c proof i root h = elim (Bool-cases (length proof == 17 && ltb i 4096)) [
    | inl e ↦ (
      ground (arith, e),
      (bytes_ord.eq_iff
            (merkle_root_from_branch api
              (merkle_root_from_branch api (api.commitment_root c) (take 13 proof) i)
              (drop 13 proof) 11)
            root).0
          (rw (reconstruct_some c proof i e, verify_kzg_commitment_inclusion_proof) at h),
    )
    | inr e ↦ absurd (
        let f = rw (reconstruct_none c proof i e, verify_kzg_commitment_inclusion_proof) at h in
        ground (arith, f))
  ]

  abbrev pub list_path : List ℕ → List (List ℕ) → ℕ → List ℕ
  list_path c proof i = merkle_root_from_branch api (api.commitment_root c) (take 13 proof) i

  -- Where the verifier accepts two commitments with their proofs at one index for one body root, the
  -- commitments and the proofs are the same, or the commitments are different and have one root, or
  -- the two proofs, followed step by step, give two different pairs of inputs with one hash: in
  -- their first 13 entries, from the roots of the commitments on, or in the others, from the values
  -- that the first ones lead to.
  pub verify_sound :
      (c c' : List ℕ) (proof proof' : List (List ℕ)) (i : ℕ) (root : List ℕ)
      → verify_kzg_commitment_inclusion_proof api c proof i root ≡ true
      → verify_kzg_commitment_inclusion_proof api c' proof' i root ≡ true
      → ((c ≡ c') × (proof ≡ proof'))
        ⊎ ((bytes_ord.eq c c' ≡ false) × (api.commitment_root c ≡ api.commitment_root c'))
        ⊎ Clash api
            (take 13 proof)
            (take 13 proof')
            (api.commitment_root c)
            (api.commitment_root c')
            i
        ⊎ Clash api
            (drop 13 proof)
            (drop 13 proof')
            (list_path c proof i)
            (list_path c' proof' i)
            11
  verify_sound c c' proof proof' i root h h' =
      let p = verify_inv c proof i root h in
      let q = verify_inv c' proof' i root h' in
      elim (branch-injective api (drop 13 proof) (drop 13 proof') (list_path c proof i)
        (list_path c' proof' i) 11
        (omega (arith, p.0, q.0, length-drop 13 proof, length-drop 13 proof')) (p.1 ∙ sym q.1)) [
          | inr x ↦ inr (inr (inr x))
          | inl above ↦
              elim (branch-injective api (take 13 proof) (take 13 proof') (api.commitment_root c)
                (api.commitment_root c') i
                (omega (arith, p.0, q.0, length-take 13 proof, length-take 13 proof')) above.0) [
                  | inr x ↦ inr (inr (inl x))
                  | inl below ↦ elim (Bool-cases (bytes_ord.eq c c')) [
                    | inr y ↦ inr (inl (y, below.0))
                    | inl y ↦ inl (
                      (bytes_ord.eq_iff c c').0 y,
                      sym (take-append-drop 13 proof)
                          ∙ cc (below.1, above.1)
                          ∙ take-append-drop 13 proof',
                    )
                  ]
                ]
        ]
