-- ===== src/Sidecar/Prepared.antt =====
-- The sidecars that a proposer prepares pass the verification of every validator
-- (`prepare_blob_sidecar_parts` and `verify_blob_sidecars` of crates/consensus/src/state.rs).
use ultramarine.Common.{
  ◌≤◌, ◌<◌, ℕ, zero, suc, ◌+◌, ◌≡◌, refl, ap, sym, inl, inr, subst, true, ◌&&◌, some, List, [], ◌∷◌,
  ◌==◌, arith, length, get_elem?, Bool-cases, map, drop, ltb,
}
use ultramarine.Common.Ord.{bytes_ord}
use ultramarine.Common.Result.{ok, map_err, bind_intro, require-true, demand-some}
use ultramarine.Types.Part.{BeaconBlockHeader, SignedBeaconBlockHeader, BlobSidecar}
use ultramarine.Types.Validator.{Validator, get_by_address}
use ultramarine.Types.Metadata.{ExecutionPayloadHeader}
use ultramarine.Metastore.{Tables, MetaDb}
use ultramarine.Merkle.{
  MerkleApi, compute_body_root, max_blob_commitments_per_block, from_ultramarine_data,
}
use ultramarine.Merkle.Inclusion.{verify-generate, get_elem?-lt}
use ultramarine.Proposal.{Signing}
use ultramarine.Sidecar.{
  ValueMetadata, BlobsBundle, body_of, verify_signature, sign_header,
  resolve_parent_root_for_height, verify_blob_sidecars, prepare_blob_sidecar_parts, make_sidecars,
  make_sidecar, validator_index, validator_index_from, merkle_error, build_sidecar_header_message,
}
use ultramarine.Sidecar.Accepted.{All, IsProven}
use ultramarine.Sidecar.Exact.{IsAccepted-verify_blob_sidecars}

pub get_by_address-index :
    (n : ℕ) (a : List ℕ) (l : List Validator) (v : Validator)
    → get_by_address a l ≡ some v
    → (i : ℕ) × (validator_index_from n a l ≡ some i)
unfolding get_by_address validator_index_from
get_by_address-index n a [] v e = absurd (ground (arith, e))
get_by_address-index n a (w ∷ l) v e = elim (Bool-cases (bytes_ord.eq w.address a)) [
  | inl p ↦ (n, rw p refl)
  | inr p ↦ let r = get_by_address-index (n + 1) a l v (ground (arith, e, p)) in (r.0, rw p r.1)
]

pub drop-get_elem? :
    {A : Type 0} (i : ℕ) (l : List A) (c : A) (cs : List A)
    → drop i l ≡ c ∷ cs
    → (get_elem? l i ≡ some c) × (drop (suc i) l ≡ cs)
drop-get_elem? zero [] c cs e = absurd (ground (arith, e))
drop-get_elem? zero (x ∷ l) c cs e = (ground (arith, e), ground (arith, e))
drop-get_elem? (suc i) [] c cs e = absurd (ground (arith, e))
drop-get_elem? (suc i) (x ∷ l) c cs e = drop-get_elem? i l c cs e

module _ (t : Tables) (api : MerkleApi) (signing : Signing)
    (hash_tree_root : BeaconBlockHeader → List ℕ) where
  -- The loop makes a sidecar for each blob, in order, each with the given header and a proof that
  -- verifies.
  pub make_sidecars_lem :
      (commitments : List (List ℕ)) (payload : ExecutionPayloadHeader)
      (header : SignedBeaconBlockHeader) (i : ℕ) (bs cs ps : List (List ℕ))
      → length commitments ≤ max_blob_commitments_per_block
      → drop i commitments ≡ cs
      → length bs ≡ length cs
      → length ps ≡ length cs
      → (l : List BlobSidecar) × (make_sidecars t api signing hash_tree_root commitments
            (body_of t api signing hash_tree_root commitments payload)
            header
            i
            bs
            cs
            ps
          ≡ ok l)
        × All (λ s. s.signed_block_header ≡ header) l
        × All
            (IsProven t api signing hash_tree_root commitments
              (compute_body_root api (body_of t api signing hash_tree_root commitments payload)))
            l
        × (map (λ s. s.kzg_commitment) l ≡ cs)
        × (map (λ s. s.blob) l ≡ bs)
        × (length l ≡ length cs)
  unfolding make_sidecars make_sidecar from_ultramarine_data
  make_sidecars_lem commitments payload header i [] [] ps k d n m =
      ([], refl, tt, tt, refl, refl, refl)
  make_sidecars_lem commitments payload header i [] (c ∷ cs) ps k d n m = absurd (omega (arith, n))
  make_sidecars_lem commitments payload header i (b ∷ bs) [] ps k d n m = absurd (omega (arith, n))
  make_sidecars_lem commitments payload header i (b ∷ bs) (c ∷ cs) [] k d n m =
      absurd (omega (arith, m))
  make_sidecars_lem commitments payload header i (b ∷ bs) (c ∷ cs) (p ∷ ps) k d n m =
      let (found, d') = drop-get_elem? i commitments c cs d in
      let body = body_of t api signing hash_tree_root commitments payload in
      let (proof, made, verified) = verify-generate api body i c found k in
      let (l, e, same, proven, keep, blobs, count) =
        make_sidecars_lem commitments payload header (i + 1) bs cs ps k
          (let f : i + 1 ≡ suc i = omega arith in rw f d') (omega (arith, n)) (omega (arith, m)) in
      let s : BlobSidecar = record {
        index = i;
        blob = b;
        kzg_commitment = c;
        kzg_proof = p;
        signed_block_header = header;
        kzg_commitment_inclusion_proof = proof;
      } in
      let small : ltb i 65536 ≡ true = ground (arith, k, get_elem?-lt commitments i c found) in
      (
        s ∷ l,
        bind_intro _ _ c _ (demand-some _ found) (
            bind_intro _ _ tt _ (require-true _ ((bytes_ord.eq_iff c c).1 refl)) (
              bind_intro _ _ s _
                (bind_intro _ _ proof _ (ap (map_err merkle_error) made)
                  (bind_intro _ _ tt _ (require-true _ small) refl))
                (bind_intro _ _ l _ e refl))),
        (refl, same),
        ((found, verified), proven),
        ap (λ x. c ∷ x) keep,
        ap (λ x. b ∷ x) blobs,
        omega (arith, count),
      )

  -- A proposer whose key is in the validator set, with a bundle that has the commitments of the
  -- proposal (at least one and at most 4096) and a blob and a proof for each, prepares sidecars: they
  -- have the commitments and the blobs of the bundle in order, and every node with the same
  -- validators and the same root of the decided block before accepts them for the height, the
  -- proposer and the metadata, with the header that the proposer signed.
  pub verify_blob_sidecars-prepare_blob_sidecar_parts :
      (db db' : MetaDb t) (validators : List Validator) (address : List ℕ) (height : ℕ)
      (metadata : ValueMetadata) (bundle : BlobsBundle) (v : Validator) (parent : List ℕ)
      → get_by_address address validators ≡ some v
      → v.public_key ≡ signing.public_key
      → bundle.commitments ≡ metadata.blob_kzg_commitments
      → length bundle.blobs ≡ length bundle.commitments
      → length bundle.proofs ≡ length bundle.commitments
      → 0 < length bundle.commitments
      → length bundle.commitments ≤ max_blob_commitments_per_block
      → resolve_parent_root_for_height t api signing hash_tree_root db height ≡ ok parent
      → resolve_parent_root_for_height t api signing hash_tree_root db' height ≡ ok parent
      → (header : SignedBeaconBlockHeader) × (l : List BlobSidecar) × (prepare_blob_sidecar_parts t
            api signing hash_tree_root db validators address height metadata
            (some bundle)
          ≡ ok (header, l))
        × (map (λ s. s.kzg_commitment) l ≡ bundle.commitments)
        × (map (λ s. s.blob) l ≡ bundle.blobs)
        × (verify_blob_sidecars t api signing hash_tree_root db' validators height address metadata
              l
            ≡ ok header)
  unfolding prepare_blob_sidecar_parts build_sidecar_header_message validator_index
  verify_blob_sidecars-prepare_blob_sidecar_parts db db' validators address height metadata bundle v
        parent known key same blobs proofs some_blob few here there =
      let cs = metadata.blob_kzg_commitments in
      let payload = metadata.execution_payload_header in
      let body_root = compute_body_root api (body_of t api signing hash_tree_root cs payload) in
      let (i, index) = get_by_address-index 0 address validators v known in
      let message : BeaconBlockHeader = record {
        slot = height;
        proposer_index = i;
        parent_root = parent;
        state_root = payload.state_root;
        body_root = body_root;
      } in
      let header = sign_header t api signing hash_tree_root message in
      let n = ap length same in
      let (l, made, headers, proven, keep, kept, count) =
        make_sidecars_lem cs payload header 0 bundle.blobs bundle.commitments bundle.proofs
          (omega (arith, few, n)) (sym same) blobs proofs in
      let sizes : (length cs == length bundle.commitments
            && length cs == length bundle.blobs
            && length cs == length bundle.proofs)
          ≡ true =
        ground (arith, n, blobs, proofs) in
      (
        header,
        l,
        bind_intro _ _ tt _ (require-true _ sizes) (
            bind_intro _ _ parent _ here (
              bind_intro _ _ message _ (bind_intro _ _ i _ (demand-some _ index) refl)
                (bind_intro _ _ l _ made refl))),
        keep,
        kept,
        IsAccepted-verify_blob_sidecars t api signing hash_tree_root db' validators height address
            metadata l header
            (record {
              v = v;
              same_header = headers;
              nonempty = omega (arith, count, some_blob);
              bounded = omega (arith, few, n);
              slot = refl;
              index = index;
              proposer_known = known;
              signed =
                  subst (λ k. verify_signature t api signing hash_tree_root header k ≡ true)
                    (sym key) (signing.verify-sign (hash_tree_root message));
              count = omega (arith, n, count);
              body = refl;
              parent = there;
              proven = proven;
            }),
      )
