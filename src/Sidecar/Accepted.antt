-- ===== src/Sidecar/Accepted.antt =====
-- What an accepted list of sidecars satisfies (`verify_blob_sidecars` of crates/consensus/src/state.rs).
use ultramarine.Common.{
  ◌≤◌, ◌<◌, ℕ, ◌≡◌, ◌∙◌, refl, ap, sym, inl, inr, subst, true, some, List, [], ◌∷◌, ◌==◌, ==_iff,
  arith, length, get_elem?, Bool-cases,
}
use ultramarine.Common.Ord.{bytes_ord}
use ultramarine.Common.Result.{
  ok, require, demand, map_err, bind-ok, require-ok, demand-ok, map_err-ok,
}
use ultramarine.Types.Part.{BeaconBlockHeader, SignedBeaconBlockHeader, BlobSidecar}
use ultramarine.Types.Validator.{Validator, get_by_address}
use ultramarine.Metastore.{Tables, MetaDb}
use ultramarine.Merkle.{
  MerkleApi, BeaconBlockBodyMinimal, compute_body_root, verify_kzg_commitment_inclusion_proof,
  max_blob_commitments_per_block, reconstruct_roots_from_proof,
  generate_kzg_commitment_inclusion_proof,
}
use ultramarine.Merkle.Inclusion.{generate_bounded}
use ultramarine.Proposal.{Signing}
use ultramarine.Sidecar.{
  ValueMetadata, eq_signed, same_headers, body_of, verify_signature, resolve_parent_root_for_height,
  check_sidecar, check_sidecars, verify_blob_sidecars, validator_index, inconsistent_headers,
  wrong_slot, unknown_proposer, wrong_proposer_index, invalid_signature, count_mismatch,
  wrong_body_root, wrong_parent_root, commitment_mismatch, index_out_of_range,
  invalid_inclusion_proof, merkle_error,
}

pub eq_signed-true : (a b : SignedBeaconBlockHeader) → eq_signed a b ≡ true → a ≡ b
unfolding eq_signed
eq_signed-true a b e = ground (
  arith,
  bytes_ord.eq_iff a.message.parent_root b.message.parent_root,
  bytes_ord.eq_iff a.message.state_root b.message.state_root,
  bytes_ord.eq_iff a.message.body_root b.message.body_root,
  bytes_ord.eq_iff a.signature b.signature,
)

abbrev pub All : (BlobSidecar → Type 0) → List BlobSidecar → Type 0
All P [] = Unit
All P (s ∷ l) = P s × All P l

pub same_headers-All :
    (h : SignedBeaconBlockHeader) (l : List BlobSidecar)
    → same_headers h l ≡ true
    → All (λ s. s.signed_block_header ≡ h) l
unfolding same_headers
same_headers-All h [] e = tt
same_headers-All h (s ∷ l) e = elim (Bool-cases (eq_signed s.signed_block_header h)) [
  | inl p ↦ (eq_signed-true s.signed_block_header h p, same_headers-All h l (ground (arith, e, p)))
  | inr p ↦ absurd (ground (arith, e, p))
]

module _ (t : Tables) (api : MerkleApi) (signing : Signing)
    (hash_tree_root : BeaconBlockHeader → List ℕ) where
  -- What one sidecar of an accepted proposal shows.
  abbrev pub IsProven : List (List ℕ) → List ℕ → BlobSidecar → Type 0
  IsProven commitments body_root s =
      (get_elem? commitments s.index ≡ some s.kzg_commitment)
      × (verify_kzg_commitment_inclusion_proof api s.kzg_commitment s.kzg_commitment_inclusion_proof
            s.index body_root
          ≡ true)

  pub check_sidecar-IsProven :
      (commitments : List (List ℕ)) (body : BeaconBlockBodyMinimal) (body_root : List ℕ)
      (s : BlobSidecar)
      → check_sidecar t api signing hash_tree_root commitments body body_root s ≡ ok tt
      → IsProven commitments body_root s
  unfolding check_sidecar
  check_sidecar-IsProven commitments body body_root s e =
      let (c, p1, e1) =
        bind-ok (demand (get_elem? commitments s.index) (index_out_of_range s.index)) _ tt e in
      let (_, p2, e2) =
        bind-ok (require (bytes_ord.eq c s.kzg_commitment) (commitment_mismatch s.index)) _ tt e1 in
      let (r, p3, e3) =
        bind-ok
          (demand
            (reconstruct_roots_from_proof api s.kzg_commitment s.kzg_commitment_inclusion_proof
              s.index)
            (invalid_inclusion_proof s.index))
          _ tt e2 in
      let (g, p4, e4) =
        bind-ok
          (map_err merkle_error
            (generate_kzg_commitment_inclusion_proof api commitments s.index body))
          _ tt e3 in
      (
        demand-ok _ p1 ∙ ap some ((bytes_ord.eq_iff c s.kzg_commitment).0 (require-ok _ p2)),
        require-ok _ e4,
      )

  pub check_sidecars-All :
      (commitments : List (List ℕ)) (body : BeaconBlockBodyMinimal) (body_root : List ℕ)
      (l : List BlobSidecar)
      → check_sidecars t api signing hash_tree_root commitments body body_root l ≡ ok tt
      → All (IsProven commitments body_root) l
  unfolding check_sidecars
  check_sidecars-All commitments body body_root [] e = tt
  check_sidecars-All commitments body body_root (s ∷ l) e =
      let (_, p1, e1) =
        bind-ok (check_sidecar t api signing hash_tree_root commitments body body_root s) _ tt e in
      (
        check_sidecar-IsProven commitments body body_root s p1,
        check_sidecars-All commitments body body_root l e1,
      )

  pub check_sidecars_bounded :
      (commitments : List (List ℕ)) (body : BeaconBlockBodyMinimal) (body_root : List ℕ)
      (s : BlobSidecar) (l : List BlobSidecar)
      → check_sidecars t api signing hash_tree_root commitments body body_root (s ∷ l) ≡ ok tt
      → length commitments ≤ max_blob_commitments_per_block
  unfolding check_sidecars check_sidecar
  check_sidecars_bounded commitments body body_root s l e =
      let (_, p, _) =
        bind-ok (check_sidecar t api signing hash_tree_root commitments body body_root s) _ tt e in
      let (c, _, e1) =
        bind-ok (demand (get_elem? commitments s.index) (index_out_of_range s.index)) _ tt p in
      let (_, _, e2) =
        bind-ok (require (bytes_ord.eq c s.kzg_commitment) (commitment_mismatch s.index)) _ tt e1 in
      let (r, _, e3) =
        bind-ok
          (demand
            (reconstruct_roots_from_proof api s.kzg_commitment s.kzg_commitment_inclusion_proof
              s.index)
            (invalid_inclusion_proof s.index))
          _ tt e2 in
      let (g, p4, _) =
        bind-ok
          (map_err merkle_error
            (generate_kzg_commitment_inclusion_proof api commitments s.index body))
          _ tt e3 in
      generate_bounded api commitments s.index body g (map_err-ok merkle_error p4)

  -- Acceptance, in full.
  pub record IsAccepted (db : MetaDb t) (validators : List Validator) (height : ℕ)
      (proposer : List ℕ) (metadata : ValueMetadata) (l : List BlobSidecar)
      (header : SignedBeaconBlockHeader) : Type 0 where
    pub v : Validator
    pub same_header : All (λ s. s.signed_block_header ≡ header) l
    pub nonempty : 0 < length l
    pub bounded : length metadata.blob_kzg_commitments ≤ max_blob_commitments_per_block
    pub slot : header.message.slot ≡ height
    pub index : validator_index validators proposer ≡ some header.message.proposer_index
    pub proposer_known : get_by_address proposer validators ≡ some v
    pub signed : verify_signature t api signing hash_tree_root header v.public_key ≡ true
    pub count : length metadata.blob_kzg_commitments ≡ length l
    pub body :
        header.message.body_root
        ≡ compute_body_root api (
            body_of t api signing hash_tree_root metadata.blob_kzg_commitments
              metadata.execution_payload_header)
    pub parent :
        resolve_parent_root_for_height t api signing hash_tree_root db height
        ≡ ok header.message.parent_root
    pub proven : All (IsProven metadata.blob_kzg_commitments header.message.body_root) l

  pub verify_blob_sidecars-IsAccepted :
      (db : MetaDb t) (validators : List Validator) (height : ℕ) (proposer : List ℕ)
      (metadata : ValueMetadata) (l : List BlobSidecar) (header : SignedBeaconBlockHeader)
      → verify_blob_sidecars t api signing hash_tree_root db validators height proposer metadata l
        ≡ ok header
      → IsAccepted db validators height proposer metadata l header
  unfolding verify_blob_sidecars
  verify_blob_sidecars-IsAccepted db validators height proposer metadata [] header e =
      absurd (ground (arith, e))
  verify_blob_sidecars-IsAccepted db validators height proposer metadata (s ∷ l) header e =
      let h = s.signed_block_header in
      let (_, p1, e1) = bind-ok (require (same_headers h l) inconsistent_headers) _ header e in
      let (_, p2, e2) = bind-ok (require (h.message.slot == height) wrong_slot) _ header e1 in
      let (i, p3, e3) =
        bind-ok (demand (validator_index validators proposer) unknown_proposer) _ header e2 in
      let (_, p4, e4) =
        bind-ok (require (h.message.proposer_index == i) wrong_proposer_index) _ header e3 in
      let (v, p5, e5) =
        bind-ok (demand (get_by_address proposer validators) unknown_proposer) _ header e4 in
      let (_, p6, e6) =
        bind-ok
          (require (verify_signature t api signing hash_tree_root h v.public_key) invalid_signature)
          _ header e5 in
      let (_, p7, e7) =
        bind-ok (require (length metadata.blob_kzg_commitments == length (s ∷ l)) count_mismatch) _
          header e6 in
      let body =
        body_of t api signing hash_tree_root metadata.blob_kzg_commitments
          metadata.execution_payload_header in
      let (_, p8, e8) =
        bind-ok
          (require (bytes_ord.eq h.message.body_root (compute_body_root api body)) wrong_body_root)
          _ header e7 in
      let (parent, p9, e9) =
        bind-ok (resolve_parent_root_for_height t api signing hash_tree_root db height) _ header
          e8 in
      let (_, p10, e10) =
        bind-ok (require (bytes_ord.eq h.message.parent_root parent) wrong_parent_root) _ header
          e9 in
      let (_, p11, e11) =
        bind-ok
          (check_sidecars t api signing hash_tree_root metadata.blob_kzg_commitments body
            h.message.body_root (s ∷ l))
          _ header e10 in
      let same : h ≡ header = ground (arith, e11) in
      subst (λ x. IsAccepted db validators height proposer metadata (s ∷ l) x) same
        (record {
          v = v;
          same_header = (refl, same_headers-All h l (require-ok _ p1));
          nonempty = omega arith;
          bounded =
              check_sidecars_bounded metadata.blob_kzg_commitments body h.message.body_root s l p11;
          slot = (==_iff h.message.slot height).0 (require-ok _ p2);
          index =
              demand-ok _ p3
              ∙ ap some (sym ((==_iff h.message.proposer_index i).0 (require-ok _ p4)));
          proposer_known = demand-ok _ p5;
          signed = require-ok _ p6;
          count =
              (==_iff (length metadata.blob_kzg_commitments) (length (s ∷ l))).0 (require-ok _ p7);
          body =
              (bytes_ord.eq_iff h.message.body_root (compute_body_root api body)).0
                (require-ok _ p8);
          parent =
              p9
              ∙ ap ok (sym ((bytes_ord.eq_iff h.message.parent_root parent).0 (require-ok _ p10)));
          proven =
              check_sidecars-All metadata.blob_kzg_commitments body h.message.body_root (s ∷ l) p11;
        })
