-- ===== src/Sidecar/Exact.antt =====
-- The sidecars that `verify_blob_sidecars` (crates/consensus/src/state.rs) accepts, exactly.
use ultramarine.Common.{
  ◌≤◌, ℕ, zero, suc, ◌≡◌, ◌↔◌, refl, ap, sym, subst, true, some, List, [], ◌∷◌, ==_iff, arith,
  length, get_elem?, replicate, length-replicate,
}
use ultramarine.Common.Ord.{bytes_ord}
use ultramarine.Common.Result.{ok, map_err, bind_intro, require-true, demand-some}
use ultramarine.Types.Part.{BeaconBlockHeader, SignedBeaconBlockHeader, BlobSidecar}
use ultramarine.Types.Validator.{Validator}
use ultramarine.Metastore.{Tables, MetaDb}
use ultramarine.Merkle.{
  MerkleApi, BeaconBlockBodyMinimal, compute_body_root, max_blob_commitments_per_block,
}
use ultramarine.Merkle.Inclusion.{generate_lem, verify-reconstruct, get_elem?-lt}
use ultramarine.Proposal.{Signing}
use ultramarine.Sidecar.{
  ValueMetadata, eq_signed, same_headers, body_of, check_sidecar, check_sidecars,
  verify_blob_sidecars, merkle_error,
}
use ultramarine.Sidecar.Accepted.{All, IsProven, IsAccepted, verify_blob_sidecars-IsAccepted}

pub eq_signed_refl : (a : SignedBeaconBlockHeader) → eq_signed a a ≡ true
unfolding eq_signed
eq_signed_refl a = ground (
  arith,
  bytes_ord.eq_iff a.message.parent_root a.message.parent_root,
  bytes_ord.eq_iff a.message.state_root a.message.state_root,
  bytes_ord.eq_iff a.message.body_root a.message.body_root,
  bytes_ord.eq_iff a.signature a.signature,
)

pub All-same_headers :
    (h : SignedBeaconBlockHeader) (l : List BlobSidecar)
    → All (λ s. s.signed_block_header ≡ h) l
    → same_headers h l ≡ true
unfolding same_headers
All-same_headers h [] a = refl
All-same_headers h (s ∷ l) (e, a) = rw (e, eq_signed_refl h) (All-same_headers h l a)

module _ (t : Tables) (api : MerkleApi) (signing : Signing)
    (hash_tree_root : BeaconBlockHeader → List ℕ) where
  pub IsProven-check_sidecar :
      (commitments : List (List ℕ)) (body : BeaconBlockBodyMinimal) (body_root : List ℕ)
      (s : BlobSidecar)
      → length commitments ≤ max_blob_commitments_per_block
      → IsProven t api signing hash_tree_root commitments body_root s
      → check_sidecar t api signing hash_tree_root commitments body body_root s ≡ ok tt
  unfolding check_sidecar
  IsProven-check_sidecar commitments body body_root s k (found, verified) =
      let (r, rec) =
        verify-reconstruct api s.kzg_commitment s.kzg_commitment_inclusion_proof s.index body_root
          verified in
      bind_intro _ _ s.kzg_commitment tt (demand-some _ found) (
        bind_intro _ _ tt tt
          (require-true _ ((bytes_ord.eq_iff s.kzg_commitment s.kzg_commitment).1 refl))
          (bind_intro _ _ r tt (demand-some _ rec) (
            bind_intro _ _ _ tt
              (ap (map_err merkle_error) (
                generate_lem api commitments s.index body
                  (get_elem?-lt commitments s.index s.kzg_commitment found) k))
              (require-true _ verified))))

  pub All-check_sidecars :
      (commitments : List (List ℕ)) (body : BeaconBlockBodyMinimal) (body_root : List ℕ)
      (l : List BlobSidecar)
      → length commitments ≤ max_blob_commitments_per_block
      → All (IsProven t api signing hash_tree_root commitments body_root) l
      → check_sidecars t api signing hash_tree_root commitments body body_root l ≡ ok tt
  unfolding check_sidecars
  All-check_sidecars commitments body body_root [] k a = refl
  All-check_sidecars commitments body body_root (s ∷ l) k (p, a) =
      bind_intro _ _ tt tt (IsProven-check_sidecar commitments body body_root s k p)
        (All-check_sidecars commitments body body_root l k a)

  pub IsAccepted-verify_blob_sidecars :
      (db : MetaDb t) (validators : List Validator) (height : ℕ) (proposer : List ℕ)
      (metadata : ValueMetadata) (l : List BlobSidecar) (header : SignedBeaconBlockHeader)
      → IsAccepted t api signing hash_tree_root db validators height proposer metadata l header
      → verify_blob_sidecars t api signing hash_tree_root db validators height proposer metadata l
        ≡ ok header
  unfolding verify_blob_sidecars
  IsAccepted-verify_blob_sidecars db validators height proposer metadata [] header a =
      elim a.nonempty [ ]
  IsAccepted-verify_blob_sidecars db validators height proposer metadata (s ∷ l) header a =
      let h = s.signed_block_header in
      let e : header ≡ h = sym ((a.same_header).0) in
      let b =
        subst
          (λ x.
            IsAccepted t api signing hash_tree_root db validators height proposer metadata (s ∷ l)
              x)
          e a in
      subst
        (λ x.
          verify_blob_sidecars t api signing hash_tree_root db validators height proposer metadata
            (s ∷ l)
          ≡ ok x)
        (sym e)
        (bind_intro _ _ tt h (require-true _ (All-same_headers h l (b.same_header).1)) (
          bind_intro _ _ tt h (require-true _ ((==_iff h.message.slot height).1 b.slot)) (
            bind_intro _ _ h.message.proposer_index h (demand-some _ b.index) (
              bind_intro _ _ tt h
                (require-true _ ((==_iff h.message.proposer_index h.message.proposer_index).1 refl))
                (bind_intro _ _ b.v h (demand-some _ b.proposer_known) (
                  bind_intro _ _ tt h (require-true _ b.signed) (
                    bind_intro _ _ tt h
                      (require-true _ (
                        (==_iff (length metadata.blob_kzg_commitments) (length (s ∷ l))).1 b.count))
                      (bind_intro _ _ tt h
                        (require-true _ (
                          (bytes_ord.eq_iff h.message.body_root (
                              compute_body_root api (
                                body_of t api signing hash_tree_root metadata.blob_kzg_commitments
                                  metadata.execution_payload_header))).1
                            b.body))
                        (bind_intro _ _ h.message.parent_root h b.parent (
                          bind_intro _ _ tt h
                            (require-true _ (
                              (bytes_ord.eq_iff h.message.parent_root h.message.parent_root).1
                                refl))
                            (bind_intro _ _ tt h
                              (All-check_sidecars metadata.blob_kzg_commitments
                                (body_of t api signing hash_tree_root metadata.blob_kzg_commitments
                                  metadata.execution_payload_header)
                                h.message.body_root (s ∷ l) b.bounded b.proven)
                              refl)))))))))))

  -- Sidecars are accepted for a proposal exactly if there is at least one and there are at most 4096 commitments, all
  -- carry one header, and that header has the height of the proposal, the index of its proposer in
  -- the validator set, a signature under that proposer's key, the root of the body with the
  -- commitments of the proposal, and the root of the decided block before it; there are as many
  -- sidecars as commitments; and each has the commitment that stands at its index and an inclusion
  -- proof that verifies against the header.
  pub verify_blob_sidecars_iff :
      (db : MetaDb t) (validators : List Validator) (height : ℕ) (proposer : List ℕ)
      (metadata : ValueMetadata) (l : List BlobSidecar) (header : SignedBeaconBlockHeader)
      → (verify_blob_sidecars t api signing hash_tree_root db validators height proposer metadata l
          ≡ ok header)
        ↔ IsAccepted t api signing hash_tree_root db validators height proposer metadata l header
  verify_blob_sidecars_iff db validators height proposer metadata l header = (
    verify_blob_sidecars-IsAccepted t api signing hash_tree_root db validators height proposer
        metadata l header,
    IsAccepted-verify_blob_sidecars db validators height proposer metadata l header,
  )

  pub All-replicate :
      (P : BlobSidecar → Type 0) (n : ℕ) (s : BlobSidecar) → P s → All P (replicate n s)
  All-replicate P zero s p = tt
  All-replicate P (suc n) s p = (p, All-replicate P n s p)

  pub All-get_elem? :
      (P : BlobSidecar → Type 0) (l : List BlobSidecar) (k : ℕ) (s : BlobSidecar)
      → All P l
      → get_elem? l k ≡ some s
      → P s
  All-get_elem? P [] k s a e = absurd (ground (arith, e))
  All-get_elem? P (x ∷ l) zero s a e = let f : x ≡ s = ground (arith, e) in subst P f a.0
  All-get_elem? P (x ∷ l) (suc k) s a e = All-get_elem? P l k s a.1 e

  -- If a list of sidecars is accepted, so is the list of the same length that repeats any one of
  -- them: the verification does not ask that the indices of the sidecars differ.
  pub verify_blob_sidecars_repeated :
      (db : MetaDb t) (validators : List Validator) (height : ℕ) (proposer : List ℕ)
      (metadata : ValueMetadata) (l : List BlobSidecar) (k : ℕ) (s : BlobSidecar)
      (header : SignedBeaconBlockHeader)
      → get_elem? l k ≡ some s
      → verify_blob_sidecars t api signing hash_tree_root db validators height proposer metadata l
        ≡ ok header
      → verify_blob_sidecars t api signing hash_tree_root db validators height proposer metadata
          (replicate (length l) s)
        ≡ ok header
  verify_blob_sidecars_repeated db validators height proposer metadata l k s header f e =
      let a = (verify_blob_sidecars_iff db validators height proposer metadata l header).0 e in
      let n = length l in
      (verify_blob_sidecars_iff db validators height proposer metadata (replicate n s) header).1
        (record {
          v = a.v;
          same_header =
              All-replicate (λ x. x.signed_block_header ≡ header) n s
                (All-get_elem? (λ x. x.signed_block_header ≡ header) l k s a.same_header f);
          nonempty = omega (arith, a.nonempty, length-replicate n s);
          bounded = a.bounded;
          slot = a.slot;
          index = a.index;
          proposer_known = a.proposer_known;
          signed = a.signed;
          count = omega (arith, a.count, length-replicate n s);
          body = a.body;
          parent = a.parent;
          proven =
              All-replicate
                (IsProven t api signing hash_tree_root metadata.blob_kzg_commitments
                  header.message.body_root)
                n s
                (All-get_elem?
                  (IsProven t api signing hash_tree_root metadata.blob_kzg_commitments
                    header.message.body_root)
                  l k s a.proven f);
        })
