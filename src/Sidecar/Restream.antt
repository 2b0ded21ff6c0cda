-- ===== src/Sidecar/Restream.antt =====
-- The sidecars that a node builds again from its store (`build_beacon_header_from_blob_metadata` and
-- `rebuild_blob_sidecars_for_restream` of crates/consensus/src/state.rs).
use ultramarine.Common.{
  ℕ, ◌+◌, ◌^◌, ◌≡◌, ◌∙◌, refl, ap, sym, subst, Option, none, some, List, [], ◌∷◌, ◌==◌, ==_iff,
  arith, length, get_elem?, ltb,
}
use ultramarine.Common.Ord.{bytes_ord}
use ultramarine.Common.Result.{
  Result, ok, ◌>>=◌, require, demand, map_err, bind_intro, bind-ok, require-true, demand-some,
  demand-ok, require-ok,
}
use ultramarine.Types.Part.{BeaconBlockHeader, SignedBeaconBlockHeader, BlobSidecar}
use ultramarine.Types.Validator.{Validator}
use ultramarine.Types.Metadata.{BlobMetadata}
use ultramarine.Metastore.{Tables, MetaDb}
use ultramarine.Merkle.{
  MerkleApi, BeaconBlockBodyMinimal, compute_body_root, generate_kzg_commitment_inclusion_proof,
}
use ultramarine.Proposal.{Signing}
use ultramarine.Sidecar.{
  ValueMetadata, BlobsBundle, SidecarError, body_of, sign_header, resolve_parent_root_for_height,
  prepare_blob_sidecar_parts, make_sidecars, make_sidecar, validator_index, merkle_error,
  build_sidecar_header_message, unknown_proposer, missing_commitment, commitment_mismatch,
  count_mismatch, check_bundle, index_exceeds_u16,
}

abbrev pub or_else {ℓ} : {A : Type ℓ} → Option A → Option A → Option A
or_else none o = o
or_else (some a) o = some a

module _ (t : Tables) (api : MerkleApi) (signing : Signing)
    (hash_tree_root : BeaconBlockHeader → List ℕ) where
  unfoldable pub build_beacon_header_from_blob_metadata :
      List Validator → BlobMetadata → List ℕ → Result SidecarError BeaconBlockHeader
  build_beacon_header_from_blob_metadata validators m proposer = do
    i ←
        demand (or_else m.proposer_index_hint (validator_index validators proposer))
          unknown_proposer
    ok (record {
      slot = m.height;
      proposer_index = i;
      parent_root = m.parent_blob_root;
      state_root = m.execution_payload_header.state_root;
      body_root =
          compute_body_root api (
            body_of t api signing hash_tree_root m.blob_kzg_commitments m.execution_payload_header);
    })

  -- The loop over the stored sidecars, from an index on.
  unfoldable pub rebuild_sidecars :
      List (List ℕ)
      → BeaconBlockBodyMinimal
      → SignedBeaconBlockHeader
      → ℕ
      → List BlobSidecar
      → Result SidecarError (List BlobSidecar)
  rebuild_sidecars commitments body header i [] = ok []
  rebuild_sidecars commitments body header i (s ∷ l) = do
    c ← demand (get_elem? commitments i) (missing_commitment i)
    _ ← require (bytes_ord.eq s.kzg_commitment c) (commitment_mismatch i)
    s' ← make_sidecar t api signing hash_tree_root commitments body header i s.blob c s.kzg_proof
    rest ← rebuild_sidecars commitments body header (i + 1) l
    ok (s' ∷ rest)

  unfoldable pub rebuild_blob_sidecars_for_restream :
      List Validator
      → BlobMetadata
      → List ℕ
      → List BlobSidecar
      → Result SidecarError (List BlobSidecar)
  unfolding build_beacon_header_from_blob_metadata rebuild_sidecars
  rebuild_blob_sidecars_for_restream validators m proposer blobs = do
    _ ← require (m.blob_count == length blobs) count_mismatch
    message ← build_beacon_header_from_blob_metadata validators m proposer
    let header = sign_header t api signing hash_tree_root message
    let body =
        body_of t api signing hash_tree_root m.blob_kzg_commitments m.execution_payload_header
    rebuild_sidecars m.blob_kzg_commitments body header 0 blobs

  -- What a made sidecar consists of.
  made_sidecar :
      (commitments : List (List ℕ)) (body : BeaconBlockBodyMinimal)
      (header : SignedBeaconBlockHeader) (i : ℕ) (b c p : List ℕ) (s : BlobSidecar)
      → make_sidecar t api signing hash_tree_root commitments body header i b c p ≡ ok s
      → (s.blob ≡ b) × (s.kzg_commitment ≡ c) × (s.kzg_proof ≡ p)
  unfolding make_sidecar
  made_sidecar commitments body header i b c p s e =
      let (g, _, e1) =
        bind-ok
          (map_err merkle_error (generate_kzg_commitment_inclusion_proof api commitments i body)) _
          s e in
      let (_, _, e2) = bind-ok (require (ltb i (2 ^ 16)) (index_exceeds_u16 i)) _ s e1 in
      (ground (arith, e2), ground (arith, e2), ground (arith, e2))

  rebuild_sidecars-make_sidecars :
      (commitments : List (List ℕ)) (body : BeaconBlockBodyMinimal)
      (header : SignedBeaconBlockHeader) (i : ℕ) (bs cs ps : List (List ℕ)) (l : List BlobSidecar)
      → make_sidecars t api signing hash_tree_root commitments body header i bs cs ps ≡ ok l
      → rebuild_sidecars commitments body header i l ≡ ok l
  unfolding make_sidecars rebuild_sidecars
  rebuild_sidecars-make_sidecars commitments body header i [] cs ps l e =
      let f : [] ≡ l = ground (arith, e) in
      subst (λ x. rebuild_sidecars commitments body header i x ≡ ok x) f refl
  rebuild_sidecars-make_sidecars commitments body header i (b ∷ bs) [] ps l e =
      let f : [] ≡ l = ground (arith, e) in
      subst (λ x. rebuild_sidecars commitments body header i x ≡ ok x) f refl
  rebuild_sidecars-make_sidecars commitments body header i (b ∷ bs) (c ∷ cs) [] l e =
      let f : [] ≡ l = ground (arith, e) in
      subst (λ x. rebuild_sidecars commitments body header i x ≡ ok x) f refl
  rebuild_sidecars-make_sidecars commitments body header i (b ∷ bs) (c ∷ cs) (p ∷ ps) l e =
      let (c', p1, e1) = bind-ok (demand (get_elem? commitments i) (missing_commitment i)) _ l e in
      let (_, p2, e2) = bind-ok (require (bytes_ord.eq c' c) (commitment_mismatch i)) _ l e1 in
      let (s, p3, e3) =
        bind-ok (make_sidecar t api signing hash_tree_root commitments body header i b c p) _ l
          e2 in
      let (rest, p4, e4) =
        bind-ok
          (make_sidecars t api signing hash_tree_root commitments body header (i + 1) bs cs ps) _ l
          e3 in
      let f : s ∷ rest ≡ l = ground (arith, e4) in
      let (blob, mark, proof) = made_sidecar commitments body header i b c p s p3 in
      let q : c' ≡ c = (bytes_ord.eq_iff c' c).0 (require-ok _ p2) in
      let again : make_sidecar t api signing hash_tree_root commitments body header i s.blob c'
            s.kzg_proof
          ≡ ok s =
        rw (blob, q, proof) p3 in
      subst (λ x. rebuild_sidecars commitments body header i x ≡ ok x) f
        (bind_intro _ _ c' _ (demand-some _ (demand-ok _ p1)) (
          bind_intro _ _ tt _
            (require-true _ ((bytes_ord.eq_iff s.kzg_commitment c').1 (mark ∙ sym q)))
            (bind_intro _ _ s _ again (
              bind_intro _ _ rest _
                (rebuild_sidecars-make_sidecars commitments body header (i + 1) bs cs ps rest p4)
                refl))))

  -- A proposer that builds its sidecars again, from the metadata of the block (its height, parent
  -- root, commitments, payload header, blob count and the proposer's index) and the sidecars that it
  -- prepared for it, gets the same sidecars.
  pub rebuild-prepare :
      (db : MetaDb t) (validators : List Validator) (address : List ℕ) (m : BlobMetadata)
      (bundle : BlobsBundle) (header : SignedBeaconBlockHeader) (l : List BlobSidecar)
      → prepare_blob_sidecar_parts t api signing hash_tree_root db validators address m.height
          (record {
            execution_payload_header = m.execution_payload_header;
            blob_kzg_commitments = m.blob_kzg_commitments;
          })
          (some bundle)
        ≡ ok (header, l)
      → resolve_parent_root_for_height t api signing hash_tree_root db m.height
        ≡ ok m.parent_blob_root
      → m.proposer_index_hint ≡ validator_index validators address
      → m.blob_count ≡ length l
      → rebuild_blob_sidecars_for_restream validators m address l ≡ ok l
  unfolding prepare_blob_sidecar_parts build_sidecar_header_message
      rebuild_blob_sidecars_for_restream build_beacon_header_from_blob_metadata
  rebuild-prepare db validators address m bundle header l e parent hint count =
      let cs = m.blob_kzg_commitments in
      let body = body_of t api signing hash_tree_root cs m.execution_payload_header in
      let metadata : ValueMetadata = record {
        execution_payload_header = m.execution_payload_header;
        blob_kzg_commitments = cs;
      } in
      let (_, p1, e1) = bind-ok (check_bundle (length cs) (some bundle)) _ (header, l) e in
      let (parent', p2, e2) =
        bind-ok (resolve_parent_root_for_height t api signing hash_tree_root db m.height) _
          (header, l) e1 in
      let (message, p3, e3) =
        bind-ok
          (build_sidecar_header_message t api signing hash_tree_root validators m.height address
            metadata (compute_body_root api body) parent')
          _ (header, l) e2 in
      let (made, p4, e4) =
        bind-ok
          (make_sidecars t api signing hash_tree_root cs body
            (sign_header t api signing hash_tree_root message) 0 bundle.blobs bundle.commitments
            bundle.proofs)
          _ (header, l) e3 in
      let (i, p5, e5) =
        bind-ok (demand (validator_index validators address) unknown_proposer) _ message p3 in
      let head : List ℕ → BeaconBlockHeader = λ r. record {
        slot = m.height;
        proposer_index = i;
        parent_root = r;
        state_root = m.execution_payload_header.state_root;
        body_root = compute_body_root api body;
      } in
      let same : made ≡ l = ground (arith, e4) in
      let root : parent' ≡ m.parent_blob_root = ground (arith, p2, parent) in
      let found = hint ∙ demand-ok _ p5 in
      bind_intro _ _ tt l (require-true _ ((==_iff m.blob_count (length l)).1 count)) (
        bind_intro _ _ message l
          (bind_intro _ _ i message
            (demand-some _ (ap (λ o. or_else o (validator_index validators address)) found))
            (subst (λ r. ◌≡◌ {A = Result SidecarError BeaconBlockHeader} (ok (head r)) (ok message))
              root e5))
          (subst
            (λ x.
              rebuild_sidecars cs body (sign_header t api signing hash_tree_root message) 0 x
              ≡ ok x)
            same
            (rebuild_sidecars-make_sidecars cs body
              (sign_header t api signing hash_tree_root message) 0 bundle.blobs bundle.commitments
              bundle.proofs made p4)))
