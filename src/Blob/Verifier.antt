-- ===== src/Blob/Verifier.antt =====
-- KZG verification of sidecars (crates/blob_engine/src/verifier.rs) over the c-kzg library, which is
-- a parameter: its conversions, its check of one blob and its check of a batch.
use ultramarine.Common.{ℕ, ◌≡◌, Bool, true, false, ◌&&◌, List, [], ◌∷◌, arith}
use ultramarine.Common.Result.{Result, ok, err, ◌>>◌}
use ultramarine.Types.Part.{BlobSidecar}

pub data BlobVerificationError : Type 0 where
  trusted_setup_load invalid_blob invalid_commitment invalid_proof : BlobVerificationError
  verification_failed empty_blob_list : BlobVerificationError
  invalid_proof_value : ℕ → BlobVerificationError

-- A blob with its commitment and its proof.
abbrev pub Triple : Type 0
Triple = List ℕ × List ℕ × List ℕ

abbrev pub Valid : (Triple → Result (Unit {0}) Bool) → List Triple → Type 0
Valid verify [] = Unit
Valid verify (t ∷ l) = (verify t ≡ ok true) × Valid verify l

pub record Kzg : Type 0 where
  pub is_blob : List ℕ → Bool
  pub is_bytes48 : List ℕ → Bool
  pub verify_blob_kzg_proof : Triple → Result (Unit {0}) Bool
  pub verify_blob_kzg_proof_batch : List Triple → Result (Unit {0}) Bool
  pub batch_sound :
      (l : List Triple) → verify_blob_kzg_proof_batch l ≡ ok true → Valid verify_blob_kzg_proof l

abbrev pub triple : BlobSidecar → Triple
triple s = (s.blob, s.kzg_commitment, s.kzg_proof)

abbrev pub triples : List BlobSidecar → List Triple
triples [] = []
triples (s ∷ l) = triple s ∷ triples l

abbrev pub every {ℓ} : {A : Type ℓ} → (A → Bool) → List A → Bool
every p [] = true
every p (x ∷ l) = p x && every p l

abbrev check : Bool → BlobVerificationError → Result BlobVerificationError (Unit {0})
check true e = ok tt
check false e = err e

-- The answer of the library: an error, or whether the proofs hold.
abbrev answer :
    Result (Unit {0}) Bool → BlobVerificationError → Result BlobVerificationError (Unit {0})
answer (err x) e = err verification_failed
answer (ok true) e = ok tt
answer (ok false) e = err e

module _ (kzg : Kzg) where
  unfoldable pub verify_blob_sidecar : BlobSidecar → Result BlobVerificationError (Unit {0})
  verify_blob_sidecar s = do
    check (kzg.is_blob s.blob) invalid_blob
    check (kzg.is_bytes48 s.kzg_commitment) invalid_commitment
    check (kzg.is_bytes48 s.kzg_proof) invalid_proof
    answer (kzg.verify_blob_kzg_proof (triple s)) (invalid_proof_value s.index)

  unfoldable pub verify_blob_sidecars_batch :
      List BlobSidecar → Result BlobVerificationError (Unit {0})
  verify_blob_sidecars_batch [] = err empty_blob_list
  verify_blob_sidecars_batch (s ∷ l) = do
    check (every (λ x. kzg.is_blob x.blob) (s ∷ l)) invalid_blob
    check (every (λ x. kzg.is_bytes48 x.kzg_commitment) (s ∷ l)) invalid_commitment
    check (every (λ x. kzg.is_bytes48 x.kzg_proof) (s ∷ l)) invalid_proof
    answer (kzg.verify_blob_kzg_proof_batch (triples (s ∷ l))) verification_failed

  -- Every sidecar of the list passes the check of a single sidecar.
  abbrev pub AllVerified : List BlobSidecar → Type 0
  AllVerified [] = Unit
  AllVerified (s ∷ l) = (verify_blob_sidecar s ≡ ok tt) × AllVerified l

  all_verified :
      (l : List BlobSidecar)
      → every (λ x. kzg.is_blob x.blob) l ≡ true
      → every (λ x. kzg.is_bytes48 x.kzg_commitment) l ≡ true
      → every (λ x. kzg.is_bytes48 x.kzg_proof) l ≡ true
      → Valid kzg.verify_blob_kzg_proof (triples l)
      → AllVerified l
  unfolding verify_blob_sidecar
  all_verified [] a b c v = tt
  all_verified (s ∷ l) a b c v =
      (ground (arith, v.0), all_verified l (ground arith) (ground arith) (ground arith) v.1)

  -- A batch that passes is not empty, and each of its sidecars passes alone.
  pub verify_blob_sidecars_batch-AllVerified :
      (l : List BlobSidecar) → verify_blob_sidecars_batch l ≡ ok tt → AllVerified l
  unfolding verify_blob_sidecars_batch
  verify_blob_sidecars_batch-AllVerified [] e = tt
  verify_blob_sidecars_batch-AllVerified (s ∷ l) e =
      all_verified (s ∷ l) (ground arith) (ground arith) (ground arith)
        (kzg.batch_sound (triples (s ∷ l)) (ground arith))
