-- ===== src/Blob/Engine.antt =====
-- The blob engine (crates/blob_engine/src/engine.rs): verification, the store and its counters.
pub mod Gate
pub mod Idle
use ultramarine.Common.{ℕ, zero, suc, ◌+◌, ◌*◌, ◌≡◌, List, [], ◌∷◌, length}
use ultramarine.Common.Int.{ℤ}
use ultramarine.Common.Result.{Result, ok, err}
use ultramarine.Types.Part.{BlobSidecar}
use ultramarine.Blob.Metrics.{
  Metrics, record_verifications_success, record_verifications_failure, add_undecided_storage,
  promote_blobs, drop_blobs, prune_blobs, set_blobs_per_block,
}
use ultramarine.Blob.Verifier.{
  Kzg, BlobVerificationError, invalid_proof_value, verify_blob_sidecars_batch,
}
use ultramarine.Blob.Store.{BlobDb, ByteTable, BlobCodec, BlobStoreError}
use ultramarine.Blob.Store

-- crates/types/src/blob.rs
abbrev pub bytes_per_blob : ℕ
bytes_per_blob = 131072

pub data BlobEngineError : Type 0 where
  verification_failed : ℕ → ℕ → BlobVerificationError → BlobEngineError
  storage : BlobStoreError → BlobEngineError
  -- the height, and the locators of the archived blobs
  blobs_pruned : ℕ → List (List ℕ) → BlobEngineError

pub record Engine (kv : ByteTable) : Type 0 where
  pub store : BlobDb kv
  pub metrics : Metrics

pub total_size : List BlobSidecar → ℕ
total_size [] = 0
total_size (s ∷ l) = length s.blob + total_size l

-- The index that a failed verification reports.
pub failing_index : List BlobSidecar → BlobVerificationError → ℕ
failing_index l (invalid_proof_value i) = i
failing_index [] e = 0
failing_index (s ∷ l) e = s.index

abbrev pub storage_result {ℓ} : {A : Type ℓ} → Result BlobStoreError A → Result BlobEngineError A
storage_result (ok a) = ok a
storage_result (err e) = err (storage e)

module _ (kv : ByteTable) (codec : BlobCodec) (kzg : Kzg) where
  -- The second step of `verify_and_store`, with the answer of the store.
  unfoldable pub stored :
      List BlobSidecar
      → Metrics
      → Result BlobStoreError ℕ × BlobDb kv
      → Result BlobEngineError (Unit {0}) × Engine kv
  unfolding total_size
  stored sidecars m (ok n, db) =
      (ok tt, record { store = db; metrics = add_undecided_storage (total_size sidecars) n m })
  stored sidecars m (err e, db) = (err (storage e), record { store = db; metrics = m })

  -- `verify_and_store` after the verification.
  unfoldable pub after_verification :
      Engine kv
      → ℕ
      → ℤ
      → List BlobSidecar
      → Result BlobVerificationError (Unit {0})
      → Result BlobEngineError (Unit {0}) × Engine kv
  unfolding stored failing_index
  after_verification e height round sidecars (err x) = (
    err (verification_failed height (failing_index sidecars x) x),
    record e { metrics = record_verifications_failure (length sidecars) e.metrics },
  )
  after_verification e height round sidecars (ok _) =
      stored sidecars (record_verifications_success (length sidecars) e.metrics)
        (Store.put_undecided_blobs kv codec e.store height round sidecars)

  unfoldable pub verify_and_store :
      Engine kv → ℕ → ℤ → List BlobSidecar → Result BlobEngineError (Unit {0}) × Engine kv
  unfolding after_verification
  verify_and_store e height round [] = (ok tt, e)
  verify_and_store e height round (s ∷ l) =
      after_verification e height round (s ∷ l) (verify_blob_sidecars_batch kzg (s ∷ l))

module _ (kv : ByteTable) (codec : BlobCodec) where
  -- The branch of `mark_decided` for a call that moved nothing.
  pub nothing_moved :
      Metrics
      → BlobDb kv
      → Result BlobStoreError (List BlobSidecar)
      → Result BlobEngineError (Unit {0}) × Engine kv
  nothing_moved m db (ok blobs) =
      (ok tt, record { store = db; metrics = set_blobs_per_block (length blobs) m })
  nothing_moved m db (err e) = (err (storage e), record { store = db; metrics = m })

  pub after_moves : Metrics → ℕ → ℕ × ℕ × BlobDb kv → Result BlobEngineError (Unit {0}) × Engine kv
  unfolding nothing_moved
  after_moves m height (zero, bytes, db) =
      nothing_moved m db (Store.get_decided_blobs kv codec db height)
  after_moves m height (suc n, bytes, db) = (
    ok tt,
    record { store = db; metrics = set_blobs_per_block (suc n) (promote_blobs bytes (suc n) m) },
  )

  pub mark_decided : Engine kv → ℕ → ℤ → Result BlobEngineError (Unit {0}) × Engine kv
  unfolding after_moves
  mark_decided e height round =
      after_moves e.metrics height (Store.mark_decided kv codec e.store height round)

  unfoldable pub get_for_import : Engine kv → ℕ → Result BlobEngineError (List BlobSidecar)
  get_for_import e height = storage_result (Store.get_decided_blobs kv codec e.store height)

  pub drop_round : Engine kv → ℕ → ℤ → Engine kv
  drop_round e height round =
      let (n, bytes, db) = Store.drop_round kv codec e.store height round in
      record { store = db; metrics = drop_blobs bytes n e.metrics }

  pub mark_archived : Engine kv → ℕ → List ℕ → Engine kv
  mark_archived e height indices = record {
    store = Store.delete_archived kv e.store height indices;
    metrics = prune_blobs (length indices * bytes_per_blob) (length indices) e.metrics;
  }

  pub prune_archived_before : Engine kv → ℕ → ℕ × Engine kv
  prune_archived_before e height =
      let (n, db) = Store.prune_before kv e.store height in
      (n, record { store = db; metrics = prune_blobs (n * bytes_per_blob) n e.metrics })

  pub get_undecided_blobs : Engine kv → ℕ → ℤ → Result BlobEngineError (List BlobSidecar)
  get_undecided_blobs e height round =
      storage_result (Store.get_undecided_blobs kv codec e.store height round)
