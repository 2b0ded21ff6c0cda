-- ===== src/Archiver.antt =====
-- The archiver: `build_archive_job` of crates/consensus/src/state.rs and the worker of
-- crates/node/src/archiver.rs. Uploads, the clock, the hash functions and the signature are
-- parameters; the channel of notices is open, and what is sent on it is a list.
pub mod Jobs
pub mod Retries
use ultramarine.Common.{
  ℕ, zero, suc, ◌+◌, ◌-◌, ◌*◌, ◌^◌, ◌≡◌, Bool, true, false, ◌&&◌, ◌||◌, Option, none, some, List,
  [], ◌∷◌, ◌++◌, ◌==◌, leb, length, get_elem?, max, min, if◌then◌else◌,
}
use ultramarine.Common.Ord.{nat_ord, pair_ord}
use ultramarine.Common.Result.{Result, ok, err, ◌>>=◌, require, demand, map_err}
use ultramarine.Types.Round.{Round}
use ultramarine.Types.Part.{BlobSidecar, ArchiveNoticeBody, ArchiveNotice}
use ultramarine.Types.Metadata.{BlobMetadata}
use ultramarine.Metastore.{StoreError, Tables, MetaDb, get_blob_metadata, archival_range}
use ultramarine.Blob.Store.{ByteTable, BlobCodec}
use ultramarine.Blob.Engine.{Engine, BlobEngineError, get_for_import}

-- crates/types/src/archive.rs
pub record ArchiveJob : Type 0 where
  pub height : ℕ
  pub round : Round
  pub blob_indices : List ℕ
  pub commitments : List (List ℕ)
  pub blob_keccaks : List (List ℕ)
  pub versioned_hashes : List (List ℕ)

pub record UploadBlobParams : Type 0 where
  pub height : ℕ
  pub round : Round
  pub blob_idx : ℕ
  pub blob_data : List ℕ
  pub commitment : List ℕ
  pub versioned_hash : List ℕ
  pub blob_keccak : List ℕ

-- The hash functions, the provider, its answer to an upload (a locator, or nothing), the node's
-- address and the signature over the hash of a notice.
pub record ArchiverApi : Type 0 where
  pub keccak : List ℕ → List ℕ
  pub kzg_to_versioned_hash : List ℕ → List ℕ
  pub upload_blob : UploadBlobParams → Option (List ℕ)
  pub provider_id : List ℕ
  pub validator_address : List ℕ
  pub sign : ArchiveNoticeBody → List ℕ

pub data ArchiverError : Type 0 where
  mismatched_commitments mismatched_blob_keccaks mismatched_versioned_hashes : ArchiverError
  no_blobs panicked : ArchiverError
  engine_error : BlobEngineError → ArchiverError
  blob_not_found upload_failed : ℕ → ArchiverError

pub data JobError : Type 0 where
  store_error : StoreError → JobError
  load_error : BlobEngineError → JobError

abbrev pub contains_index : ℕ → List ℕ → Bool
contains_index i [] = false
contains_index i (j ∷ l) = j == i || contains_index i l

unfoldable pub second_of : {V : Type 0} → List ((ℕ × ℕ) × V) → List ℕ
second_of [] = []
second_of ((k, v) ∷ l) = k.1 ∷ second_of l

-- The sidecars whose index is not archived.
unfoldable pub unarchived : List ℕ → List BlobSidecar → List BlobSidecar
unarchived archived [] = []
unarchived archived (s ∷ l) =
    let rest = unarchived archived l in if contains_index s.index archived then rest else s ∷ rest

unfoldable pub find_sidecar : ℕ → List BlobSidecar → Option BlobSidecar
find_sidecar i [] = none
find_sidecar i (s ∷ l) = let rest = find_sidecar i l in if s.index == i then some s else rest

module _ (api : ArchiverApi) where
  abbrev pub indices_of : List BlobSidecar → List ℕ
  indices_of [] = []
  indices_of (s ∷ l) = s.index ∷ indices_of l

  abbrev pub commitments_of : List BlobSidecar → List (List ℕ)
  commitments_of [] = []
  commitments_of (s ∷ l) = s.kzg_commitment ∷ commitments_of l

  abbrev pub keccaks_of : List BlobSidecar → List (List ℕ)
  keccaks_of [] = []
  keccaks_of (s ∷ l) = api.keccak s.blob ∷ keccaks_of l

  abbrev pub versioned_of : List BlobSidecar → List (List ℕ)
  versioned_of [] = []
  versioned_of (s ∷ l) = api.kzg_to_versioned_hash s.kzg_commitment ∷ versioned_of l

  -- The loop of `build_archive_job` fills the four lists at once.
  unfoldable pub job_of : ℕ → Round → List BlobSidecar → Option ArchiveJob
  job_of height round [] = none
  job_of height round (s ∷ l) = some (record {
    height = height;
    round = round;
    blob_indices = indices_of (s ∷ l);
    commitments = commitments_of (s ∷ l);
    blob_keccaks = keccaks_of (s ∷ l);
    versioned_hashes = versioned_of (s ∷ l);
  })

  module _ (t : Tables) (kv : ByteTable) (codec : BlobCodec) where
    unfoldable pub build_archive_job :
        MetaDb t → Engine kv → ℕ → Round → Result JobError (Option ArchiveJob)
    unfolding job_of unarchived second_of
    build_archive_job db engine height round = elim (get_blob_metadata t db height) [
      | err e ↦ err (store_error e)
      | ok none ↦ ok none
      | ok (some m) ↦
          if m.blob_count == 0 then ok none else elim (get_for_import kv codec engine height) [
            | err e ↦ err (load_error e)
            | ok blobs ↦
                ok (job_of height round (unarchived (second_of (archival_range t db height)) blobs))
          ]
    ]

  -- One blob of a job: its upload and its notice.
  unfoldable pub archive_blob :
      ArchiveJob → List BlobSidecar → ℕ → ℕ → ℕ → Result ArchiverError ArchiveNotice
  unfolding find_sidecar
  archive_blob job sidecars archived_at i blob_idx = do
    commitment ← demand (get_elem? job.commitments i) panicked
    blob_keccak ← demand (get_elem? job.blob_keccaks i) panicked
    versioned_hash ← demand (get_elem? job.versioned_hashes i) panicked
    s ← demand (find_sidecar blob_idx sidecars) (blob_not_found blob_idx)
    locator ←
        demand
          (api.upload_blob (record {
            height = job.height;
            round = job.round;
            blob_idx = blob_idx;
            blob_data = s.blob;
            commitment = commitment;
            versioned_hash = versioned_hash;
            blob_keccak = blob_keccak;
          }))
          (upload_failed blob_idx)
    let body : ArchiveNoticeBody = record {
      height = job.height;
      round = job.round;
      blob_index = blob_idx;
      kzg_commitment = commitment;
      blob_keccak = blob_keccak;
      provider_id = api.provider_id;
      locator = locator;
      archived_by = api.validator_address;
      archived_at = archived_at;
    }
    ok (record { body = body; signature = api.sign body })

  -- The loop over the blobs, with the notices that it has sent.
  unfoldable pub archive_blobs :
      ArchiveJob
      → List BlobSidecar
      → ℕ
      → ℕ
      → List ℕ
      → Result ArchiverError (Unit {0}) × List ArchiveNotice
  unfolding archive_blob
  archive_blobs job sidecars archived_at i [] = (ok tt, [])
  archive_blobs job sidecars archived_at i (x ∷ l) =
      let rest = archive_blobs job sidecars archived_at (i + 1) l in
      elim (archive_blob job sidecars archived_at i x) [
        | err e ↦ (err e, [])
        | ok n ↦ (rest.0, n ∷ rest.1)
      ]

  abbrev pub checked_job : ArchiveJob → Result ArchiverError (Unit {0})
  checked_job job = do
    _ ← require (length job.commitments == length job.blob_indices) mismatched_commitments
    _ ← require (length job.blob_keccaks == length job.blob_indices) mismatched_blob_keccaks
    require (length job.versioned_hashes == length job.blob_indices) mismatched_versioned_hashes

  -- `process_job`, with the answer of the blob engine and the clock's seconds.
  unfoldable pub process_job :
      Result BlobEngineError (List BlobSidecar)
      → ℕ
      → ArchiveJob
      → Result ArchiverError (Unit {0}) × List ArchiveNotice
  unfolding archive_blobs
  process_job answer archived_at job = elim (checked_job job) [
    | err e ↦ (err e, [])
    | ok _ ↦ elim answer [
      | err e ↦ (err (engine_error e), [])
      | ok [] ↦ (err no_blobs, [])
      | ok (s ∷ l) ↦ archive_blobs job (s ∷ l) archived_at 0 job.blob_indices
    ]
  ]

-- The entries of the retry queue; times are milliseconds.
pub record RetryEntry : Type 0 where
  pub job : ArchiveJob
  pub attempts : ℕ
  pub retry_at : ℕ

abbrev pub max_retry_backoff_ms : ℕ
max_retry_backoff_ms = 60000

-- The products of u64 saturate; `2 ^ 16` does not.
unfoldable pub backoff_ms : ℕ → ℕ → ℕ
backoff_ms retry_backoff_ms attempts =
    min (min (max retry_backoff_ms 1 * 2 ^ min attempts 16) (2 ^ 64 - 1)) max_retry_backoff_ms

-- `process_with_retry` after the job has run: whether it succeeded, and the time.
unfoldable pub after_job : ℕ → Bool × ℕ → ArchiveJob → ℕ → List RetryEntry → List RetryEntry
unfolding backoff_ms
after_job retry_backoff_ms (true, now) job attempts queue = queue
after_job retry_backoff_ms (false, now) job attempts queue =
    queue
    ++ record {
      job = job;
      attempts = attempts + 1;
      retry_at = now + backoff_ms retry_backoff_ms attempts;
    }
      ∷ []

-- The loop of `run` over the entries that are due at `now`. `process k job` is the outcome of the
-- k-th job that is run. Without fuel there is no result.
unfoldable pub run_due :
    ℕ → (ℕ → ArchiveJob → Bool × ℕ) → ℕ → ℕ → ℕ → List RetryEntry → Option (List RetryEntry)
unfolding after_job
run_due backoff process now zero k queue = none
run_due backoff process now (suc fuel) k [] = some []
run_due backoff process now (suc fuel) k (e ∷ queue) =
    let rest =
      run_due backoff process now fuel (k + 1)
        (after_job backoff (process k e.job) e.job e.attempts queue) in
    if leb e.retry_at now then rest else some (e ∷ queue)
