-- ===== src/Tests/Archivers.antt =====
-- Tests of the archiver (crates/node/src/archiver.rs) and of the jobs that a node builds for it.
use ultramarine.Common.{ℕ, ◌≤◌, ◌≡◌, refl, Bool, false, some, [], ◌∷◌, List, arith, min, max}
use ultramarine.Archiver.{ArchiveJob, RetryEntry, backoff_ms, max_retry_backoff_ms, run_due}
use ultramarine.Archiver.Retries.{backoff_ms_bounds, run_due_ends, StartsLater}
use ultramarine.Archiver.{
  ArchiverApi, build_archive_job, process_job, job_of, unarchived, second_of,
}
use ultramarine.Archiver.Jobs.{Notices, wanted, process_job-build_archive_job}
use ultramarine.Common.Bytes.{to_be, is_prefix}
use ultramarine.Common.Kv.Sorted.{find, insert_sorted, select}
use ultramarine.Common.Kv.Scan.{scan, seek, take_prefix}
use ultramarine.Common.Result.{ok}
use ultramarine.Common.Int.{pos}
use ultramarine.Types.Part.{BlobSidecar}
use ultramarine.Types.Round.{num}
use ultramarine.Metastore.{get_blob_metadata, hydrate, archival_range}
use ultramarine.Blob.Key.{BlobKey, decided_prefix, to_decided_key}
use ultramarine.Blob.Store.{
  get_decided_blobs, read_blobs, sorted_blobs, sort_by_index, insert_by_index,
}
use ultramarine.Blob.Engine.{Engine, get_for_import}
use ultramarine.Tests.Data.{tables, test_codec, test_serialize, plain}
use ultramarine.Tests.Archiving.{meta_tables, node}

abbrev empty_job : ArchiveJob
empty_job = record {
  height = 5;
  round = num 0;
  blob_indices = [];
  commitments = [];
  blob_keccaks = [];
  versioned_hashes = [];
}

abbrev entry : ℕ → RetryEntry
entry time = record { job = empty_job; attempts = 1; retry_at = time }

-- Every job fails, ten milliseconds after the loop has begun.
abbrev failing : ℕ → ArchiveJob → Bool × ℕ
failing k job = (false, 110)

backoff_ms_bounds_example :
    (1 ≤ backoff_ms 500 3)
    × (min (max 500 1) max_retry_backoff_ms ≤ backoff_ms 500 3)
    × (backoff_ms 500 3 ≤ max_retry_backoff_ms)
    × (backoff_ms 500 3 ≤ backoff_ms 500 9)
backoff_ms_bounds_example = backoff_ms_bounds 500 3 9 (omega arith)

run_due_ends_example :
    (rest : List RetryEntry) × (run_due 500 failing 100 3 0 (entry 90 ∷ entry 100 ∷ entry 101 ∷ [])
      ≡ some rest)
    × StartsLater 100 rest
run_due_ends_example =
    run_due_ends 500 100 failing 3 0 (entry 90 ∷ entry 100 ∷ entry 101 ∷ []) (λ n job. omega arith)
      (omega arith)

abbrev stored_blob : BlobSidecar
stored_blob = plain 0 (7 ∷ [])

abbrev decided_key : BlobKey
decided_key = record { height = 5; round = pos 0; index = 0 }

-- The blob of height 5 is decided.
abbrev filled : Engine tables
filled = record node.engine {
  store = record node.engine.store {
    decided =
        tables.insert (to_decided_key decided_key)
          (elim (test_serialize stored_blob) [ ok v ↦ v | _ ↦ [] ]) tables.empty;
  };
}

abbrev archiver_api : ArchiverApi
archiver_api = record {
  keccak = λ b. b;
  kzg_to_versioned_hash = λ c. c;
  upload_blob = λ p. some (1 ∷ []);
  provider_id = 2 ∷ [];
  validator_address = 1 ∷ [];
  sign = λ b. [];
}

abbrev built_job : ArchiveJob
built_job = record {
  height = 5;
  round = num 0;
  blob_indices = 0 ∷ [];
  commitments = [] ∷ [];
  blob_keccaks = (7 ∷ []) ∷ [];
  versioned_hashes = [] ∷ [];
}

built :
    build_archive_job archiver_api meta_tables tables test_codec node.db filled 5 (num 0)
    ≡ ok (some built_job)
unfolding build_archive_job get_blob_metadata hydrate archival_range get_for_import
    get_decided_blobs read_blobs sorted_blobs sort_by_index insert_by_index scan seek take_prefix
    is_prefix decided_prefix to_decided_key to_be find insert_sorted select job_of unarchived
    second_of
built = refl

process_job-build_archive_job_example :
    (blobs : List BlobSidecar) × (get_for_import tables test_codec filled 5 ≡ ok blobs)
    × ((process_job archiver_api (get_for_import tables test_codec filled 5) 1000 built_job).0
        ≡ ok tt)
    × Notices archiver_api 5
        (num 0)
        1000
        (wanted archiver_api meta_tables tables test_codec node.db 5 blobs)
        (process_job archiver_api (get_for_import tables test_codec filled 5) 1000 built_job).1
process_job-build_archive_job_example =
    process_job-build_archive_job archiver_api meta_tables tables test_codec node.db filled 5
      (num 0) built_job 1000 built (λ p. (1 ∷ [], refl))
