-- ===== src/Blob/Metrics.antt =====
-- The counters of the blob engine (crates/blob_engine/src/metrics.rs); the time histogram is left
-- out. A gauge is an integer, and a counter a number; they do not wrap.
use ultramarine.Common.{ℕ, ◌+◌}
use ultramarine.Common.Int.{ℤ, pos, add_ℕ, sub_ℕ}

pub record Metrics : Type 0 where
  pub verifications_success : ℕ
  pub verifications_failure : ℕ
  pub storage_bytes_undecided : ℤ
  pub storage_bytes_decided : ℤ
  pub undecided_blob_count : ℤ
  pub blobs_per_block : ℤ
  pub lifecycle_promoted : ℕ
  pub lifecycle_dropped : ℕ
  pub lifecycle_pruned : ℕ
  pub stale_round_cleanup : ℕ
  pub cleanup_failures : ℕ
  pub orphaned_blobs_dropped : ℕ

abbrev pub zeros : Metrics
zeros = record {
  verifications_success = 0;
  verifications_failure = 0;
  storage_bytes_undecided = pos 0;
  storage_bytes_decided = pos 0;
  undecided_blob_count = pos 0;
  blobs_per_block = pos 0;
  lifecycle_promoted = 0;
  lifecycle_dropped = 0;
  lifecycle_pruned = 0;
  stale_round_cleanup = 0;
  cleanup_failures = 0;
  orphaned_blobs_dropped = 0;
}

unfoldable pub record_verifications_success : ℕ → Metrics → Metrics
record_verifications_success n m = record m { verifications_success = m.verifications_success + n }

unfoldable pub record_verifications_failure : ℕ → Metrics → Metrics
record_verifications_failure n m = record m { verifications_failure = m.verifications_failure + n }

unfoldable pub add_undecided_storage : ℕ → ℕ → Metrics → Metrics
add_undecided_storage bytes n m = record m {
  storage_bytes_undecided = add_ℕ m.storage_bytes_undecided bytes;
  undecided_blob_count = add_ℕ m.undecided_blob_count n;
}

unfoldable pub promote_blobs : ℕ → ℕ → Metrics → Metrics
promote_blobs bytes n m = record m {
  storage_bytes_undecided = sub_ℕ m.storage_bytes_undecided bytes;
  storage_bytes_decided = add_ℕ m.storage_bytes_decided bytes;
  undecided_blob_count = sub_ℕ m.undecided_blob_count n;
  lifecycle_promoted = m.lifecycle_promoted + n;
}

unfoldable pub drop_blobs : ℕ → ℕ → Metrics → Metrics
drop_blobs bytes n m = record m {
  storage_bytes_undecided = sub_ℕ m.storage_bytes_undecided bytes;
  undecided_blob_count = sub_ℕ m.undecided_blob_count n;
  lifecycle_dropped = m.lifecycle_dropped + n;
}

unfoldable pub prune_blobs : ℕ → ℕ → Metrics → Metrics
prune_blobs bytes n m = record m {
  storage_bytes_decided = sub_ℕ m.storage_bytes_decided bytes;
  lifecycle_pruned = m.lifecycle_pruned + n;
}

unfoldable pub set_blobs_per_block : ℕ → Metrics → Metrics
set_blobs_per_block n m = record m { blobs_per_block = pos n }
