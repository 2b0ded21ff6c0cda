-- ===== src/Proposal/Payload.antt =====
-- What a received proposal contains: the first part of `assemble_and_store_blobs`, with
-- `validate_execution_requests`, and `validate_proposed_timestamp` (crates/consensus/src/state.rs).
pub mod Recovered
pub mod Streamed
use ultramarine.Common.{
  ℕ, ◌+◌, ◌<◌, ◌≤◌, ◌≡◌, ◌↔◌, Bool, true, false, ◌&&◌, Option, none, some, List, [], ◌∷◌, ◌++◌,
  arith, leb, ltb, length, if◌then◌else◌, get_or,
}
use ultramarine.Common.Ord.{bytes_ord}
use ultramarine.Common.Result.{Result, ok, err, ◌>>=◌}
use ultramarine.Types.Part.{
  ProposalInit, ProposalData, BlobSidecar, ProposalPart, init, data_part, blob_sidecar,
  archive_notice, fin,
}

pub data AssemblyError : Type 0 where
  mismatched_requests : AssemblyError
  too_many_requests : AssemblyError
  request_too_short : ℕ → AssemblyError
  requests_not_increasing : ℕ → AssemblyError

abbrev pub max_execution_requests : ℕ
max_execution_requests = 64

pub eq_requests : List (List ℕ) → List (List ℕ) → Bool
eq_requests [] [] = true
eq_requests [] (y ∷ ys) = false
eq_requests (x ∷ xs) [] = false
eq_requests (x ∷ xs) (y ∷ ys) = bytes_ord.eq x y && eq_requests xs ys

-- The loop over the data parts that collects the execution requests; every data part that has some
-- must have the same.
pub merge_requests : List (List ℕ) → List (List ℕ) → Result AssemblyError (List (List ℕ))
unfolding eq_requests
merge_requests found [] = ok found
merge_requests [] (r ∷ rs) = ok (r ∷ rs)
merge_requests (f ∷ fs) (r ∷ rs) =
    if eq_requests (f ∷ fs) (r ∷ rs) then ok (f ∷ fs) else err mismatched_requests

pub collect_requests : List (List ℕ) → List ProposalPart → Result AssemblyError (List (List ℕ))
unfolding merge_requests
collect_requests found [] = ok found
collect_requests found (data_part d ∷ ps) = do
  found' ← merge_requests found d.execution_requests
  collect_requests found' ps
collect_requests found (init i ∷ ps) = collect_requests found ps
collect_requests found (blob_sidecar s ∷ ps) = collect_requests found ps
collect_requests found (archive_notice n ∷ ps) = collect_requests found ps
collect_requests found (fin s ∷ ps) = collect_requests found ps

-- The loop of `validate_execution_requests`, from a request number on, with the type of the request
-- before.
unfoldable pub check_requests : ℕ → Option ℕ → List (List ℕ) → Result AssemblyError (Unit {0})
check_requests n prev [] = ok tt
check_requests n prev (r ∷ rs) =
    let rest = check_requests (n + 1) (some (get_or r 0 0)) rs in
    if leb (length r) 1 then err (request_too_short n) else elim prev [
      | none ↦ rest
      | some p ↦ if leb (get_or r 0 0) p then err (requests_not_increasing n) else rest
    ]

unfoldable pub validate_execution_requests : List (List ℕ) → Result AssemblyError (Unit {0})
unfolding check_requests
validate_execution_requests rs =
    if ltb max_execution_requests (length rs)
    then err too_many_requests
    else check_requests 0 none rs

pub concat_data : List ProposalPart → List ℕ
concat_data [] = []
concat_data (data_part d ∷ ps) = d.bytes ++ concat_data ps
concat_data (init i ∷ ps) = concat_data ps
concat_data (blob_sidecar s ∷ ps) = concat_data ps
concat_data (archive_notice n ∷ ps) = concat_data ps
concat_data (fin s ∷ ps) = concat_data ps

pub sidecars_of : List ProposalPart → List BlobSidecar
sidecars_of [] = []
sidecars_of (blob_sidecar s ∷ ps) = s ∷ sidecars_of ps
sidecars_of (data_part d ∷ ps) = sidecars_of ps
sidecars_of (init i ∷ ps) = sidecars_of ps
sidecars_of (archive_notice n ∷ ps) = sidecars_of ps
sidecars_of (fin s ∷ ps) = sidecars_of ps

pub record Payload : Type 0 where
  pub execution_requests : List (List ℕ)
  pub bytes : List ℕ
  pub sidecars : List BlobSidecar

-- The execution payload, the requests and the sidecars of a proposal's parts.
pub extract : List ProposalPart → Result AssemblyError Payload
unfolding collect_requests validate_execution_requests concat_data sidecars_of
extract ps = do
  requests ← collect_requests [] ps
  validate_execution_requests requests >>= λ _.
      ok (record {
        execution_requests = requests;
        bytes = concat_data ps;
        sidecars = sidecars_of ps;
      })

-- Every request has a type byte and a payload, and the type bytes rise.
abbrev pub Above : Option ℕ → List ℕ → Type 0
Above none r = Unit
Above (some p) r = p < get_or r 0 0

abbrev pub Increasing : Option ℕ → List (List ℕ) → Type 0
Increasing prev [] = Unit
Increasing prev (r ∷ rs) = (1 < length r) × Above prev r × Increasing (some (get_or r 0 0)) rs

check_requests_iff :
    (n : ℕ) (prev : Option ℕ) (rs : List (List ℕ))
    → (check_requests n prev rs ≡ ok tt) ↔ Increasing prev rs
unfolding check_requests
check_requests_iff n prev [] = ground arith
check_requests_iff n none (r ∷ rs) =
    ground (arith, check_requests_iff (n + 1) (some (get_or r 0 0)) rs)
check_requests_iff n (some p) (r ∷ rs) =
    ground (arith, check_requests_iff (n + 1) (some (get_or r 0 0)) rs)

-- The requests of a proposal are accepted exactly if there are at most 64, each has a type byte and
-- a payload, and the type bytes strictly increase.
pub validate_execution_requests_iff :
    (rs : List (List ℕ))
    → (validate_execution_requests rs ≡ ok tt)
      ↔ ((length rs ≤ max_execution_requests) × Increasing none rs)
unfolding validate_execution_requests
validate_execution_requests_iff rs = ground (arith, check_requests_iff 0 none rs)

pub data TimestampError : Type 0 where
  too_far_in_future no_latest_block parent_hash_mismatch : TimestampError
  not_after_parent below_min_block_time : TimestampError

-- crates/types/src/constants.rs
abbrev pub load_min_block_time_secs : ℕ
load_min_block_time_secs = 1

abbrev pub load_max_future_drift_secs : ℕ
load_max_future_drift_secs = 15

-- `ExecutionBlock`, as far as the test reads it.
pub record ExecutionBlock : Type 0 where
  pub block_hash : List ℕ
  pub timestamp : ℕ

-- `validate_proposed_timestamp`, with the clock's seconds as an argument. Sums do not overflow.
pub validate_proposed_timestamp :
    ℕ → Option ExecutionBlock → ℕ → List ℕ → Result TimestampError (Unit {0})
validate_proposed_timestamp now latest proposed_ts parent_hash =
    if ltb (now + load_max_future_drift_secs) proposed_ts
    then err too_far_in_future
    else elim latest [
      | none ↦ err no_latest_block
      | some b ↦
          if bytes_ord.eq parent_hash b.block_hash
          then (if leb proposed_ts b.timestamp
              then err not_after_parent
              else (if ltb proposed_ts (b.timestamp + load_min_block_time_secs)
                  then err below_min_block_time
                  else ok tt))
          else err parent_hash_mismatch
    ]

-- A proposed block is accepted exactly if it extends the latest block by hash, is later than that
-- block, and is at most 15 seconds ahead of the clock. The test of the minimum block time never
-- rejects: it repeats the one before it.
pub validate_proposed_timestamp_iff :
    (now : ℕ) (latest : Option ExecutionBlock) (ts : ℕ) (parent : List ℕ)
    → ((validate_proposed_timestamp now latest ts parent ≡ ok tt) ↔ (
        (b : ExecutionBlock) × (latest ≡ some b)
        × (parent ≡ b.block_hash)
        × (b.timestamp < ts)
        × (ts ≤ now + load_max_future_drift_secs)))
      × (validate_proposed_timestamp now latest ts parent ≡ err below_min_block_time → ⊥)
unfolding validate_proposed_timestamp
validate_proposed_timestamp_iff now none ts parent = ground arith
validate_proposed_timestamp_iff now (some b) ts parent =
    ground (arith, bytes_ord.eq_iff parent b.block_hash)
