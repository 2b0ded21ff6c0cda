-- ===== src/Archiver/Retries.antt =====
-- The retries of the archiver (crates/node/src/archiver.rs): the waiting times, and the end of the
-- loop over the entries that are due.
use ultramarine.Common.{
  ℕ, zero, suc, ◌+◌, ◌*◌, ◌^◌, ◌≤◌, ◌<◌, ◌≡◌, refl, inl, inr, Bool, true, false, some, List, [],
  ◌∷◌, ◌++◌, arith, leb, max, min, if◌then◌else◌, Bool-cases,
}
use native.Mathlib.Nat.{two-pow-succ}
use ultramarine.Archiver.{
  ArchiveJob, RetryEntry, backoff_ms, after_job, run_due, max_retry_backoff_ms,
}

two-pow_mono : (a b : ℕ) → a ≤ b → 2 ^ a ≤ 2 ^ b
two-pow_mono zero zero h = omega arith
two-pow_mono (suc a) zero h = absurd (omega (arith, h))
two-pow_mono zero (suc b) h = omega (arith, two-pow_mono zero b (omega arith), two-pow-succ b)
two-pow_mono (suc a) (suc b) h =
    omega (arith, two-pow_mono a b (omega (arith, h)), two-pow-succ a, two-pow-succ b)

mul_mono : (k a b : ℕ) → a ≤ b → k * a ≤ k * b
mul_mono zero a b h = omega arith
mul_mono (suc k) a b h = grind (arith, mul_mono k a b h)

-- The time before a retry is at least a millisecond and at least the configured time (up to the
-- maximum), at most a minute, and never shorter after more attempts.
pub backoff_ms_bounds :
    (retry_backoff_ms attempts more : ℕ)
    → attempts ≤ more
    → (1 ≤ backoff_ms retry_backoff_ms attempts)
      × (min (max retry_backoff_ms 1) max_retry_backoff_ms ≤ backoff_ms retry_backoff_ms attempts)
      × (backoff_ms retry_backoff_ms attempts ≤ max_retry_backoff_ms)
      × (backoff_ms retry_backoff_ms attempts ≤ backoff_ms retry_backoff_ms more)
unfolding backoff_ms
backoff_ms_bounds base a b h =
    let k = max base 1 in
    let p = two-pow_mono 0 (min a 16) (omega arith) in
    let q = two-pow_mono (min a 16) (min b 16) (omega (arith, h)) in
    let one = mul_mono k 1 (2 ^ min a 16) p in
    let up = mul_mono k (2 ^ min a 16) (2 ^ min b 16) q in
    (omega (arith, one), omega (arith, one), omega arith, omega (arith, up))

-- The number of entries that are due.
abbrev pub due_count : ℕ → List RetryEntry → ℕ
due_count now [] = 0
due_count now (e ∷ l) = if leb e.retry_at now then suc (due_count now l) else due_count now l

abbrev pub StartsLater : ℕ → List RetryEntry → Type 0
StartsLater now [] = Unit
StartsLater now (e ∷ l) = now < e.retry_at

due_count-append :
    (now : ℕ) (l : List RetryEntry) (e : RetryEntry)
    → now < e.retry_at
    → due_count now (l ++ e ∷ []) ≡ due_count now l
due_count-append now [] e h = ground (arith, h)
due_count-append now (x ∷ l) e h = ground (arith, due_count-append now l e h)

due_count-after_job :
    (backoff now : ℕ) (outcome : Bool × ℕ) (job : ArchiveJob) (attempts : ℕ) (l : List RetryEntry)
    → now ≤ outcome.1
    → due_count now (after_job backoff outcome job attempts l) ≡ due_count now l
unfolding after_job
due_count-after_job backoff now (true, time) job attempts l h = refl
due_count-after_job backoff now (false, time) job attempts l h =
    let b = backoff_ms_bounds backoff attempts attempts (omega arith) in
    due_count-append now l _ (omega (arith, h, b.0))

-- If the clock does not run backwards, the loop over the due entries ends, whatever jobs fail: fuel
-- above the number of due entries gives a result, in which the first entry, if any, is not due.
pub run_due_ends :
    (backoff now : ℕ) (process : ℕ → ArchiveJob → Bool × ℕ) (fuel k : ℕ) (queue : List RetryEntry)
    → ((n : ℕ) (job : ArchiveJob) → now ≤ (process n job).1)
    → due_count now queue < fuel
    → (rest : List RetryEntry) × (run_due backoff process now fuel k queue ≡ some rest)
      × StartsLater now rest
unfolding run_due
run_due_ends backoff now process zero k queue clock h = absurd (omega (arith, h))
run_due_ends backoff now process (suc fuel) k [] clock h = ([], refl, tt)
run_due_ends backoff now process (suc fuel) k (e ∷ queue) clock h =
    elim (Bool-cases (leb e.retry_at now)) [
      | inr p ↦ (e ∷ queue, rw p refl, ground (arith, p))
      | inl p ↦
          let next = after_job backoff (process k e.job) e.job e.attempts queue in
          let same =
            due_count-after_job backoff now (process k e.job) e.job e.attempts queue
              (clock k e.job) in
          let (rest, f, later) =
            run_due_ends backoff now process fuel (k + 1) next clock (ground (arith, h, p, same)) in
          (rest, rw p f, later)
    ]
