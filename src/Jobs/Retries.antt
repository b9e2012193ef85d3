-- ===== src/Jobs/Retries.antt =====
-- A job whose runs fail is given up.
use nextral.Base.{
  ℕ, zero, suc, ◌≡◌, refl, ap, ◌∙◌, arith, ◌⊎◌, inl, inr, ◌+◌, ◌^◌, ◌<◌, false, leb, Bool-cases,
  string_eq, str_iff,
}
use nextral.Contracts.{ok}
use nextral.Lifecycle.Records.{LeaseClaim, LifecycleScheduledJob}
use nextral.Jobs.Interface.{RunLifecycleJobsRequest, JobStore, JobLibraries}
use nextral.Jobs.Execution.{one_more, run_job}
use nextral.Jobs.Settling.{Ends, run_job_settles}

module _ {S : Type 0} (store : JobStore S) (libraries : JobLibraries) where
  -- Runs of a job, each of which leaves it to be retried, in whatever states of the store and at whatever
  -- times. The next run takes the job as the last one returned it.
  pub data RetryRuns (job : LifecycleScheduledJob) : ℕ → LifecycleScheduledJob → Type 0 where
    untried : RetryRuns job 0 job
    again :
        {n : ℕ} {after : LifecycleScheduledJob} (mid : LifecycleScheduledJob)
        (request : RunLifecycleJobsRequest) (claim : LeaseClaim) (now_nanos : ℕ) (s t : S)
        → RetryRuns job n mid
        → run_job store libraries request now_nanos mid claim s ≡ (t, ok after)
        → after.status ≡ "retry_pending"
        → RetryRuns job (suc n) after

  settled_retry :
      (request : RunLifecycleJobsRequest) (claim : LeaseClaim) (job after : LifecycleScheduledJob)
      → Ends store libraries request claim job after
      → after.status ≡ "retry_pending"
      → leb after.request.max_attempts after.attempts ≡ false
  settled_retry request claim job after (attempts, same, inl (done, clean)) pending =
      absurd (ground (arith, done, pending, str_iff "completed" "retry_pending"))
  settled_retry request claim job after (attempts, same, inr failed) pending =
      elim (Bool-cases (leb after.request.max_attempts after.attempts)) [
        | inr more ↦ more
        | inl over ↦ absurd (
            ground
              (arith, failed.given_up over, pending, str_iff "terminal_failed" "retry_pending"))
      ]

  run_retry :
      (request : RunLifecycleJobsRequest) (claim : LeaseClaim) (now_nanos : ℕ)
      (job after : LifecycleScheduledJob) (s t : S)
      → run_job store libraries request now_nanos job claim s ≡ (t, ok after)
      → after.status ≡ "retry_pending"
      → (after.attempts ≡ one_more job.attempts)
        × (after.request ≡ job.request)
        × (after.attempts < after.request.max_attempts)
  run_retry request claim now_nanos job after s t went pending =
      elim (run_job_settles store libraries request claim now_nanos job after s t went) [
        | inl (waits, waiting, same) ↦
            absurd (ground (arith, waiting, pending, str_iff "queued" "retry_pending"))
        | inr (attempts, same, ended) ↦
            let more = settled_retry request claim job after (attempts, same, ended) pending in
            (attempts, same, ground (arith, more))
      ]

  retries_counted :
      (n : ℕ) (job after : LifecycleScheduledJob)
      → RetryRuns job n after
      → job.request.max_attempts < 2 ^ 32
      → (after.request ≡ job.request)
        × (after.attempts ≡ job.attempts + n)
        × ((n ≡ 0) ⊎ (after.attempts < job.request.max_attempts))
  retries_counted zero job after untried small = (refl, omega arith, inl refl)
  retries_counted (suc n) job after (again mid request claim now_nanos s t before went pending)
        small =
      let (same, count, below) = retries_counted n job mid before small in
      let (attempts, kept, less) = run_retry request claim now_nanos mid after s t went pending in
      let limit : after.request.max_attempts ≡ job.request.max_attempts =
        ap (λ r. r.max_attempts) (kept ∙ same) in
      (kept ∙ same, omega (arith, attempts, count, less, limit), inr (omega (arith, less, limit)))

  -- A job is left to be retried fewer times than it has attempts: after so many runs of it, it had room
  -- for one attempt more.
  pub retries_bounded :
      (n : ℕ) (job after : LifecycleScheduledJob)
      → RetryRuns job (suc n) after
      → job.request.max_attempts < 2 ^ 32
      → job.attempts + suc n < job.request.max_attempts
  retries_bounded n job after runs small =
      let (same, count, below) = retries_counted (suc n) job after runs small in
      elim below [ inl none ↦ absurd (omega arith) | inr less ↦ omega (arith, count, less) ]
