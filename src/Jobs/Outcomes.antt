-- ===== src/Jobs/Outcomes.antt =====
-- How a run of a job ends.
use mathlib.Core.Path.{subst}
use nextral.Base.{
  ℕ, ◌≡◌, refl, ap, ◌∙◌, sym, arith, inl, inr, true, false, String, none, some, List, [], ◌∷◌, leb,
  nat_eqb_iff, Bool-cases, string_eq,
}
use nextral.Contracts.{CoreError, ok, CoreResult-cases, error_text}
use nextral.Actions.{action_rest, action_end, for_each}
use nextral.Timestamps.{timestamp_add_seconds, timestamp_epoch}
use nextral.Lifecycle.Records.{LeaseClaim, LifecycleScheduledJob}
use nextral.Jobs.Interface.{RunLifecycleJobsRequest, JobStore, JobLibraries}
use nextral.Jobs.{is_retention}
use nextral.Jobs.Execution.{
  Running, one_more, retain_one, retain_all, do_work, complete, work, counted, fail, is_counted,
  measure,
}

-- What no step of the work changes of a job.
abbrev pub IsKept : LifecycleScheduledJob → LifecycleScheduledJob → Type 0
IsKept job after = (after.attempts ≡ job.attempts) × (after.request ≡ job.request)

IsKept-then : (a b c : LifecycleScheduledJob) → IsKept a b → IsKept b c → IsKept a c
IsKept-then a b c (m, n) (p, q) = (p ∙ m, q ∙ n)

module _ {S : Type 0} (store : JobStore S) (libraries : JobLibraries)
    (request : RunLifecycleJobsRequest) (claim : LeaseClaim) where
  retain_one-IsKept :
      (id : String) (running : Running S)
      → IsKept running.job (retain_one store libraries request claim id running).0.job
  unfolding retain_one
  retain_one-IsKept id running = (ground arith, ground arith)

  retain_all-IsKept :
      (ids : List String) (running : Running S)
      → IsKept running.job (retain_all store libraries request claim ids running).0.job
  unfolding retain_all for_each
  retain_all-IsKept [] running = (refl, refl)
  retain_all-IsKept (id ∷ ids) running =
      let next = (retain_one store libraries request claim id running).0 in
      let one = retain_one-IsKept id running in
      let rest = retain_all-IsKept ids next in
      elim (CoreResult-cases (retain_one store libraries request claim id running).1) [
        | inr (failure, refused) ↦ (ground (arith, one), ground (arith, one))
        | inl (done, retained) ↦ (ground (arith, one, rest), ground (arith, one, rest))
      ]

  do_work-IsKept :
      (running : Running S)
      → IsKept running.job (do_work store libraries request claim running).0.job
  unfolding do_work
  do_work-IsKept running = elim (Bool-cases (is_retention running.job.request.trigger)) [
    | inl retaining ↦
        rw (retaining, do_work) (retain_all-IsKept running.job.request.memory_ids running)
    | inr consolidating ↦ rw (consolidating, do_work) (ground arith, ground arith)
  ]

  pub work-IsKept :
      (running : Running S) → IsKept running.job (work store libraries request claim running).0.job
  unfolding work
  work-IsKept running =
      action_end (λ next. IsKept running.job next.job) (complete store libraries request claim)
        (do_work store libraries request claim) running (do_work-IsKept running) (λ next kept. kept)

  pub measure_lem :
      (job after : LifecycleScheduledJob)
      → measure store libraries request job ≡ ok after
      → job ≡ after
  unfolding measure
  measure_lem job after went = elim (Bool-cases (is_counted store libraries request job.status)) [
    | inr other ↦ ground arith
    | inl counts ↦
        elim (CoreResult-cases (timestamp_epoch libraries.governance.chrono job.created_at)) [
          | inr (failure, refused) ↦ absurd (ground arith)
          | inl (created, read) ↦ ground arith
        ]
  ]

  -- The job was completed, without an error.
  abbrev pub Completed : LifecycleScheduledJob → Type 0
  Completed after = (after.status ≡ "completed") × (after.last_error ≡ none)

  -- The job failed: it is given up once it has had all its attempts, and is due again in a minute
  -- otherwise.
  pub record Failed (after : LifecycleScheduledJob) : Type 0 where
    pub error : CoreError
    pub noted : after.last_error ≡ some (error_text error)
    pub given_up :
        leb after.request.max_attempts after.attempts ≡ true → after.status ≡ "terminal_failed"
    pub retried :
        leb after.request.max_attempts after.attempts ≡ false
        → (after.status ≡ "retry_pending")
          × (timestamp_add_seconds libraries.governance.chrono request.now 60
              ≡ ok after.next_attempt_at)

  complete_lem :
      (running next : Running S)
      → complete store libraries request claim running ≡ (next, ok tt)
      → Completed next.job
  complete_lem running next went =
      (ap (λ did. did.0.job.status) (sym went), ap (λ did. did.0.job.last_error) (sym went))

  pub work-Completed :
      (running next : Running S)
      → work store libraries request claim running ≡ (next, ok tt)
      → Completed next.job
  unfolding work
  work-Completed running next went =
      let (u, completes, worked) =
        action_rest (do_work store libraries request claim) (complete store libraries request claim)
          running went in
      complete_lem u next completes

  counted_lem :
      (before : ℕ) (job : LifecycleScheduledJob)
      → job.attempts ≡ one_more before
      → ((counted store libraries request before job).attempts ≡ one_more before)
        × ((counted store libraries request before job).request ≡ job.request)
  counted_lem before job started = (ground (arith, nat_eqb_iff job.attempts before), ground arith)

  pub fail-Failed :
      (before : ℕ) (job after : LifecycleScheduledJob) (failure : CoreError)
      → job.attempts ≡ one_more before
      → fail store libraries request before job failure ≡ ok after
      → (after.attempts ≡ one_more before) × (after.request ≡ job.request) × Failed after
  unfolding fail
  fail-Failed before job after failure started went =
      let (attempts, same) = counted_lem before job started in
      let noted : LifecycleScheduledJob = record (counted store libraries request before job) {
        last_error = some (error_text failure);
      } in
      elim (Bool-cases (leb noted.request.max_attempts noted.attempts)) [
        | inl over ↦
            let ended : LifecycleScheduledJob = record noted { status = "terminal_failed" } in
            let given : ended ≡ after = ground (arith, over, went) in
            subst (λ j. (j.attempts ≡ one_more before) × (j.request ≡ job.request) × Failed j) given
              (
                attempts,
                same,
                record {
                  error = failure;
                  noted = refl;
                  given_up = λ all_used. refl;
                  retried = λ more. absurd (ground (arith, over, more));
                },
              )
        | inr under ↦
            elim (CoreResult-cases
              (timestamp_add_seconds libraries.governance.chrono request.now 60)) [
                | inr (refusal, refused) ↦ absurd (ground (arith, under, went, refused))
                | inl (time, later) ↦
                    let ended : LifecycleScheduledJob = record noted {
                      status = "retry_pending";
                      next_attempt_at = time;
                    } in
                    let given : ended ≡ after = ground (arith, under, went, later) in
                    subst
                      (λ j. (j.attempts ≡ one_more before) × (j.request ≡ job.request) × Failed j)
                      given
                      (
                        attempts,
                        same,
                        record {
                          error = failure;
                          noted = refl;
                          given_up = λ all_used. absurd (ground (arith, under, all_used));
                          retried = λ more. (refl, later);
                        },
                      )
              ]
      ]
