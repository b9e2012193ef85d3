-- ===== src/Jobs/Settling.antt =====
-- Every run of a job ends in one of three ways.
use mathlib.Core.Path.{subst}
use nextral.Base.{
  ℕ, ◌≡◌, refl, ap, ◌∙◌, sym, arith, ◌⊎◌, inl, inr, true, String, Option, none, some, Bool-cases,
  string_eq,
}
use nextral.Contracts.{CoreError, CoreResult, ok, err}
use nextral.Actions.{◌>>=◌, reads, lift, attempt, action_value, action_rest}
use nextral.Lifecycle.Records.{LeaseClaim, LifecycleScheduledJob}
use nextral.Jobs.Interface.{RunLifecycleJobsRequest, JobStore, JobLibraries}
use nextral.Jobs.{is_idle}
use nextral.Jobs.Execution.{
  Running, one_more, save, start, work, fail, measure, save_failed, conclude, work_on, run_now,
  run_or_postpone, postponed_until, run_job,
}
use nextral.Jobs.Outcomes.{Completed, Failed, work-IsKept, work-Completed, fail-Failed, measure_lem}

module _ {S : Type 0} (store : JobStore S) (libraries : JobLibraries)
    (request : RunLifecycleJobsRequest) (claim : LeaseClaim) where
  abbrev pub Done : LifecycleScheduledJob → Type 0
  Done = Completed store libraries request claim

  abbrev pub Fails : LifecycleScheduledJob → Type 0
  Fails = Failed store libraries request claim

  -- One attempt more was counted for the job, and it was completed or it failed.
  abbrev pub Ends : LifecycleScheduledJob → LifecycleScheduledJob → Type 0
  Ends job after =
      (after.attempts ≡ one_more job.attempts)
      × (after.request ≡ job.request)
      × (Done after ⊎ Fails after)

  save_lem :
      (job after : LifecycleScheduledJob) (s t : S)
      → save store libraries request claim job s ≡ (t, ok after)
      → job ≡ after
  save_lem job after s t went =
      let (u, given, saved) =
        action_rest (store.lifecycle_job_save_guarded claim job) (lift (ok job)) s went in
      ground (arith, given)

  failed_end :
      (before : ℕ) (job after : LifecycleScheduledJob) (failure : CoreError) (s t : S)
      → job.attempts ≡ one_more before
      → (lift (fail store libraries request before job failure)
            >>= save_failed store libraries request claim)
          s
        ≡ (t, ok after)
      → (after.attempts ≡ one_more before) × (after.request ≡ job.request) × Fails after
  failed_end before job after failure s t started went =
      let (ended, u, saves, failed_so) =
        action_value (lift (fail store libraries request before job failure))
          (save_failed store libraries request claim) s went in
      let (saved, v, measures, tried) =
        action_value (attempt (store.lifecycle_job_save_guarded claim ended))
          (λ saved. lift (measure store libraries request ended)) u saves in
      let same =
        measure_lem store libraries request claim ended after (ap (λ did. did.1) measures) in
      subst (λ j. (j.attempts ≡ one_more before) × (j.request ≡ job.request) × Fails j) same
        (fail-Failed store libraries request claim before job ended failure started
          (ap (λ did. did.1) failed_so))

  conclude-Ends :
      (job after : LifecycleScheduledJob) (running : Running S) (outcome : CoreResult (Unit {0}))
      (t : S)
      → running.job.attempts ≡ one_more job.attempts
      → running.job.request ≡ job.request
      → (outcome ≡ ok tt → Done running.job)
      → conclude store libraries request claim job.attempts (running, outcome) ≡ (t, ok after)
      → Ends job after
  unfolding conclude
  conclude-Ends job after running (ok done) t started same completed went =
      let given =
        measure_lem store libraries request claim running.job after (ap (λ did. did.1) went) in
      subst (Ends job) given (started, same, inl (completed refl))
  conclude-Ends job after running (err failure) t started same completed went =
      let (attempts, kept, failed) =
        failed_end job.attempts running.job after failure running.state t started went in
      (attempts, kept ∙ same, inr failed)

  run_now-Ends :
      (job after : LifecycleScheduledJob) (s t : S)
      → run_now store libraries request claim job s ≡ (t, ok after)
      → Ends job after
  run_now-Ends job after s t went =
      let (started, u, works, saved) =
        action_value (start store libraries request claim job)
          (work_on store libraries request claim job.attempts) s went in
      let same = save_lem _ started s u saved in
      let running : Running S = record { state = u; job = started } in
      let did = work store libraries request claim running in
      let (attempts, kept) = work-IsKept store libraries request claim running in
      conclude-Ends job after did.0 did.1 t (attempts ∙ ap (λ j. j.attempts) (sym same))
        (kept ∙ ap (λ j. j.request) (sym same))
        (λ good.
          work-Completed store libraries request claim running did.0 (ap (λ o. (did.0, o)) good))
        works

  waits_idle :
      (now_nanos : ℕ) (job : LifecycleScheduledJob) (until : String) (s : S)
      → postponed_until store libraries request now_nanos job s ≡ ok (some until)
      → is_idle job.request.trigger ≡ true
  unfolding postponed_until
  waits_idle now_nanos job until s h = elim (Bool-cases (is_idle job.request.trigger)) [
    | inl waits ↦ waits
    | inr other ↦ absurd (ground (arith, other, h))
  ]

  run_or_postpone-Ends :
      (job after : LifecycleScheduledJob) (until : Option String) (s t : S)
      → ((time : String) → until ≡ some time → is_idle job.request.trigger ≡ true)
      → run_or_postpone store libraries request claim job until s ≡ (t, ok after)
      → (is_idle job.request.trigger ≡ true)
          × (after.status ≡ "queued")
          × (after.attempts ≡ job.attempts)
        ⊎ Ends job after
  run_or_postpone-Ends job after none s t idle_only went = inr (run_now-Ends job after s t went)
  run_or_postpone-Ends job after (some time) s t idle_only went =
      let same = save_lem _ after s t went in
      inl (idle_only time refl, ap (λ j. j.status) (sym same), ap (λ j. j.attempts) (sym same))

  -- A run of a job that ends without an error of its own postpones a job that waits for an idle session,
  -- without counting an attempt, or counts one attempt, which completes the job or fails: then the job
  -- is given up once its attempts are used, and is due again a minute after the time of the run
  -- otherwise.
  pub run_job_settles :
      (now_nanos : ℕ) (job after : LifecycleScheduledJob) (s t : S)
      → run_job store libraries request now_nanos job claim s ≡ (t, ok after)
      → (is_idle job.request.trigger ≡ true)
          × (after.status ≡ "queued")
          × (after.attempts ≡ job.attempts)
        ⊎ Ends job after
  unfolding run_job
  run_job_settles now_nanos job after s t went =
      let (until, u, runs, waited) =
        action_value (reads (postponed_until store libraries request now_nanos job))
          (run_or_postpone store libraries request claim job) s went in
      run_or_postpone-Ends job after until u t
        (λ time some_time.
          waits_idle now_nanos job time s (ap (λ did. did.1) waited ∙ ap (λ w. ok w) some_time))
        runs
