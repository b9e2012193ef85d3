-- ===== src/Jobs/Execution.antt =====
-- runtime/prospective.rs: one run of a worker over the jobs that are due. The metrics that the code
-- counts are not part of the state.
use nextral.Base.{
  ℕ, ◌+◌, ◌-◌, ◌^◌, min, Bool, not, ◌||◌, String, Option, none, some, List, [], ◌∷◌, ◌++◌, contains,
  ltb, leb, nat_eqb, ◌==◌, string_eq, if◌then◌else◌,
}
use nextral.Contracts.{
  CoreError, CoreResult, ok, err, invalid_input, lease_lost, refuse, error_text, ◌>>=◌ as chain,
}
use nextral.Actions.{Action, ◌>>=◌, ◌>>◌, reads, lift, attempt, for_each}
use nextral.Json.{Value, str_at}
use nextral.Timestamps.{timestamp_nanos, timestamp_epoch, timestamp_add_seconds}
use nextral.Scope.{validate_identity}
use nextral.Scope.Keys.{session_activity, user_key}
use nextral.Lifecycle.Records.{LeaseClaim, LifecycleScheduledJob}
use nextral.Governance.Interface.{ForgetMemoryRequest, ForgetMemoryResponse}
use nextral.Governance.Leased.{retain_memory}
use nextral.Jobs.Interface.{RunLifecycleJobsRequest, JobStore, JobLibraries}
use nextral.Jobs.{is_idle, is_retention, seconds_or_zero}

-- The store with the job that is at work: what the work did to the job stays where it fails.
pub record Running (S : Type 0) : Type 0 where
  pub state : S
  pub job : LifecycleScheduledJob

abbrev pub on_store : {S A : Type 0} → Action S A → Action (Running S) A
on_store action running =
    let (t, outcome) = action running.state in (record running { state = t }, outcome)

-- u32 `saturating_add(1)`
abbrev pub one_more : ℕ → ℕ
one_more attempts = min (attempts + 1) (2 ^ 32 - 1)

module _ {S : Type 0} (store : JobStore S) (libraries : JobLibraries)
    (request : RunLifecycleJobsRequest) where
  abbrev pub present : S → String
  present s = store.governance.now_timestamp s

  module _ (now_nanos : ℕ) where
    abbrev idle_until : LifecycleScheduledJob → Option Value → CoreResult (Option String)
    idle_until job none = ok none
    idle_until job (some activity) = elim (str_at activity "last_activity_at") [
      | none ↦ ok none
      | some last ↦
          chain
            (timestamp_add_seconds libraries.governance.chrono last
              (seconds_or_zero job.request.idle_seconds))
            λ idle_due.
              chain (timestamp_nanos libraries.governance.chrono idle_due)
                λ due. ok (if ltb now_nanos due then some idle_due else none)
    ]

    -- Until when a job that waits for an idle session has to wait.
    unfoldable pub postponed_until : LifecycleScheduledJob → S → CoreResult (Option String)
    unfolding str_at
    postponed_until job s =
        if is_idle job.request.trigger
        then chain
            (store.governance.lifecycle_load request.tenant_id
              (user_key session_activity request.user_id job.request.session_id) s)
            (idle_until job)
        else ok none

  abbrev pub save : LeaseClaim → LifecycleScheduledJob → Action S LifecycleScheduledJob
  save claim job = do store.lifecycle_job_save_guarded claim job; lift (ok job)

  abbrev pub postpone : LeaseClaim → LifecycleScheduledJob → String → Action S LifecycleScheduledJob
  postpone claim job idle_due s =
      save claim
        (record job { next_attempt_at = idle_due; status = "queued"; updated_at = present s }) s

  abbrev pub start : LeaseClaim → LifecycleScheduledJob → Action S LifecycleScheduledJob
  start claim job s =
      save claim
        (record job {
          attempts = one_more job.attempts;
          status = "running";
          updated_at = present s;
        })
        s

  abbrev pub forget_request : LifecycleScheduledJob → String → ForgetMemoryRequest
  forget_request job id = record {
    tenant_id = request.tenant_id;
    user_id = request.user_id;
    memory_id = id;
    actor = "retention_worker";
    reason = "scheduled retention";
    redact = job.request.redact;
  }

  abbrev pub fence_job : LeaseClaim → Action S (Unit {0})
  fence_job claim = do
    renewed ← store.lifecycle_renew_fenced claim request.lease_seconds
    lift (refuse (not renewed) (lease_lost "job lease lost during retention"))

  -- A memory that was retained is noted in the job, which is saved.
  abbrev pub note_retained : LeaseClaim → String → Action (Running S) (Unit {0})
  note_retained claim id running =
      let job : LifecycleScheduledJob = record running.job {
        completed_memory_ids = running.job.completed_memory_ids ++ (id ∷ []);
        updated_at = present running.state;
      } in
      on_store (store.lifecycle_job_save_guarded claim job) (record running { job = job })

  abbrev pub check_retained :
      LeaseClaim → String → ForgetMemoryResponse → Action (Running S) (Unit {0})
  check_retained claim id response =
      if not (response.status == "completed")
      then lift (err (invalid_input "retention propagation remains incomplete"))
      else note_retained claim id

  unfoldable pub retain_one : LeaseClaim → String → Action (Running S) (Unit {0})
  unfolding retain_memory
  retain_one claim id running =
      if contains running.job.completed_memory_ids id
      then (running, ok tt)
      else (on_store (
              retain_memory store.governance libraries.governance (forget_request running.job id)
                (fence_job claim))
            >>= check_retained claim id)
          running

  unfoldable pub retain_all : LeaseClaim → List String → Action (Running S) (Unit {0})
  unfolding retain_one for_each
  retain_all claim ids = for_each (retain_one claim) ids

  abbrev pub consolidate : Action (Running S) (Unit {0})
  consolidate running = elim running.job.request.consolidation [
    | none ↦ (running, err (invalid_input "queued host outputs are unavailable"))
    | some output ↦ on_store (store.consolidate_session output) running
  ]

  unfoldable pub do_work : LeaseClaim → Action (Running S) (Unit {0})
  unfolding retain_all
  do_work claim running =
      if is_retention running.job.request.trigger
      then retain_all claim running.job.request.memory_ids running
      else consolidate running

  abbrev pub complete : LeaseClaim → Action (Running S) (Unit {0})
  complete claim running =
      let job : LifecycleScheduledJob = record running.job {
        status = "completed";
        last_error = none;
        updated_at = present running.state;
      } in
      on_store (store.lifecycle_job_save_guarded claim job) (record running { job = job })

  unfoldable pub work : LeaseClaim → Action (Running S) (Unit {0})
  unfolding do_work
  work claim = do do_work claim; complete claim

  -- The job after its work failed.
  abbrev pub counted : ℕ → LifecycleScheduledJob → LifecycleScheduledJob
  counted attempts_before job =
      if nat_eqb job.attempts attempts_before
      then record job { attempts = one_more job.attempts }
      else job

  unfoldable pub fail : ℕ → LifecycleScheduledJob → CoreError → CoreResult LifecycleScheduledJob
  fail attempts_before job failure =
      let noted : LifecycleScheduledJob = record (counted attempts_before job) {
        last_error = some (error_text failure);
      } in
      if leb noted.request.max_attempts noted.attempts
      then ok (record noted { status = "terminal_failed" })
      else chain (timestamp_add_seconds libraries.governance.chrono request.now 60)
          λ time. ok (record noted { status = "retry_pending"; next_attempt_at = time })

  abbrev pub is_counted : String → Bool
  is_counted status =
      status == "completed" || status == "retry_pending" || status == "terminal_failed"

  -- The age of the job is read for the metrics, so an unreadable time of creation ends the run.
  unfoldable pub measure : LifecycleScheduledJob → CoreResult LifecycleScheduledJob
  measure job =
      if not (is_counted job.status)
      then ok job
      else chain (timestamp_epoch libraries.governance.chrono job.created_at) λ created. ok job

  -- The save of a failure is tried once, and its own failure is passed over.
  abbrev pub save_failed : LeaseClaim → LifecycleScheduledJob → Action S LifecycleScheduledJob
  save_failed claim job = do
    saved ← attempt (store.lifecycle_job_save_guarded claim job)
    lift (measure job)

  unfoldable pub conclude :
      LeaseClaim → ℕ → Running S × CoreResult (Unit {0}) → S × CoreResult LifecycleScheduledJob
  unfolding fail measure
  conclude claim attempts_before (running, ok done) = (running.state, measure running.job)
  conclude claim attempts_before (running, err failure) =
      (lift (fail attempts_before running.job failure) >>= save_failed claim) running.state

  abbrev pub work_on : LeaseClaim → ℕ → LifecycleScheduledJob → Action S LifecycleScheduledJob
  work_on claim attempts_before job s =
      conclude claim attempts_before (work claim (record { state = s; job = job }))

  abbrev pub run_now : LeaseClaim → LifecycleScheduledJob → Action S LifecycleScheduledJob
  run_now claim job = start claim job >>= work_on claim job.attempts

  abbrev pub run_or_postpone :
      LeaseClaim → LifecycleScheduledJob → Option String → Action S LifecycleScheduledJob
  run_or_postpone claim job none = run_now claim job
  run_or_postpone claim job (some idle_due) = postpone claim job idle_due

  unfoldable pub run_job : ℕ → LifecycleScheduledJob → LeaseClaim → Action S LifecycleScheduledJob
  unfolding postponed_until work conclude
  run_job now_nanos job claim = reads (postponed_until now_nanos job) >>= run_or_postpone claim job

  unfoldable pub run_jobs :
      ℕ → List (LifecycleScheduledJob × LeaseClaim) → Action S (List LifecycleScheduledJob)
  unfolding run_job
  run_jobs now_nanos [] s = (s, ok [])
  run_jobs now_nanos ((job, claim) ∷ rest) s =
      let (t, outcome) = run_job now_nanos job claim s in
      let (u, later) = run_jobs now_nanos rest t in
      elim outcome [
        | err failure ↦ (t, err failure)
        | ok done ↦ elim later [
          | err failure ↦ (u, err failure)
          | ok results ↦ (u, ok (done ∷ results))
        ]
      ]

  unfoldable pub execute_lifecycle_jobs : Action S (List LifecycleScheduledJob)
  unfolding run_jobs
  execute_lifecycle_jobs = do
    lift (validate_identity request.tenant_id request.user_id none)
    now_nanos ← lift (timestamp_nanos libraries.governance.chrono request.now)
    lift (
        refuse
          (nat_eqb request.limit 0 || ltb 1000 request.limit || nat_eqb request.lease_seconds 0)
          (invalid_input "job limit must be 1..=1000 and lease positive"))
    owner ← store.governance.worker_owner
    claimed ←
        store.lifecycle_job_claim_due request.tenant_id request.user_id owner now_nanos
          request.limit request.lease_seconds
    run_jobs now_nanos claimed
