-- ===== src/Examples/Jobs.antt =====
-- The queue of jobs at concrete inputs: a job that a worker has locked, and its last save.
use nextral.Base.{
  inl, inr, ℕ, ◌≡◌, refl, arith, String, Bool, true, false, Option, none, some, List, [], ◌∷◌, all,
  get, triple_eq, string_eq,
}
use nextral.Contracts.{ok, is_ok}
use nextral.Timestamps.{Chrono}
use nextral.Lifecycle.Records.{
  lifecycle_job, idle, LeaseClaim, LifecycleJobRequest, LifecycleScheduledJob, JobEntry,
  LifecycleTables,
}
use nextral.Lifecycle.Leases.{job_key}
use nextral.Lifecycle.JobQueue.{
  lifecycle_job_claim_due, lifecycle_job_get, lifecycle_job_save_guarded, saved_entry,
}
use nextral.Lifecycle.JobQueue.Locks.{claim_due-other}
use nextral.Lifecycle.JobQueue.Histories.{
  QueueCall, claims_due, saves_job, releases_job, enqueues, queue_run,
}
use nextral.Lifecycle.JobQueue.Ownership.{finished_job_final, job_lock_exclusive}

abbrev clock : Chrono
clock = record { parse_from_rfc3339 = λ text. none; format_rfc3339 = λ seconds nanos. none }

abbrev request : LifecycleJobRequest
request = record {
  tenant_id = "acme";
  user_id = "alice";
  session_id = "s1";
  trigger = idle;
  run_at = "100";
  idle_seconds = some 60;
  consolidation = none;
  memory_ids = [];
  redact = false;
  max_attempts = 3;
}

abbrev job_with : String → LifecycleScheduledJob
job_with status = record {
  id = "j1";
  request = request;
  status = status;
  attempts = 1;
  next_attempt_at = "100";
  created_at = "90";
  updated_at = "100";
  completed_memory_ids = [];
  last_error = none;
}

-- Locked by the worker until 130, with fence 1.
abbrev locked_entry : JobEntry
locked_entry = record {
  job = job_with "running";
  locked_by = some "worker-1";
  locked_until = some 130;
  fence = 1;
}

abbrev tables : LifecycleTables
tables = record {
  lifecycle_state = [];
  lifecycle_leases = [];
  lifecycle_fences = [];
  lifecycle_jobs = (("acme", "alice", "j1"), locked_entry) ∷ [];
}

abbrev claim_of_worker : String → LeaseClaim
claim_of_worker owner = record {
  tenant_id = "acme";
  user_id = some "alice";
  resource = lifecycle_job;
  key = "j1";
  owner = owner;
  fence = 1;
}

abbrev mine : LeaseClaim
mine = claim_of_worker "worker-1"

abbrev rival_calls : List QueueCall
rival_calls =
    claims_due 120 "acme" "alice" "worker-2" 120_000_000_000 10 30
    ∷ saves_job 120 (claim_of_worker "worker-2") (job_with "queued")
    ∷ releases_job (claim_of_worker "worker-2")
    ∷ enqueues (job_with "queued")
    ∷ []

abbrev saved_tables : LifecycleTables
saved_tables = record tables {
  lifecycle_jobs =
      (
        ("acme", "alice", "j1"),
        record { job = job_with "completed"; locked_by = none; locked_until = none; fence = 1 },
      )
      ∷ [];
}

worker_saves :
    lifecycle_job_save_guarded tables 120 mine (job_with "completed") ≡ (saved_tables, ok tt)
unfolding lifecycle_job_save_guarded get nextral.Base.insert
worker_saves = refl

finished_job_final_example :
    lifecycle_job_get (queue_run clock saved_tables rival_calls) "acme" "alice" "j1"
    ≡ some (job_with "completed")
finished_job_final_example =
    finished_job_final clock rival_calls tables saved_tables 120 mine (job_with "completed")
      worker_saves refl

job_there : get tables.lifecycle_jobs (job_key mine) ≡ some locked_entry
unfolding get
job_there = refl

job_lock_exclusive_example :
    (get (queue_run clock tables rival_calls).lifecycle_jobs (job_key mine) ≡ some locked_entry)
    × (is_ok
          (lifecycle_job_save_guarded
            (queue_run clock tables rival_calls)
            120
            mine
            (job_with "completed")).1
        ≡ true)
    × (get
          (lifecycle_job_save_guarded
            (queue_run clock tables rival_calls)
            120
            mine
            (job_with "completed")).0.lifecycle_jobs
          (job_key mine)
        ≡ some (saved_entry locked_entry (job_with "completed")))
job_lock_exclusive_example =
    job_lock_exclusive clock rival_calls tables 120 mine (job_with "completed") locked_entry
      job_there refl refl

claim_due-other_example :
    get
      (lifecycle_job_claim_due clock tables 120 "acme" "alice" "worker-2" 120_000_000_000 10
        30).0.lifecycle_jobs
      (job_key mine)
    ≡ some locked_entry
claim_due-other_example =
    claim_due-other clock tables 120 "acme" "alice" "worker-2" 120_000_000_000 10 30 (job_key mine)
      locked_entry job_there (inr (inr (inr (inl (130, refl, omega arith)))))

-- Once the lock has run out, the rival gets the job with a new fence.
claimed_after_expiry :
    (lifecycle_job_claim_due clock tables 130 "acme" "alice" "worker-2" 130_000_000_000 10 30).1
    ≡ (job_with "running", record (claim_of_worker "worker-2") { fence = 2 }) ∷ []
unfolding lifecycle_job_claim_due get nextral.Timestamps.timestamp_nanos
    nextral.Timestamps.Decimal.parse_u64
claimed_after_expiry = refl
