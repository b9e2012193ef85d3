-- ===== src/Examples/Workers.antt =====
-- Forgetting and scheduled jobs at concrete inputs, over a store of one memory.
use nextral.Base.{
  ◌++◌, ℕ, ◌≡◌, refl, ap, sym, ◌∙◌, arith, ◌⊎◌, ◌+◌, ◌<◌, String, Bool, true, false, Option, none,
  some, List, [], ◌∷◌, contains, ◌==◌, triple_eq, string_eq, triple_iff, Bool-cases, inl, inr,
  if◌then◌else◌,
}
use nextral.Kinds.{redacted}
use nextral.Contracts.{ok, err, io}
use nextral.Json.{null}
use nextral.Memories.Records.{MemoryRecord}
use nextral.Memories.Store.{key_of}
use nextral.Reminders.Records.{StoreReceipt}
use nextral.Lifecycle.Records.{LeaseClaim, lifecycle_job, LifecycleScheduledJob, close, retention}
use nextral.Governance.{is_live, forget_claimed}
use nextral.Governance.Interface.{ForgetMemoryRequest, GovernanceStore, GovernanceLibraries}
use nextral.Jobs.{is_idle}
use nextral.Jobs.Interface.{RunLifecycleJobsRequest, JobStore, JobLibraries}
use nextral.Jobs.Execution.{Running, complete, work, run_job}
use nextral.Jobs.Settling.{Ends, run_job_settles}
use nextral.Jobs.Retries.{untried, again, retries_bounded}
use nextral.Jobs.Retention.{Retentions, retention_complete}
use nextral.Examples.Memories.{revived, clock}

abbrev receipt : StoreReceipt
receipt = record { backend = "test"; operation = "forget"; target_id = none; status = "ok" }

-- The state is the one memory; saved documents, leases and events are passed over.
abbrev memory_if_key : MemoryRecord → String × String × String → Option MemoryRecord
memory_if_key s k = if key_of s == k then some s else none

abbrev store : GovernanceStore MemoryRecord
store = record {
  now_timestamp = λ s. "100";
  worker_owner = λ s. (s, ok "worker-1");
  lifecycle_claim = λ tenant key owner now seconds s. (s, ok true);
  lifecycle_release = λ tenant key owner s. (s, ok tt);
  lifecycle_load = λ tenant key s. ok none;
  lifecycle_save = λ tenant key value s. (s, ok receipt);
  get_memory = λ tenant user id s. ok (memory_if_key s (tenant, user, id));
  update_memory = λ r s. (r, ok tt);
  emit_audit = λ event s. (s, ok tt);
  lifecycle_verify_archive_sources = λ r s. ok tt;
  lifecycle_forget = λ tenant user id redact s. (s, ok (receipt ∷ []));
}

abbrev libraries : GovernanceLibraries
libraries = record {
  chrono = clock;
  deterministic_id = λ parts. "id";
  to_value = λ response. ok null;
  from_value = λ value. err (io "no response");
}

abbrev request : ForgetMemoryRequest
request = record {
  tenant_id = "acme";
  user_id = "alice";
  memory_id = "m1";
  actor = "admin";
  reason = "request";
  redact = true;
}

abbrev job_store : JobStore MemoryRecord
job_store = record {
  governance = store;
  lifecycle_job_get = λ tenant user id s. ok none;
  lifecycle_job_enqueue = λ job s. (s, ok tt);
  lifecycle_job_claim_due = λ tenant user owner now limit seconds s. (s, ok []);
  lifecycle_job_save_guarded = λ claim job s. (s, ok tt);
  lifecycle_renew_fenced = λ claim seconds s. (s, ok true);
  consolidate_session = λ output s. (s, ok tt);
}

abbrev job_libraries : JobLibraries
job_libraries = record { governance = libraries; to_string = λ request. ok "request" }

abbrev run : RunLifecycleJobsRequest
run = record { tenant_id = "acme"; user_id = "alice"; now = "100"; limit = 10; lease_seconds = 30 }

abbrev claim : LeaseClaim
claim = record {
  tenant_id = "acme";
  user_id = some "alice";
  resource = lifecycle_job;
  key = "j1";
  owner = "worker-1";
  fence = 1;
}

abbrev job : LifecycleScheduledJob
job = record {
  id = "j1";
  request = record {
    tenant_id = "acme";
    user_id = "alice";
    session_id = "s1";
    trigger = retention;
    run_at = "100";
    idle_seconds = none;
    consolidation = none;
    memory_ids = "m1" ∷ [];
    redact = true;
    max_attempts = 3;
  };
  status = "queued";
  attempts = 0;
  next_attempt_at = "100";
  created_at = "90";
  updated_at = "90";
  completed_memory_ids = [];
  last_error = none;
}

abbrev completed_job : LifecycleScheduledJob
completed_job = record job {
  status = "completed";
  attempts = 1;
  updated_at = "100";
  completed_memory_ids = "m1" ∷ [];
}

abbrev retained : MemoryRecord
retained = record revived {
  content = "[redacted]";
  tags = [];
  status = redacted;
  updated_at = "100";
}

runs :
    run_job job_store job_libraries run 100_000_000_000 job claim revived
    ≡ (retained, ok completed_job)
unfolding run_job nextral.Scope.validate_identity nextral.Base.is_blank nextral.Base.any_char
    nextral.Timestamps.timestamp_epoch nextral.Timestamps.timestamp_nanos
    nextral.Timestamps.Decimal.parse_u64 nextral.Memories.Life.transition
    nextral.Governance.put_receipts
runs = refl

run_job_settles_example :
    (is_idle retention ≡ true) × (completed_job.status ≡ "queued") × (completed_job.attempts ≡ 0)
    ⊎ Ends job_store job_libraries run claim job completed_job
run_job_settles_example =
    run_job_settles job_store job_libraries run claim 100_000_000_000 job completed_job revived
      retained runs

abbrev at_work : Running MemoryRecord
at_work = record { state = revived; job = record job { status = "running"; attempts = 1 } }

worked :
    work job_store job_libraries run claim at_work
    ≡ (record { state = retained; job = completed_job }, ok tt)
unfolding work nextral.Scope.validate_identity nextral.Base.is_blank nextral.Base.any_char
    nextral.Timestamps.timestamp_epoch nextral.Timestamps.timestamp_nanos
    nextral.Timestamps.Decimal.parse_u64 nextral.Memories.Life.transition
    nextral.Governance.put_receipts
worked = refl

retention_complete_example :
    (ids : List String) × (last : Running MemoryRecord) × Retentions job_store job_libraries run
      claim at_work ids last
    × (complete job_store job_libraries run claim last
        ≡ (record { state = retained; job = completed_job }, ok tt))
    × (completed_job.completed_memory_ids ≡ at_work.job.completed_memory_ids ++ ids)
    × ((id : String)
        → contains at_work.job.request.memory_ids id ≡ true
        → contains completed_job.completed_memory_ids id ≡ true)
retention_complete_example =
    retention_complete job_store job_libraries run claim at_work
      (record { state = retained; job = completed_job }) refl worked

-- A job whose output is not there fails, and is due again a minute later.
abbrev lost : LifecycleScheduledJob
lost = record job { request = record job.request { trigger = close; memory_ids = [] } }

abbrev pending : LifecycleScheduledJob
pending = record lost {
  status = "retry_pending";
  attempts = 1;
  next_attempt_at = "160";
  updated_at = "100";
  last_error = some "invalid input: queued host outputs are unavailable";
}

fails :
    run_job job_store job_libraries run 100_000_000_000 lost claim revived ≡ (revived, ok pending)
unfolding run_job nextral.Timestamps.timestamp_add_seconds nextral.Timestamps.timestamp_nanos
    nextral.Timestamps.Decimal.parse_u64 nextral.Timestamps.format_timestamp_nanos
    nextral.Timestamps.timestamp_epoch nextral.Timestamps.Decimal.to_string
fails = refl

retries_bounded_example : 0 + 1 < 3
retries_bounded_example =
    retries_bounded job_store job_libraries 0 lost pending
      (again lost run claim 100_000_000_000 revived revived untried fails refl) (omega arith)
