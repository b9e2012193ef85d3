-- ===== src/Jobs.antt =====
-- runtime/prospective.rs: enqueuing a job.
pub mod Interface
pub mod Execution
pub mod Outcomes
pub mod Settling
pub mod Retries
pub mod Retention
use nextral.Base.{
  ℕ, Bool, true, false, not, ◌&&◌, ◌||◌, String, Option, none, some, is_some, List, [], ◌∷◌,
  is_empty, nat_eqb, ◌==◌, string_eq, if◌then◌else◌,
}
use nextral.Contracts.{
  CoreResult, ok, err, invalid_input, refuse, ok_or, ◌>>=◌ as chain, ◌>>◌ as chain_done,
}
use nextral.Actions.{Action, ◌>>=◌, ◌>>◌, reads, lift}
use nextral.Json.{Value, object, field, end, string}
use nextral.Timestamps.{canonical_timestamp}
use nextral.Scope.{validate_identity}
use nextral.Scope.Keys.{session_activity, user_key}
use nextral.Lifecycle.Records.{
  LifecycleTrigger, idle, close, deep_trigger, retention, ConsolidationLane, fast, deep,
  ConsolidationRequest, LifecycleJobRequest, LifecycleScheduledJob,
}
use nextral.Graph.{validate_components}
use nextral.Governance.Interface.{ForgetMemoryRequest}
use nextral.Reminders.Delivery.{acknowledged}
use nextral.Jobs.Interface.{JobStore, JobLibraries}

abbrev pub is_idle : LifecycleTrigger → Bool
is_idle idle = true
is_idle _ = false

abbrev pub is_close : LifecycleTrigger → Bool
is_close close = true
is_close _ = false

abbrev pub is_retention : LifecycleTrigger → Bool
is_retention retention = true
is_retention _ = false

-- The lane that the host's output of a job must have.
abbrev pub is_expected_lane : LifecycleTrigger → ConsolidationLane → Bool
is_expected_lane deep_trigger deep = true
is_expected_lane deep_trigger fast = false
is_expected_lane _ fast = true
is_expected_lane _ deep = false

-- `idle_seconds.unwrap_or(0)`
abbrev pub seconds_or_zero : Option ℕ → ℕ
seconds_or_zero none = 0
seconds_or_zero (some n) = n

-- Identity and lane of a host's output are those of the job.
abbrev pub matches_job : LifecycleJobRequest → ConsolidationRequest → Bool
matches_job request output =
    output.tenant_id == request.tenant_id
    && output.user_id == request.user_id
    && output.session_id == request.session_id
    && is_expected_lane request.trigger output.lane

-- A retention names its memories and has no output of the host; other jobs have one that matches.
unfoldable pub check_output : LifecycleJobRequest → CoreResult (Unit {0})
check_output request =
    if is_retention request.trigger
    then refuse (is_empty request.memory_ids || is_some request.consolidation)
        (invalid_input "retention requires explicit memory_ids and no consolidation output")
    else elim request.consolidation [
      | none ↦ err (invalid_input "consolidation jobs require explicit host outputs")
      | some output ↦
          refuse (not (matches_job request output))
            (invalid_input "queued host consolidation must match identity and trigger lane")
    ]

module _ {S : Type 0} (store : JobStore S) (libraries : JobLibraries) where
  -- The request with a canonical time, if it is one that may be queued.
  unfoldable pub check_request : LifecycleJobRequest → CoreResult LifecycleJobRequest
  unfolding check_output
  check_request request =
      chain_done (validate_identity request.tenant_id request.user_id (some request.session_id)) (
        chain_done (validate_components "memory_id" request.memory_ids) (
          chain_done
            (refuse (nat_eqb request.max_attempts 0)
              (invalid_input "max_attempts must be positive"))
            (chain (canonical_timestamp libraries.governance.chrono request.run_at) λ time.
              chain_done
                (refuse
                  (is_idle request.trigger && nat_eqb (seconds_or_zero request.idle_seconds) 0)
                  (invalid_input "idle jobs require positive idle_seconds"))
                (chain_done (check_output request) (ok (record request { run_at = time }))))))

  abbrev pub queued : String → LifecycleJobRequest → String → LifecycleScheduledJob
  queued id request now = record {
    id = id;
    request = request;
    status = "queued";
    attempts = 0;
    next_attempt_at = request.run_at;
    created_at = now;
    updated_at = now;
    completed_memory_ids = [];
    last_error = none;
  }

  abbrev pub closed_activity : String → Value
  closed_activity now =
      object (field "last_activity_at" (string now) (field "state" (string "closed") end))

  abbrev pub save_closed : LifecycleJobRequest → String → Action S (Unit {0})
  save_closed request now = do
    receipt ←
        store.governance.lifecycle_save request.tenant_id
          (user_key session_activity request.user_id request.session_id) (closed_activity now)
    lift (
        refuse (not (acknowledged receipt))
          (invalid_input "durable state write was not acknowledged"))

  -- A job that is new: the activity of a session that closes is marked first.
  unfoldable pub enqueue_new :
      LifecycleJobRequest → String → String → Action S LifecycleScheduledJob
  enqueue_new request id now = do
    if is_close request.trigger then save_closed request now else lift (ok tt)
    store.lifecycle_job_enqueue (queued id request now)
    lift (ok (queued id request now))

  abbrev pub enqueue_unless :
      LifecycleJobRequest → String → Option LifecycleScheduledJob → Action S LifecycleScheduledJob
  enqueue_unless request id (some existing) s = (s, ok existing)
  enqueue_unless request id none s = enqueue_new request id (store.governance.now_timestamp s) s

  unfoldable pub enqueue_lifecycle_job : LifecycleJobRequest → Action S LifecycleScheduledJob
  unfolding check_request enqueue_new
  enqueue_lifecycle_job request = do
    request ← lift (check_request request)
    text ← lift (libraries.to_string request)
    existing ← reads (
        store.lifecycle_job_get request.tenant_id request.user_id
          (libraries.governance.deterministic_id (text ∷ [])))
    enqueue_unless request (libraries.governance.deterministic_id (text ∷ [])) existing
