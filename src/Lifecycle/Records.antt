-- ===== src/Lifecycle/Records.antt =====
-- runtime/lifecycle.rs, runtime/prospective.rs: the records of leases and jobs; testkit/mod.rs: the
-- lifecycle tables of the store.
use nextral.Base.{ℕ, String, Bool, Option, List}
use nextral.Json.{Value}

pub data LeaseResource : Type 0 where
  runtime_state lifecycle_job outbox : LeaseResource

pub record LeaseClaim : Type 0 where
  pub tenant_id : String
  pub user_id : Option String
  pub resource : LeaseResource
  pub key : String
  pub owner : String
  pub fence : ℕ

pub data GuardedWriteResult : Type 0 where
  applied : GuardedWriteResult
  superseded : Value → GuardedWriteResult

pub data ConsolidationLane : Type 0 where
  fast deep : ConsolidationLane

-- The policy and the candidates of the host are carried as documents.
pub record ConsolidationRequest : Type 0 where
  pub tenant_id : String
  pub user_id : String
  pub session_id : String
  pub lane : ConsolidationLane
  pub policy : Value
  pub version : String
  pub summary : Option String
  pub candidates : List Value
  pub chunk_messages : ℕ

pub data LifecycleTrigger : Type 0 where
  idle close deep_trigger retention : LifecycleTrigger

pub record LifecycleJobRequest : Type 0 where
  pub tenant_id : String
  pub user_id : String
  pub session_id : String
  pub trigger : LifecycleTrigger
  pub run_at : String
  pub idle_seconds : Option ℕ
  pub consolidation : Option ConsolidationRequest
  pub memory_ids : List String
  pub redact : Bool
  pub max_attempts : ℕ

pub record LifecycleScheduledJob : Type 0 where
  pub id : String
  pub request : LifecycleJobRequest
  pub status : String
  pub attempts : ℕ
  pub next_attempt_at : String
  pub created_at : String
  pub updated_at : String
  pub completed_memory_ids : List String
  pub last_error : Option String

-- The tuples of the hash maps, with names for their places.
pub record FenceEntry : Type 0 where
  pub owner : String
  pub expiry : ℕ
  pub fence : ℕ

pub record LeaseEntry : Type 0 where
  pub owner : String
  pub until : ℕ

pub record JobEntry : Type 0 where
  pub job : LifecycleScheduledJob
  pub locked_by : Option String
  pub locked_until : Option ℕ
  pub fence : ℕ

-- Tenant, user and job.
abbrev pub JobKey : Type 0
JobKey = String × String × String

pub record LifecycleTables : Type 0 where
  pub lifecycle_state : List ((String × String) × Value)
  pub lifecycle_leases : List ((String × String) × LeaseEntry)
  pub lifecycle_fences : List ((String × String) × FenceEntry)
  pub lifecycle_jobs : List (JobKey × JobEntry)
