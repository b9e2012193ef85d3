-- ===== src/Jobs/Interface.antt =====
-- runtime/prospective.rs: the requests of the worker, and what enqueuing and running jobs ask of a
-- store (the traits LifecycleStore, SessionStore, MemoryIndexStore, AuditSink and GraphStore). The
-- consolidation of a session is a call to another component.
use nextral.Base.{ℕ, String, Bool, List, Option}
use nextral.Contracts.{CoreResult}
use nextral.Actions.{Action}
use nextral.Lifecycle.Records.{
  LeaseClaim, LifecycleJobRequest, LifecycleScheduledJob, ConsolidationRequest,
}
use nextral.Governance.Interface.{GovernanceStore, GovernanceLibraries}

pub record RunLifecycleJobsRequest : Type 0 where
  pub tenant_id : String
  pub user_id : String
  pub now : String
  pub limit : ℕ
  pub lease_seconds : ℕ

pub record JobStore (S : Type 0) : Type 0 where
  pub governance : GovernanceStore S
  pub lifecycle_job_get : String → String → String → S → CoreResult (Option LifecycleScheduledJob)
  pub lifecycle_job_enqueue : LifecycleScheduledJob → Action S (Unit {0})
  pub lifecycle_job_claim_due :
      String → String → String → ℕ → ℕ → ℕ → Action S (List (LifecycleScheduledJob × LeaseClaim))
  pub lifecycle_job_save_guarded : LeaseClaim → LifecycleScheduledJob → Action S (Unit {0})
  pub lifecycle_renew_fenced : LeaseClaim → ℕ → Action S Bool
  pub consolidate_session : ConsolidationRequest → Action S (Unit {0})

-- Libraries: those of forgetting, and the JSON text of a request.
pub record JobLibraries : Type 0 where
  pub governance : GovernanceLibraries
  pub to_string : LifecycleJobRequest → CoreResult String
