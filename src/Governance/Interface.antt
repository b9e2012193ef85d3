-- ===== src/Governance/Interface.antt =====
-- runtime/governance.rs: the request and the response of a forget, and what forgetting asks of a store
-- (the traits MemoryIndexStore, LifecycleStore and AuditSink).
use nextral.Base.{ℕ, String, Bool, Option, List}
use nextral.Contracts.{CoreResult}
use nextral.Actions.{Action}
use nextral.Json.{Value}
use nextral.Audit.{AuditEvent}
use nextral.Timestamps.{Chrono}
use nextral.Memories.Records.{MemoryRecord, TransitionMetadata}
use nextral.Reminders.Records.{StoreReceipt}

pub record ForgetMemoryRequest : Type 0 where
  pub tenant_id : String
  pub user_id : String
  pub memory_id : String
  pub actor : String
  pub reason : String
  pub redact : Bool

pub record ForgetMemoryResponse : Type 0 where
  pub forget_transition : TransitionMetadata
  pub redaction_transition : Option TransitionMetadata
  pub receipts : List StoreReceipt
  pub status : String
  pub attempts : ℕ
  pub last_error : Option String

-- The clock and the counter of `worker_owner` are part of the world that the state stands for.
pub record GovernanceStore (S : Type 0) : Type 0 where
  pub now_timestamp : S → String
  pub worker_owner : Action S String
  pub lifecycle_claim : String → String → String → ℕ → ℕ → Action S Bool
  pub lifecycle_release : String → String → String → Action S (Unit {0})
  pub lifecycle_load : String → String → S → CoreResult (Option Value)
  pub lifecycle_save : String → String → Value → Action S StoreReceipt
  pub get_memory : String → String → String → S → CoreResult (Option MemoryRecord)
  pub update_memory : MemoryRecord → Action S (Unit {0})
  pub emit_audit : AuditEvent → Action S (Unit {0})
  pub lifecycle_verify_archive_sources : MemoryRecord → S → CoreResult (Unit {0})
  pub lifecycle_forget : String → String → String → Bool → Action S (List StoreReceipt)

-- Libraries: chrono, the hash of an identifier, and serde's codec of a response.
pub record GovernanceLibraries : Type 0 where
  pub chrono : Chrono
  pub deterministic_id : List String → String
  pub to_value : ForgetMemoryResponse → CoreResult Value
  pub from_value : Value → CoreResult ForgetMemoryResponse
