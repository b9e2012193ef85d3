-- ===== src/Reminders/Interface.antt =====
-- What the delivery of reminders asks of a store (the traits ReminderStore, MemoryIndexStore and
-- LifecycleStore).
use nextral.Base.{ℕ, Bool, String, Option, List}
pub use nextral.Actions.{Action, ◌>>=◌, ◌>>◌, reads, lift, attempt, action_value}
use nextral.Contracts.{CoreResult}
use nextral.Json.{Value}
use nextral.Audit.{AuditEvent}
use nextral.Timestamps.{Chrono}
use nextral.Memories.Records.{MemoryRecord}
use nextral.Lifecycle.Records.{LeaseClaim}
use nextral.Reminders.Records.{ReminderRecord, StoreReceipt, DeliveryState}
use nextral.Reminders.QuietHours.{Zones}

-- The clock is part of the world that the state stands for.
pub record DeliveryStore (S : Type 0) : Type 0 where
  pub now_timestamp : S → String
  pub lifecycle_renew_fenced : LeaseClaim → ℕ → Action S Bool
  pub lifecycle_load : String → String → S → CoreResult (Option Value)
  pub get_memory : String → String → String → S → CoreResult (Option MemoryRecord)
  pub list_due_reminders : String → String → String → S → CoreResult (List ReminderRecord)
  pub upsert_reminder : ReminderRecord → Action S (Unit {0})
  pub lifecycle_dispatch : ReminderRecord → Action S StoreReceipt
  pub commit_reminder_delivery :
      LeaseClaim → String → Value → ReminderRecord → List AuditEvent → Action S (Unit {0})

-- Libraries: chrono, chrono_tz, the hash of an identifier, and serde's codec of a delivery.
pub record Libraries : Type 0 where
  pub chrono : Chrono
  pub zones : Zones
  pub deterministic_id : List String → String
  pub to_value : DeliveryState → CoreResult Value
  pub from_value : Value → CoreResult DeliveryState
