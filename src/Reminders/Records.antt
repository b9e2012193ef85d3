-- ===== src/Reminders/Records.antt =====
-- domain/reminder.rs, domain/audit.rs, runtime/reminders.rs: the records of reminders and of their
-- delivery.
use nextral.Base.{ℕ, PartialEq, nat_eqb, Bool, true, String, Option, List, ◌≡◌, ◌↔◌, arith}
use nextral.Kinds.{PrivacyLevel}

pub record QuietHours : Type 0 where
  pub start_hour : ℕ
  pub end_hour : ℕ

pub data ReminderTerminalReason : Type 0 where
  reason_delivered retry_exhausted source_unavailable privacy_denied channel_denied reason_expired :
      ReminderTerminalReason

pub record StoreReceipt : Type 0 where
  pub backend : String
  pub operation : String
  pub target_id : Option String
  pub status : String

pub record ReminderDeliveryAttempt : Type 0 where
  pub attempt : ℕ
  pub attempted_at : String
  pub outcome_code : String
  pub http_status : Option ℕ
  pub receipt : StoreReceipt

pub data ReminderKind : Type 0 where
  follow_up commitment task : ReminderKind

pub data ReminderPriority : Type 0 where
  low normal high : ReminderPriority

pub data ReminderStatus : Type 0 where
  draft scheduled due dispatched completed failed retry_scheduled cancelled expired : ReminderStatus

abbrev pub status_index : ReminderStatus → ℕ
status_index draft = 0
status_index scheduled = 1
status_index due = 2
status_index dispatched = 3
status_index completed = 4
status_index failed = 5
status_index retry_scheduled = 6
status_index cancelled = 7
status_index expired = 8

pub status_iff :
    (a b : ReminderStatus) → (nat_eqb (status_index a) (status_index b) ≡ true) ↔ (a ≡ b)
status_iff a b = ground arith

instance abbrev pub status_eq : PartialEq ReminderStatus
status_eq = record {
  same = λ a b. nat_eqb (status_index a) (status_index b);
  same_iff = status_iff;
}

abbrev reason_index : ReminderTerminalReason → ℕ
reason_index reason_delivered = 0
reason_index retry_exhausted = 1
reason_index source_unavailable = 2
reason_index privacy_denied = 3
reason_index channel_denied = 4
reason_index reason_expired = 5

pub reason_iff :
    (a b : ReminderTerminalReason) → (nat_eqb (reason_index a) (reason_index b) ≡ true) ↔ (a ≡ b)
reason_iff a b = ground arith

instance abbrev pub reason_eq : PartialEq ReminderTerminalReason
reason_eq = record {
  same = λ a b. nat_eqb (reason_index a) (reason_index b);
  same_iff = reason_iff;
}

pub record ReminderRecord : Type 0 where
  pub id : String
  pub tenant_id : String
  pub user_id : String
  pub source_memory_id : String
  pub kind : ReminderKind
  pub title : String
  pub details : String
  pub due_at : String
  pub timezone : String
  pub priority : ReminderPriority
  pub status : ReminderStatus
  pub attempt_count : ℕ
  pub last_attempt_at : Option String
  pub next_attempt_at : Option String
  pub dedupe_key : String
  pub created_at : String
  pub updated_at : String
  pub channel : String
  pub allowed_channels : List String
  pub quiet_hours : Option QuietHours
  pub expires_at : Option String
  pub privacy_level : PrivacyLevel
  pub terminal_reason : Option ReminderTerminalReason
  pub last_error : Option String
  pub delivery_attempts : List ReminderDeliveryAttempt

pub record ReminderTransition : Type 0 where
  pub reminder_id : String
  pub from : ReminderStatus
  pub to : ReminderStatus
  pub actor : String
  pub reason : String
  pub changed_at : String

-- What is kept of a delivery: the reminder, its transitions so far and the host's acknowledgement.
pub record DeliveryState : Type 0 where
  pub reminder : ReminderRecord
  pub transitions : List ReminderTransition
  pub receipt : Option StoreReceipt

pub data Severity : Type 0 where
  info success warning destructive : Severity

pub record ExecuteDueRemindersRequest : Type 0 where
  pub tenant_id : String
  pub user_id : String
  pub due_at_or_before : String
  pub actor : String
  pub retry_delay_seconds : ℕ
  pub max_retries : Option ℕ
  pub dispatch_policy_version : Option String
  pub retry_strategy_id : Option String
  pub trace_id : Option String
  pub privacy_scope : List PrivacyLevel
  pub lease_seconds : ℕ

pub record ReminderDispatchResult : Type 0 where
  pub reminder_id : String
  pub dedupe_key : String
  pub dispatched : Bool
  pub status : ReminderStatus
  pub reason : String
  pub dispatch_policy_version : String
  pub retry_strategy_id : String
  pub outcome_severity : Severity

pub record ExecuteDueRemindersResponse : Type 0 where
  pub trace_id : String
  pub results : List ReminderDispatchResult
  pub receipts : List StoreReceipt
