-- ===== src/Audit.antt =====
-- domain/audit.rs: audit events and when two of them say the same.
use nextral.Base.{
  ℕ, PartialEq, nat_eqb, Bool, true, false, ◌&&◌, String, Option, none, some, ◌≡◌, ◌↔◌, arith, ◌==◌,
  string_eq, not, List, find?,
}
use nextral.Contracts.{CoreResult, ok, conflict, refuse, ◌>>=◌, ◌>>◌}
use nextral.Json.{Value, value_eqb}

pub data AuditAction : Type 0 where
  write_attempt write_accepted write_rejected validation_failed session_append session_close :
      AuditAction
  consolidation_queued consolidation_completed graphify_merged retrieval transition : AuditAction
  reminder_scheduled reminder_transition forget_requested forget_completed redaction_completed :
      AuditAction
  archive_written reembed_started reembed_completed : AuditAction

abbrev pub action_index : AuditAction → ℕ
action_index write_attempt = 0
action_index write_accepted = 1
action_index write_rejected = 2
action_index validation_failed = 3
action_index session_append = 4
action_index session_close = 5
action_index consolidation_queued = 6
action_index consolidation_completed = 7
action_index graphify_merged = 8
action_index retrieval = 9
action_index transition = 10
action_index reminder_scheduled = 11
action_index reminder_transition = 12
action_index forget_requested = 13
action_index forget_completed = 14
action_index redaction_completed = 15
action_index archive_written = 16
action_index reembed_started = 17
action_index reembed_completed = 18

pub action_iff : (a b : AuditAction) → (nat_eqb (action_index a) (action_index b) ≡ true) ↔ (a ≡ b)
action_iff a b = ground arith

instance abbrev pub action_eq : PartialEq AuditAction
action_eq = record {
  same = λ a b. nat_eqb (action_index a) (action_index b);
  same_iff = action_iff;
}

pub record AuditEvent : Type 0 where
  pub id : String
  pub tenant_id : String
  pub user_id : Option String
  pub actor : String
  pub action : AuditAction
  pub target_type : String
  pub target_id : Option String
  pub reason : String
  pub request_id : Option String
  pub trace_id : Option String
  pub metadata_json : String
  pub created_at : String

-- `AuditEvent::new`, with the text of the present second.
unfoldable pub audit_event :
    String → String → String → AuditAction → String → Option String → String → String → AuditEvent
audit_event id tenant actor action target_type target_id reason now = record {
  id = id;
  tenant_id = tenant;
  user_id = none;
  actor = actor;
  action = action;
  target_type = target_type;
  target_id = target_id;
  reason = reason;
  request_id = none;
  trace_id = none;
  metadata_json = "{}";
  created_at = now;
}

abbrev pub optional_eqb : Option String → Option String → Bool
optional_eqb none none = true
optional_eqb (some a) (some b) = a == b
optional_eqb _ _ = false

-- `serde_json::from_str` is a parameter.
unfoldable pub same_payload :
    (String → CoreResult Value) → AuditEvent → AuditEvent → CoreResult Bool
same_payload from_str event other = do
  metadata ← from_str event.metadata_json
  other_metadata ← from_str other.metadata_json
  ok (
      event.id == other.id
      && event.tenant_id == other.tenant_id
      && optional_eqb event.user_id other.user_id
      && event.actor == other.actor
      && event.action == other.action
      && event.target_type == other.target_type
      && optional_eqb event.target_id other.target_id
      && event.reason == other.reason
      && optional_eqb event.request_id other.request_id
      && optional_eqb event.trace_id other.trace_id
      && value_eqb metadata other_metadata)

abbrev pub same_identity : AuditEvent → AuditEvent → Bool
same_identity event existing = existing.tenant_id == event.tenant_id && existing.id == event.id

-- testkit/mod.rs, TestMemoryStore::audit_replayed.
unfoldable pub audit_replayed :
    (String → CoreResult Value) → List AuditEvent → AuditEvent → CoreResult Bool
unfolding same_payload
audit_replayed from_str events event = elim (find? (same_identity event) events) [
  | none ↦ do metadata ← from_str event.metadata_json; ok false
  | some existing ↦ do
    same ← same_payload from_str existing event
    refuse (not same) (conflict "audit identity reused for a different event")
    ok true
]
