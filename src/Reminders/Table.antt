-- ===== src/Reminders/Table.antt =====
-- testkit/mod.rs, `impl ReminderStore for TestMemoryStore`: the table of reminders, which shares the
-- fences and the saved documents with the lifecycle tables.
pub mod Commits
pub mod Listing
use nextral.Base.{
  ℕ, Bool, true, false, not, ◌&&◌, ◌||◌, String, Option, none, some, List, [], ◌∷◌, ◌++◌, any, leb,
  ◌==◌, string_eq, pair_eq, get, insert, if◌then◌else◌,
}
use nextral.Contracts.{CoreResult, ok, err, conflict, lease_lost, invalid_input, ◌>>=◌}
use nextral.Json.{Value}
use nextral.Timestamps.{Chrono, timestamp_nanos}
use nextral.Audit.{AuditEvent}
use nextral.Lifecycle.Records.{LeaseClaim, LifecycleTables}
use nextral.Lifecycle.Leases.{state_key, holds_fence, is_owner}
use nextral.Reminders.Records.{ReminderRecord}
use nextral.Reminders.Status.{is_due_visible}

pub record ReminderTables : Type 0 where
  pub reminders : List ReminderRecord
  pub audit_events : List AuditEvent
  pub tables : LifecycleTables

-- The first reminder that the test accepts is replaced; otherwise the reminder is added at the end.
unfoldable pub put_reminder :
    (ReminderRecord → Bool) → List ReminderRecord → ReminderRecord → List ReminderRecord
put_reminder same [] r = r ∷ []
put_reminder same (m ∷ ms) r = if same m then r ∷ ms else m ∷ put_reminder same ms r

unfoldable pub upsert_reminder :
    ReminderTables → ReminderRecord → ReminderTables × CoreResult (Unit {0})
unfolding put_reminder
upsert_reminder s r =
    if any (λ m. not (m.id == r.id) && m.dedupe_key == r.dedupe_key) s.reminders
    then (s, err (conflict "duplicate reminder dedupe key"))
    else (record s { reminders = put_reminder (λ m. m.id == r.id) s.reminders r }, ok tt)

abbrev pub effective_at : ReminderRecord → String
effective_at r = elim r.next_attempt_at [ none ↦ r.due_at | some time ↦ time ]

-- The filter of the loop.
abbrev pub is_candidate : String → String → ReminderRecord → Bool
is_candidate tenant user r = r.tenant_id == tenant && r.user_id == user && is_due_visible r

module _ (chrono : Chrono) where
  unfoldable pub due_among :
      String → String → ℕ → List ReminderRecord → CoreResult (List ReminderRecord)
  due_among tenant user cutoff [] = ok []
  due_among tenant user cutoff (r ∷ rest) =
      if is_candidate tenant user r
      then (do
        time ← timestamp_nanos chrono (effective_at r)
        later ← due_among tenant user cutoff rest
        ok (if leb time cutoff then r ∷ later else later))
      else due_among tenant user cutoff rest

  unfoldable pub list_due_reminders :
      ReminderTables → String → String → String → CoreResult (List ReminderRecord)
  unfolding due_among
  list_due_reminders s tenant user due_at_or_before = do
    cutoff ← timestamp_nanos chrono due_at_or_before
    due_among tenant user cutoff s.reminders

-- `now` is the second that the operation reads from the clock.
unfoldable pub commit_reminder_delivery :
    ReminderTables
    → ℕ
    → LeaseClaim
    → String
    → Value
    → ReminderRecord
    → List AuditEvent
    → ReminderTables × CoreResult (Unit {0})
unfolding put_reminder
commit_reminder_delivery s now claim key state r audits =
    elim (get s.tables.lifecycle_fences (state_key claim)) [
      | none ↦ (s, err (lease_lost "user lease missing"))
      | some entry ↦
          if not (holds_fence claim now entry)
          then (s, err (lease_lost "user lease expired or lost"))
          else if not (claim.tenant_id == r.tenant_id) || not (is_owner claim.user_id r.user_id)
          then (s, err (invalid_input "scope mismatch for reminder delivery"))
          else (
            record {
              reminders =
                  put_reminder (λ m. m.tenant_id == r.tenant_id && m.id == r.id) s.reminders r;
              audit_events = s.audit_events ++ audits;
              tables = record s.tables {
                lifecycle_state = insert s.tables.lifecycle_state (r.tenant_id, key) state;
              };
            },
            ok tt,
          )
    ]
