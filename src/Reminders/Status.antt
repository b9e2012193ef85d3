-- ===== src/Reminders/Status.antt =====
-- domain/reminder.rs: the transitions of a reminder's status.
pub mod Graph
use nextral.Base.{
  ℕ, ◌+◌, ◌-◌, ◌^◌, min, Bool, true, false, not, ◌||◌, String, Option, none, some, ◌==◌, is_blank,
  text_append, if◌then◌else◌,
}
use nextral.Contracts.{CoreResult, ok, err, invalid_input}
use nextral.Reminders.Records.{
  ReminderStatus, draft, scheduled, due, dispatched, completed, failed, retry_scheduled, cancelled,
  expired, status_eq, ReminderRecord, ReminderTransition,
}

-- `matches!((&from, &to), ..)`
abbrev pub is_allowed : ReminderStatus → ReminderStatus → Bool
is_allowed draft scheduled = true
is_allowed scheduled due = true
is_allowed due dispatched = true
is_allowed dispatched completed = true
is_allowed dispatched failed = true
is_allowed failed retry_scheduled = true
is_allowed retry_scheduled dispatched = true
is_allowed scheduled cancelled = true
is_allowed retry_scheduled due = true
is_allowed retry_scheduled cancelled = true
is_allowed due cancelled = true
is_allowed dispatched cancelled = true
is_allowed failed cancelled = true
is_allowed failed expired = true
is_allowed scheduled expired = true
is_allowed retry_scheduled expired = true
is_allowed dispatched expired = true
is_allowed due expired = true
is_allowed _ _ = false

-- The derived `Debug`.
debug_text : ReminderStatus → String
debug_text draft = "Draft"
debug_text scheduled = "Scheduled"
debug_text due = "Due"
debug_text dispatched = "Dispatched"
debug_text completed = "Completed"
debug_text failed = "Failed"
debug_text retry_scheduled = "RetryScheduled"
debug_text cancelled = "Cancelled"
debug_text expired = "Expired"

-- `u32::saturating_add(1)`
abbrev pub next_attempt : ℕ → ℕ
next_attempt n = min (n + 1) (2 ^ 32 - 1)

-- A dispatch counts as an attempt.
unfoldable pub moved : ReminderRecord → ReminderStatus → String → ReminderRecord
moved reminder to now =
    if to == dispatched
    then record reminder {
      status = to;
      updated_at = now;
      attempt_count = next_attempt reminder.attempt_count;
      last_attempt_at = some now;
    }
    else record reminder { status = to; updated_at = now }

-- `now` is the text of the present second. A refusal leaves the reminder as it was.
unfoldable pub transition :
    ReminderRecord
    → ReminderStatus
    → String
    → String
    → String
    → ReminderRecord × CoreResult ReminderTransition
unfolding debug_text moved
transition reminder to actor reason now =
    if is_blank actor || is_blank reason
    then (reminder, err (invalid_input "transition actor and reason are required"))
    else if not (is_allowed reminder.status to)
    then (
      reminder,
      err (
          invalid_input (
            text_append "invalid reminder transition from "
              (text_append (debug_text reminder.status) (text_append " to " (debug_text to))))),
    )
    else (
      moved reminder to now,
      ok (record {
        reminder_id = reminder.id;
        from = reminder.status;
        to = to;
        actor = actor;
        reason = reason;
        changed_at = now;
      }),
    )

unfoldable pub is_due_visible : ReminderRecord → Bool
is_due_visible reminder = elim reminder.status [
  | scheduled ↦ true
  | due ↦ true
  | retry_scheduled ↦ true
  | _ ↦ false
]
