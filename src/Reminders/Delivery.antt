-- ===== src/Reminders/Delivery.antt =====
-- runtime/reminders.rs: the outcome of a dispatch, the record of attempts, and moves of a delivery.
-- runtime/lifecycle.rs: acknowledged.
pub mod Attempts
use nextral.Base.{
  ℕ, Bool, true, false, not, ◌&&◌, ◌||◌, String, Char, code, Option, none, some, List, [], ◌∷◌,
  ◌++◌, any, ltb, leb, nat_eqb, ◌==◌, string_eq, text_append, if◌then◌else◌,
}
use nextral.Contracts.{
  CoreError, invalid_input, not_found, conflict, io, serialization, resource_exhausted,
  deadline_exceeded, lease_lost, index_not_ready, CoreResult, ok, err,
}
use nextral.Timestamps.Decimal.{parse_u64, to_string}
use nextral.Reminders.Records.{
  ReminderStatus, retry_scheduled, status_eq, ReminderTerminalReason, reason_expired, reason_eq,
  StoreReceipt, ReminderDeliveryAttempt, ReminderRecord, DeliveryState, success, warning,
  destructive, ExecuteDueRemindersRequest, ReminderDispatchResult,
}
use nextral.Reminders.Status.{transition}

-- `matches!(receipt.status, "ok" | "acknowledged")`
abbrev pub acknowledged : StoreReceipt → Bool
acknowledged receipt = receipt.status == "ok" || receipt.status == "acknowledged"

unfoldable pub apply_transition :
    DeliveryState
    → ReminderStatus
    → String
    → String
    → String
    → DeliveryState × CoreResult (Unit {0})
unfolding transition
apply_transition state to actor reason now =
    let (moved, outcome) = transition state.reminder to actor reason now in
    elim outcome [
      | ok done ↦
          (record state { reminder = moved; transitions = state.transitions ++ (done ∷ []) }, ok tt)
      | err refusal ↦ (record state { reminder = moved }, err refusal)
    ]

-- The status that a delivery which cannot go on is given.
abbrev pub stop_status : ReminderTerminalReason → ReminderStatus
stop_status reason =
    if reason == reason_expired then ReminderStatus.expired else ReminderStatus.cancelled

unfoldable pub cancel :
    DeliveryState
    → String
    → ReminderTerminalReason
    → String
    → String
    → DeliveryState × CoreResult (Unit {0})
cancel state actor reason why now =
    let (moved, outcome) = apply_transition state (stop_status reason) actor why now in
    elim outcome [
      | ok done ↦ (
        record moved {
          reminder = record moved.reminder {
            terminal_reason = some reason;
            next_attempt_at = none;
          };
        },
        ok tt,
      )
      | err refusal ↦ (moved, err refusal)
    ]

-- The first attempt of the same number is replaced; a new number is added at the end.
unfoldable pub put_attempt :
    List ReminderDeliveryAttempt → ReminderDeliveryAttempt → List ReminderDeliveryAttempt
put_attempt [] attempt = attempt ∷ []
put_attempt (previous ∷ rest) attempt =
    if nat_eqb previous.attempt attempt.attempt
    then attempt ∷ rest
    else previous ∷ put_attempt rest attempt

abbrev pub time_or : Option String → String → String
time_or none now = now
time_or (some time) now = time

unfoldable pub record_delivery_attempt :
    ReminderRecord → StoreReceipt → String → Option ℕ → String → ReminderRecord
unfolding put_attempt
record_delivery_attempt reminder receipt why http_status now = record reminder {
  last_error = if why == "delivered" then none else some why;
  delivery_attempts = put_attempt reminder.delivery_attempts (record {
    attempt = reminder.attempt_count;
    attempted_at = time_or reminder.last_attempt_at now;
    outcome_code = why;
    http_status = http_status;
    receipt = receipt;
  });
}

strip_prefix : String → String → Option String
strip_prefix String.[] s = some s
strip_prefix (String.◌∷◌ c p) String.[] = none
strip_prefix (String.◌∷◌ c p) (String.◌∷◌ d s) =
    let rest = strip_prefix p s in if nat_eqb (code c) (code d) then rest else none

-- `status.parse::<u16>().ok().filter(|status| (100..=599).contains(status))`
http_of_digits : Option String → Option ℕ
http_of_digits none = none
http_of_digits (some digits) = elim (parse_u64 digits) [
  | none ↦ none
  | some status ↦ if leb 100 status && leb status 599 then some status else none
]

abbrev known_backend : String → String
known_backend backend =
    if backend == "host_webhook"
    then "host_webhook"
    else if backend == "test_host"
    then "test_host"
    else "host_dispatch"

abbrev receipt_code : String → String
receipt_code status =
    if status == "configuration_missing"
    then "configuration_missing"
    else if status == "configuration_invalid"
    then "configuration_invalid"
    else if status == "transport_failed"
    then "transport_failed"
    else if status == "protocol_failed"
    then "protocol_failed"
    else "host_rejected"

abbrev error_code : CoreError → String
error_code (invalid_input e) = "configuration_invalid"
error_code (not_found e) = "dispatch_not_found"
error_code (conflict e) = "dispatch_conflict"
error_code (resource_exhausted e) = "resource_exhausted"
error_code (deadline_exceeded e) = "deadline_exceeded"
error_code (CoreError.cancelled e) = "cancelled"
error_code (lease_lost e) = "lease_lost"
error_code (index_not_ready e) = "index_not_ready"
error_code (io e) = "transport_failed"
error_code (serialization e) = "protocol_failed"

abbrev http_code : Option ℕ → String → String
http_code none status = receipt_code status
http_code (some http) status = text_append "http_" (to_string http)

-- Backend, code and HTTP status of a dispatch that was not acknowledged.
unfoldable pub failure_parts : CoreResult StoreReceipt → String × String × Option ℕ
unfolding strip_prefix http_of_digits
failure_parts (ok receipt) =
    let http = http_of_digits (strip_prefix "http_" receipt.status) in
    (known_backend receipt.backend, http_code http receipt.status, http)
failure_parts (err error) = ("host_dispatch", error_code error, none)

unfoldable pub dispatch_failure_receipt :
    ReminderRecord → CoreResult StoreReceipt → StoreReceipt × String × Option ℕ
unfolding failure_parts
dispatch_failure_receipt reminder outcome =
    let (backend, why, http_status) = failure_parts outcome in
    (
      record {
        backend = backend;
        operation = "dispatch";
        target_id = some reminder.id;
        status = why;
      },
      why,
      http_status,
    )

abbrev text_or : Option String → String → String
text_or none default = default
text_or (some text) default = text

unfoldable pub dispatch_result :
    DeliveryState → ExecuteDueRemindersRequest → Bool → String → ReminderDispatchResult
dispatch_result state request was_dispatched reason = record {
  reminder_id = state.reminder.id;
  dedupe_key = state.reminder.dedupe_key;
  dispatched = was_dispatched;
  status = state.reminder.status;
  reason = reason;
  dispatch_policy_version = text_or request.dispatch_policy_version "dispatch-policy-v1";
  retry_strategy_id = text_or request.retry_strategy_id "retry-default-v1";
  outcome_severity =
      if was_dispatched
      then success
      else if state.reminder.status == retry_scheduled || reason == "quiet_hours"
      then warning
      else destructive;
}
