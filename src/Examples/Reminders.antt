-- ===== src/Examples/Reminders.antt =====
-- Reminders at concrete inputs: a store that logs its calls, and a source that is sensitive.
use nextral.Base.{
  ℕ, ◌+◌, ◌*◌, ◌^◌, ◌/◌, ◌%◌, ◌-◌, ◌≤◌, min, ◌≡◌, refl, ◌⊎◌, arith, String, true, false, none, some,
  List, [], ◌∷◌, ◌==◌, string_eq,
}
use nextral.Kinds.{private, sensitive, active, task, prospective, manual}
use nextral.Contracts.{CoreResult, ok, err}
use nextral.Json.{null}
use nextral.Memories.Records.{MemoryRecord}
use nextral.Lifecycle.Records.{runtime_state, LeaseClaim}
use nextral.Reminders.Records.{
  ReminderStatus, due, dispatched, completed, failed, retry_scheduled, scheduled, normal,
  QuietHours, ReminderRecord, StoreReceipt, DeliveryState, ExecuteDueRemindersRequest,
  ExecuteDueRemindersResponse,
}
use nextral.Reminders.Status.Graph.{
  Move, replay, accepted, is_chain, dispatches, closed_final, transition_log,
}
use nextral.Reminders.Delivery.{record_delivery_attempt}
use nextral.Reminders.Delivery.Attempts.{find_attempt, outcome_of, record_delivery_attempt_lem}
use nextral.Reminders.QuietHours.{Zones, in_quiet_hours, quiet_until}
use nextral.Reminders.QuietHours.Search.{quiet_until_stops}
use nextral.Reminders.Interface.{Action, DeliveryStore, Libraries}
use nextral.Reminders.Execution.{answer, execute_due}
use nextral.Reminders.Execution.Outcomes.{Adds, Fails, is_acknowledgement, answer_settles}
use nextral.Reminders.Records.{warning}
use nextral.Reminders.Execution.Clearance.{is_cleared, with_host, host_needs_clearance}

-- Dawn is at seven in every zone, on every day.
abbrev clockwork : Zones
clockwork = record { is_zone = λ zone. zone == "UTC"; hour = λ zone t. some ((t / 3600) % 24) }

abbrev libraries : Libraries
libraries = record {
  chrono = record { parse_from_rfc3339 = λ text. none; format_rfc3339 = λ seconds nanos. none };
  zones = clockwork;
  deterministic_id = λ parts. "id";
  to_value = λ state. ok null;
  from_value = λ value. err (nextral.Contracts.serialization "no state");
}

abbrev night : QuietHours
night = record { start_hour = 22; end_hour = 7 }

abbrev pub call_mother : ReminderRecord
call_mother = record {
  id = "r1";
  tenant_id = "acme";
  user_id = "alice";
  source_memory_id = "m1";
  kind = nextral.Reminders.Records.task;
  title = "call";
  details = "";
  due_at = "2";
  timezone = "UTC";
  priority = normal;
  status = scheduled;
  attempt_count = 0;
  last_attempt_at = none;
  next_attempt_at = some "2";
  dedupe_key = "d1";
  created_at = "1";
  updated_at = "1";
  channel = "webhook";
  allowed_channels = "webhook" ∷ [];
  quiet_hours = some night;
  expires_at = none;
  privacy_level = private;
  terminal_reason = none;
  last_error = none;
  delivery_attempts = [];
}

abbrev source_memory : MemoryRecord
source_memory = record {
  id = "m1";
  tenant_id = "acme";
  user_id = "alice";
  session_id = none;
  content = "call mother";
  content_type = task;
  memory_type = prospective;
  source_type = manual;
  source_message_ids = "s1" ∷ [];
  importance_score = 0x3F000000;
  confidence_score = none;
  embedding_provider = none;
  embedding_model = none;
  embedding_dim = none;
  embedding = none;
  extraction_provider = none;
  extraction_model = none;
  entities = [];
  tags = [];
  privacy_level = sensitive;
  created_at = "1";
  updated_at = "1";
  last_accessed_at = none;
  access_count = 0;
  status = active;
  schema_version = "1";
}

abbrev receipt_with : String → StoreReceipt
receipt_with status = record {
  backend = "test_host";
  operation = "dispatch";
  target_id = some "r1";
  status = status;
}

-- Each call is written down.
abbrev logged : {A : Type 0} → String → A → Action (List String) A
logged call value log = (call ∷ log, ok value)

abbrev log_store : DeliveryStore (List String)
log_store = record {
  now_timestamp = λ log. "100";
  lifecycle_renew_fenced = λ claim lease. logged "renew" true;
  lifecycle_load = λ tenant key log. ok none;
  get_memory = λ tenant user id log. ok (some source_memory);
  list_due_reminders = λ tenant user cutoff log. ok (call_mother ∷ []);
  upsert_reminder = λ reminder. logged "upsert" tt;
  lifecycle_dispatch = λ reminder. logged "dispatch" (receipt_with "ok");
  commit_reminder_delivery = λ claim key value reminder audits. logged "commit" tt;
}

abbrev pub claim : LeaseClaim
claim = record {
  tenant_id = "acme";
  user_id = some "alice";
  resource = runtime_state;
  key = "privacy/alice";
  owner = "worker-1";
  fence = 1;
}

abbrev request : ExecuteDueRemindersRequest
request = record {
  tenant_id = "acme";
  user_id = "alice";
  due_at_or_before = "3";
  actor = "worker";
  retry_delay_seconds = 60;
  max_retries = none;
  dispatch_policy_version = none;
  retry_strategy_id = none;
  trace_id = some "trace";
  privacy_scope = private ∷ [];
  lease_seconds = 300;
}

abbrev fresh_delivery : DeliveryState
fresh_delivery = record { reminder = call_mother; transitions = []; receipt = none }

abbrev no_answers : ExecuteDueRemindersResponse
no_answers = record { trace_id = "trace"; results = []; receipts = [] }

abbrev refusing_host : ReminderRecord → Action (List String) StoreReceipt
refusing_host reminder = logged "refused" (receipt_with "http_500")

not_cleared :
    is_cleared log_store libraries request fresh_delivery 36_000 36_000_000_000_000 [] ≡ false
not_cleared = refl

host_needs_clearance_example :
    execute_due
      (with_host log_store refusing_host)
      libraries
      claim
      request
      fresh_delivery
      no_answers
      36_000
      36_000_000_000_000
      []
    ≡ execute_due log_store libraries claim request fresh_delivery no_answers 36_000
        36_000_000_000_000 []
host_needs_clearance_example =
    host_needs_clearance log_store refusing_host libraries claim request fresh_delivery no_answers
      36_000 36_000_000_000_000 [] not_cleared

abbrev moves : List Move
moves =
    record { to = due; actor = "worker"; reason = "window_reached"; now = "2" }
    ∷ record { to = completed; actor = "worker"; reason = "too early"; now = "3" }
    ∷ record { to = dispatched; actor = "worker"; reason = "dispatch_started"; now = "4" }
    ∷ record { to = failed; actor = "worker"; reason = "http_500"; now = "5" }
    ∷ []

transition_log_example :
    (is_chain scheduled (accepted call_mother moves) (replay call_mother moves).status ≡ true)
    × ((replay call_mother moves).attempt_count
        ≡ min (0 + dispatches (accepted call_mother moves)) (2 ^ 32 - 1))
transition_log_example = transition_log moves call_mother (omega arith)

abbrev done_reminder : ReminderRecord
done_reminder = record call_mother { status = completed }

closed_final_example : replay done_reminder moves ≡ done_reminder
closed_final_example = closed_final moves done_reminder refl

abbrev second : ℕ
second = 1

record_delivery_attempt_lem_example :
    let after =
      record_delivery_attempt call_mother (receipt_with "http_500") "http_500" (some 500) "5" in
    (nextral.Reminders.Delivery.Attempts.distinct after.delivery_attempts ≡ true)
    × (outcome_of (find_attempt 0 after.delivery_attempts)
        ≡ some ("http_500", receipt_with "http_500"))
    × ((second ≡ call_mother.attempt_count)
        ⊎ (find_attempt second after.delivery_attempts
            ≡ find_attempt second call_mother.delivery_attempts))
    × (after.last_error ≡ some "http_500")
record_delivery_attempt_lem_example =
    record_delivery_attempt_lem call_mother (receipt_with "http_500") "http_500" (some 500) "5"
      second refl

-- At six in the morning an hour is left of the night.
night_ends : quiet_until clockwork call_mother 21_600 ≡ ok 25_200
unfolding quiet_until in_quiet_hours
night_ends = refl

quiet_until_stops_example :
    (25_200 ≤ 21_600 + 60 * (26 * 60))
    × ((25_200 ≡ 21_600 + 60 * (26 * 60))
        ⊎ (in_quiet_hours clockwork call_mother 25_200 ≡ ok false))
quiet_until_stops_example =
    quiet_until_stops clockwork call_mother 21_600 25_200 (omega arith) night_ends

-- The host answers the first attempt with an HTTP error.
abbrev dispatched_delivery : DeliveryState
dispatched_delivery = record fresh_delivery {
  reminder = record call_mother {
    status = dispatched;
    attempt_count = 1;
    last_attempt_at = some "99";
  };
}

abbrev after_failure : ExecuteDueRemindersResponse
after_failure = record {
  trace_id = "trace";
  results =
      record {
        reminder_id = "r1";
        dedupe_key = "d1";
        dispatched = false;
        status = retry_scheduled;
        reason = "retry_scheduled";
        dispatch_policy_version = "dispatch-policy-v1";
        retry_strategy_id = "retry-default-v1";
        outcome_severity = warning;
      }
      ∷ [];
  receipts = receipt_with "http_500" ∷ [];
}

failure_handled :
    answer log_store libraries claim request dispatched_delivery no_answers
      (ok (receipt_with "http_500"))
      []
    ≡ ("commit" ∷ [], ok after_failure)
unfolding answer nextral.Reminders.Delivery.apply_transition nextral.Base.is_blank
    nextral.Timestamps.Decimal.parse_u64 nextral.Timestamps.timestamp_add_seconds
    nextral.Timestamps.timestamp_nanos nextral.Timestamps.format_timestamp_nanos
failure_handled = refl

answer_settles_example :
    ((is_acknowledgement log_store libraries claim request (ok (receipt_with "http_500")) ≡ true)
      × Adds no_answers after_failure true completed)
    ⊎ ((is_acknowledgement log_store libraries claim request (ok (receipt_with "http_500")) ≡ false)
        × Fails log_store libraries claim request dispatched_delivery no_answers after_failure)
answer_settles_example =
    answer_settles log_store libraries claim request dispatched_delivery no_answers after_failure
      (ok (receipt_with "http_500")) [] ("commit" ∷ []) failure_handled
