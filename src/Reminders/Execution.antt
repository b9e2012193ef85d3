-- ===== src/Reminders/Execution.antt =====
-- runtime/reminders.rs: the delivery of the reminders that are due, under the lease of their user. The
-- present second is read from the state of the store.
pub mod Clearance
pub mod Outcomes
use nextral.Base.{
  ℕ, ◌+◌, ◌-◌, ◌/◌, ◌≡◌, Bool, true, false, not, ◌&&◌, ◌||◌, String, Option, none, some, List, [],
  ◌∷◌, ◌++◌, leb, ltb, nat_eqb, ◌==◌, string_eq, is_blank, text_append, if◌then◌else◌,
}
use nextral.Contracts.{
  CoreResult, CoreError, ok, err, invalid_input, lease_lost, refuse, ◌>>=◌ as result_bind,
}
use nextral.Timestamps.{timestamp_nanos, timestamp_add_seconds}
use nextral.Timestamps.Decimal.{to_string}
use nextral.Json.{Value}
use nextral.Audit.{AuditEvent, reminder_transition, audit_event}
use nextral.Scope.Keys.{reminder, user_key}
use nextral.Lifecycle.Records.{LeaseClaim}
use nextral.Reminders.Records.{
  ReminderStatus, scheduled, due, dispatched, completed, failed, retry_scheduled, status_eq,
  ReminderTerminalReason, reason_delivered, retry_exhausted, ReminderRecord, ReminderTransition,
  StoreReceipt, DeliveryState, ExecuteDueRemindersRequest, ExecuteDueRemindersResponse,
}
use nextral.Reminders.Delivery.{
  acknowledged, apply_transition, cancel, record_delivery_attempt, dispatch_failure_receipt,
  dispatch_result,
}
use nextral.Reminders.Interface.{
  Action, ◌>>=◌, ◌>>◌, reads, lift, attempt, DeliveryStore, Libraries,
}
use nextral.Reminders.Verdict.{Verdict, stop, wait, proceed, judge}

unfoldable pub delivery_key : ReminderRecord → String
unfolding user_key
delivery_key r = user_key reminder r.user_id r.id

-- A failed move ends the delivery, so its state is not kept.
abbrev settled : DeliveryState × CoreResult (Unit {0}) → CoreResult DeliveryState
settled (state, ok done) = ok state
settled (state, err failure) = err failure

abbrev closed : ReminderStatus → Bool
closed completed = true
closed ReminderStatus.cancelled = true
closed ReminderStatus.expired = true
closed _ = false

abbrev due_text : ReminderRecord → String
due_text r = elim r.next_attempt_at [ none ↦ r.due_at | some time ↦ time ]

abbrev pub retries_or_three : Option ℕ → ℕ
retries_or_three none = 3
retries_or_three (some n) = n

abbrev pub is_acknowledged : Option StoreReceipt → Bool
is_acknowledged none = false
is_acknowledged (some receipt) = acknowledged receipt

abbrev pub finished : DeliveryState → ReminderTerminalReason → DeliveryState
finished state reason = record state {
  reminder = record state.reminder { terminal_reason = some reason; next_attempt_at = none };
}

module _ {S : Type 0} (store : DeliveryStore S) (libraries : Libraries) (claim : LeaseClaim)
    (request : ExecuteDueRemindersRequest) where
  abbrev pub move : DeliveryState → ReminderStatus → String → Action S DeliveryState
  move state to why =
      reads λ s. settled (apply_transition state to request.actor why (store.now_timestamp s))

  abbrev give_up : DeliveryState → ReminderTerminalReason → String → Action S DeliveryState
  give_up state reason why =
      reads λ s. settled (cancel state request.actor reason why (store.now_timestamp s))

  audits_from : ℕ → ReminderRecord → List ReminderTransition → String → List AuditEvent
  unfolding audit_event to_string
  audits_from index r [] now = []
  audits_from index r (t ∷ ts) now =
      audit_event (libraries.deterministic_id (r.id ∷ to_string index ∷ "transition" ∷ []))
        r.tenant_id t.actor reminder_transition "reminder" (some r.id) t.reason now
      ∷ audits_from (index + 1) r ts now

  unfoldable pub persist_delivery : DeliveryState → Action S (Unit {0})
  unfolding audits_from delivery_key
  persist_delivery state = do
    value ← lift (libraries.to_value state)
    λ s.
        store.commit_reminder_delivery claim (delivery_key state.reminder) value state.reminder
          (audits_from 0 state.reminder state.transitions (store.now_timestamp s)) s

  -- The state of a delivery is saved, and its result goes to the response.
  unfoldable pub report :
      DeliveryState
      → ExecuteDueRemindersResponse
      → Bool
      → String
      → Action S ExecuteDueRemindersResponse
  unfolding persist_delivery dispatch_result
  report state response was_dispatched why = do
    persist_delivery state
    lift (
        ok (record response {
          results = response.results ++ (dispatch_result state request was_dispatched why ∷ []);
        }))

  unfoldable pub retry :
      DeliveryState → ExecuteDueRemindersResponse → Action S ExecuteDueRemindersResponse
  unfolding report
  retry over answered = do
    again ← move over retry_scheduled "retry_scheduled"
    time ← lift (
        timestamp_add_seconds libraries.chrono request.due_at_or_before request.retry_delay_seconds)
    report (record again { reminder = record again.reminder { next_attempt_at = some time } })
        answered false "retry_scheduled"

  unfoldable pub exhaust :
      DeliveryState → ExecuteDueRemindersResponse → Action S ExecuteDueRemindersResponse
  unfolding report
  exhaust over answered = do
    ended ← move over ReminderStatus.expired "retry_exhausted"
    report (finished ended retry_exhausted) answered false "retry_exhausted"

  -- The delivery has failed, and is tried again while there are retries left.
  unfoldable pub retry_or_exhaust :
      DeliveryState → ExecuteDueRemindersResponse → Action S ExecuteDueRemindersResponse
  unfolding retry exhaust
  retry_or_exhaust over answered =
      if leb over.reminder.attempt_count (retries_or_three request.max_retries)
      then retry over answered
      else exhaust over answered

  -- The host has answered, and not with an acknowledgement.
  unfoldable pub deliver_failed :
      DeliveryState
      → ExecuteDueRemindersResponse
      → CoreResult StoreReceipt
      → Action S ExecuteDueRemindersResponse
  unfolding dispatch_failure_receipt record_delivery_attempt retry_or_exhaust
  deliver_failed state response outcome =
      let (receipt, why, http) = dispatch_failure_receipt state.reminder outcome in
      do
        noted ← reads (λ s. ok (record state {
          reminder =
              record_delivery_attempt state.reminder receipt why http (store.now_timestamp s);
        }))
        over ← move noted failed why
        retry_or_exhaust over (record response { receipts = response.receipts ++ (receipt ∷ []) })

  unfoldable pub complete :
      DeliveryState → ExecuteDueRemindersResponse → Action S ExecuteDueRemindersResponse
  unfolding report
  complete noted answered = do
    ended ← move noted completed "delivered"
    report (finished ended reason_delivered) answered true "delivered"

  unfoldable pub deliver_acknowledged :
      DeliveryState
      → ExecuteDueRemindersResponse
      → StoreReceipt
      → Action S ExecuteDueRemindersResponse
  unfolding record_delivery_attempt complete
  deliver_acknowledged state response receipt = do
    noted ← reads (λ s. ok (record state {
      reminder =
          record_delivery_attempt state.reminder receipt "delivered" none (store.now_timestamp s);
      receipt = some receipt;
    }))
    persist_delivery noted
    complete noted (record response { receipts = response.receipts ++ (receipt ∷ []) })

  -- The moves that lead to a dispatch.
  unfoldable pub to_dispatched : DeliveryState → Action S DeliveryState
  to_dispatched state = do
    reached ←
        if state.reminder.status == scheduled || state.reminder.status == retry_scheduled
        then move state due "window_reached"
        else lift (ok state)
    recovered ←
        if reached.reminder.status == failed
        then move reached retry_scheduled "retry_recovered"
        else lift (ok reached)
    if not (recovered.reminder.status == dispatched)
        then move recovered dispatched "dispatch_started"
        else lift (ok recovered)

  unfoldable pub answer :
      DeliveryState
      → ExecuteDueRemindersResponse
      → CoreResult StoreReceipt
      → Action S ExecuteDueRemindersResponse
  unfolding deliver_failed deliver_acknowledged
  answer state response (err failure) = deliver_failed state response (err failure)
  answer state response (ok receipt) =
      if acknowledged receipt
      then deliver_acknowledged state response receipt
      else deliver_failed state response (ok receipt)

  -- The only place where the host is called.
  unfoldable pub deliver :
      DeliveryState → ExecuteDueRemindersResponse → Action S ExecuteDueRemindersResponse
  unfolding to_dispatched answer
  deliver state response = do
    started ← to_dispatched state
    persist_delivery started
    outcome ← attempt (store.lifecycle_dispatch started.reminder)
    held ← store.lifecycle_renew_fenced claim request.lease_seconds
    lift (refuse (not held) (lease_lost "user lease lost during reminder dispatch"))
    answer started response outcome

  unfoldable pub put_off :
      DeliveryState → ExecuteDueRemindersResponse → ℕ → ℕ → Action S ExecuteDueRemindersResponse
  unfolding report
  put_off state response now next = do
    time ← lift (timestamp_add_seconds libraries.chrono request.due_at_or_before (next - now))
    report (record state { reminder = record state.reminder { next_attempt_at = some time } })
        response false "quiet_hours"

  -- What is done without the host, where the delivery is not to go on.
  unfoldable pub conclude :
      Verdict → ExecuteDueRemindersResponse → ℕ → Action S ExecuteDueRemindersResponse
  unfolding deliver put_off
  conclude (stop state reason why) response now = do
    ended ← give_up state reason why
    report ended response false why
  conclude (wait state next) response now = put_off state response now next
  conclude (proceed state) response now = deliver state response

  -- `timestamp_nanos(effective)? > now_nanos || timestamp_nanos(&due_at)? > now_nanos`
  abbrev is_early : ReminderRecord → ℕ → CoreResult Bool
  is_early r now_nanos = result_bind (timestamp_nanos libraries.chrono (due_text r)) λ effective.
      if ltb now_nanos effective
      then ok true
      else result_bind (timestamp_nanos libraries.chrono r.due_at)
          λ planned. ok (ltb now_nanos planned)

  -- An acknowledgement that was saved is not asked for again.
  unfoldable pub finish_acknowledged :
      DeliveryState → ExecuteDueRemindersResponse → Action S ExecuteDueRemindersResponse
  unfolding report
  finish_acknowledged state response = do
    ended ←
        if state.reminder.status == dispatched
        then move state completed "delivered"
        else lift (ok state)
    report (finished ended reason_delivered) response true "delivered"

  unfoldable pub execute_due :
      DeliveryState → ExecuteDueRemindersResponse → ℕ → ℕ → Action S ExecuteDueRemindersResponse
  unfolding judge conclude finish_acknowledged
  execute_due state response now now_nanos =
      if is_acknowledged state.receipt then finish_acknowledged state response else (do
        verdict ← reads (judge store libraries request state now now_nanos)
        conclude verdict response now)

  abbrev load_state : ReminderRecord → S → CoreResult DeliveryState
  load_state r s = result_bind (store.lifecycle_load request.tenant_id (delivery_key r) s) λ stored.
      elim stored [
        | none ↦ ok (record { reminder = r; transitions = []; receipt = none })
        | some value ↦ libraries.from_value value
      ]

  unfoldable pub execute_one :
      ReminderRecord → ExecuteDueRemindersResponse → ℕ → ℕ → Action S ExecuteDueRemindersResponse
  unfolding execute_due delivery_key
  execute_one r response now now_nanos = do
    lift (
        refuse (not (r.tenant_id == request.tenant_id) || not (r.user_id == request.user_id))
          (invalid_input "reminder store returned an out-of-scope reminder"))
    held ← store.lifecycle_renew_fenced claim request.lease_seconds
    lift (refuse (not held) (lease_lost "user lifecycle lease lost during delivery"))
    state ← reads (load_state r)
    if closed state.reminder.status
        then (do store.upsert_reminder state.reminder; lift (ok response))
        else (do
          early ← lift (is_early state.reminder now_nanos)
          if early then lift (ok response) else execute_due state response now now_nanos)

  unfoldable pub execute_all :
      List ReminderRecord
      → ExecuteDueRemindersResponse
      → ℕ
      → ℕ
      → Action S ExecuteDueRemindersResponse
  unfolding execute_one
  execute_all [] response now now_nanos = lift (ok response)
  execute_all (r ∷ rest) response now now_nanos = do
    after ← execute_one r response now now_nanos
    execute_all rest after now now_nanos

  abbrev trace_or : Option String → String
  trace_or (some trace) = trace
  trace_or none =
      libraries.deterministic_id (
        request.tenant_id ∷ request.user_id ∷ request.due_at_or_before ∷ "due_reminders_trace" ∷ [])

  unfoldable pub execute_claimed : ℕ → ℕ → Action S ExecuteDueRemindersResponse
  unfolding execute_all
  execute_claimed now now_nanos = do
    found ←
        reads (store.list_due_reminders request.tenant_id request.user_id request.due_at_or_before)
    execute_all found (record { trace_id = trace_or request.trace_id; results = []; receipts = [] })
        now now_nanos
