-- ===== src/Reminders/Execution/Outcomes.antt =====
-- How a delivery that went to the host ends.
use nextral.Base.{
  ◌≡◌, ◌≢◌, ◌∙◌, ap, sym, refl, ◌⊎◌, inl, inr, arith, Bool, true, false, String, none, some, [],
  ◌∷◌, ◌++◌, leb, Bool-cases, string_eq,
}
use nextral.Contracts.{CoreResult, ok, err}
use nextral.Timestamps.{timestamp_add_seconds}
use nextral.Lifecycle.Records.{LeaseClaim}
use nextral.Reminders.Records.{
  ReminderStatus, dispatched, completed, failed, retry_scheduled, status_eq, reason_delivered,
  retry_exhausted, DeliveryState, StoreReceipt, ReminderDispatchResult, ExecuteDueRemindersRequest,
  ExecuteDueRemindersResponse,
}
use nextral.Reminders.Status.{transition, moved}
use nextral.Reminders.Delivery.{
  apply_transition, dispatch_result, record_delivery_attempt, acknowledged,
  dispatch_failure_receipt,
}
use nextral.Reminders.Interface.{lift, ◌>>=◌, action_value, DeliveryStore, Libraries}
use nextral.Reminders.Execution.{
  move, complete, finished, retry, exhaust, retry_or_exhaust, report, persist_delivery,
  retries_or_three, deliver_failed, deliver_acknowledged, answer,
}

-- The response has one more result, dispatched or not, and of the given status.
abbrev pub Adds :
    ExecuteDueRemindersResponse → ExecuteDueRemindersResponse → Bool → ReminderStatus → Type 0
Adds response after was status =
    (r : ReminderDispatchResult) × (after.results ≡ response.results ++ (r ∷ []))
    × (r.dispatched ≡ was)
    × (r.status ≡ status)

module _ {S : Type 0} (store : DeliveryStore S) (libraries : Libraries) (claim : LeaseClaim)
    (request : ExecuteDueRemindersRequest) where
  move-moved :
      (state after : DeliveryState) (to : ReminderStatus) (why : String) (s t : S)
      → move store libraries claim request state to why s ≡ (t, ok after)
      → (after.reminder.status ≡ to)
        × (to ≢ dispatched → after.reminder.attempt_count ≡ state.reminder.attempt_count)
  unfolding apply_transition transition moved
  move-moved state after to why s t went = (ground arith, λ other. ground (arith, other))

  report-adds :
      (state : DeliveryState) (response after : ExecuteDueRemindersResponse) (was : Bool)
      (why : String) (s t : S)
      → report store libraries claim request state response was why s ≡ (t, ok after)
      → after.results ≡ response.results ++ (dispatch_result state request was why ∷ [])
  unfolding report
  report-adds state response after was why s t went =
      let (done, u, last, first) =
        action_value (persist_delivery store libraries claim request state)
          (λ done. lift (
            ok (record response {
              results = response.results ++ (dispatch_result state request was why ∷ []);
            })))
          s went in
      ground (arith, last)

  complete-Adds :
      (state : DeliveryState) (response after : ExecuteDueRemindersResponse) (s t : S)
      → complete store libraries claim request state response s ≡ (t, ok after)
      → Adds response after true completed
  unfolding complete dispatch_result
  complete-Adds state response after s t went =
      let (ended, u, last, first) =
        action_value (move store libraries claim request state completed "delivered")
          (λ ended.
            report store libraries claim request (finished ended reason_delivered) response true
              "delivered")
          s went in
      let (status, count) = move-moved state ended completed "delivered" s u first in
      (
        dispatch_result (finished ended reason_delivered) request true "delivered",
        report-adds (finished ended reason_delivered) response after true "delivered" u t last,
        refl,
        status,
      )

  retry-Adds :
      (over : DeliveryState) (response after : ExecuteDueRemindersResponse) (s t : S)
      → retry store libraries claim request over response s ≡ (t, ok after)
      → Adds response after false retry_scheduled
  unfolding retry dispatch_result
  retry-Adds over response after s t went =
      let (again, u, more, first) =
        action_value (move store libraries claim request over retry_scheduled "retry_scheduled")
          (λ again.
            lift (
              timestamp_add_seconds libraries.chrono request.due_at_or_before
                request.retry_delay_seconds)
            >>= λ time.
                report store libraries claim request
                  (record again {
                    reminder = record again.reminder { next_attempt_at = some time };
                  })
                  response false "retry_scheduled")
          s went in
      let (status, count) = move-moved over again retry_scheduled "retry_scheduled" s u first in
      let (time, v, last, timed) =
        action_value
          (lift (
            timestamp_add_seconds libraries.chrono request.due_at_or_before
              request.retry_delay_seconds))
          (λ time.
            report store libraries claim request
              (record again { reminder = record again.reminder { next_attempt_at = some time } })
              response false "retry_scheduled")
          u more in
      (
        dispatch_result
            (record again { reminder = record again.reminder { next_attempt_at = some time } })
            request false "retry_scheduled",
        report-adds
            (record again { reminder = record again.reminder { next_attempt_at = some time } })
            response after false "retry_scheduled" v t last,
        refl,
        status,
      )

  exhaust-Adds :
      (over : DeliveryState) (response after : ExecuteDueRemindersResponse) (s t : S)
      → exhaust store libraries claim request over response s ≡ (t, ok after)
      → Adds response after false ReminderStatus.expired
  unfolding exhaust dispatch_result
  exhaust-Adds over response after s t went =
      let (ended, u, last, first) =
        action_value
          (move store libraries claim request over ReminderStatus.expired "retry_exhausted")
          (λ ended.
            report store libraries claim request (finished ended retry_exhausted) response false
              "retry_exhausted")
          s went in
      let (status, count) =
        move-moved over ended ReminderStatus.expired "retry_exhausted" s u first in
      (
        dispatch_result (finished ended retry_exhausted) request false "retry_exhausted",
        report-adds (finished ended retry_exhausted) response after false "retry_exhausted" u t
            last,
        refl,
        status,
      )

  abbrev pub has_retries : DeliveryState → Bool
  has_retries state = leb state.reminder.attempt_count (retries_or_three request.max_retries)

  abbrev pub Fails :
      DeliveryState → ExecuteDueRemindersResponse → ExecuteDueRemindersResponse → Type 0
  Fails state response after =
      ((has_retries state ≡ true) × Adds response after false retry_scheduled)
      ⊎ ((has_retries state ≡ false) × Adds response after false ReminderStatus.expired)

  retry_or_exhaust-Fails :
      (over : DeliveryState) (response after : ExecuteDueRemindersResponse) (s t : S)
      → retry_or_exhaust store libraries claim request over response s ≡ (t, ok after)
      → Fails over response after
  unfolding retry_or_exhaust
  retry_or_exhaust-Fails over response after s t went = elim (Bool-cases (has_retries over)) [
    | inl left ↦ inl (left, retry-Adds over response after s t (rw left at went))
    | inr none_left ↦ inr (none_left, exhaust-Adds over response after s t (rw none_left at went))
  ]

  failed-Fails :
      (state : DeliveryState) (response after : ExecuteDueRemindersResponse)
      (outcome : CoreResult StoreReceipt) (s t : S)
      → deliver_failed store libraries claim request state response outcome s ≡ (t, ok after)
      → Fails state response after
  unfolding deliver_failed record_delivery_attempt
  failed-Fails state response after outcome s t went =
      let (receipt, why, http) = dispatch_failure_receipt state.reminder outcome in
      let answered : ExecuteDueRemindersResponse = record response {
        receipts = response.receipts ++ (receipt ∷ []);
      } in
      let noted : DeliveryState = record state {
        reminder = record_delivery_attempt state.reminder receipt why http (store.now_timestamp s);
      } in
      let (over, u, last, first) =
        action_value (move store libraries claim request noted failed why)
          (λ over. retry_or_exhaust store libraries claim request over answered) s went in
      let (status, count) = move-moved noted over failed why s u first in
      let kept = ap (λ n. leb n (retries_or_three request.max_retries)) (count (ground arith)) in
      elim (retry_or_exhaust-Fails over answered after u t last) [
        | inl (left, adds) ↦ inl (sym kept ∙ left, adds)
        | inr (none_left, adds) ↦ inr (sym kept ∙ none_left, adds)
      ]

  abbrev pub is_acknowledgement : CoreResult StoreReceipt → Bool
  is_acknowledgement (ok receipt) = acknowledged receipt
  is_acknowledgement (err failure) = false

  acknowledged-Adds :
      (state : DeliveryState) (response after : ExecuteDueRemindersResponse)
      (receipt : StoreReceipt) (s t : S)
      → deliver_acknowledged store libraries claim request state response receipt s ≡ (t, ok after)
      → Adds response after true completed
  unfolding deliver_acknowledged record_delivery_attempt
  acknowledged-Adds state response after receipt s t went =
      let answered : ExecuteDueRemindersResponse = record response {
        receipts = response.receipts ++ (receipt ∷ []);
      } in
      let noted : DeliveryState = record state {
        reminder =
            record_delivery_attempt state.reminder receipt "delivered" none (store.now_timestamp s);
        receipt = some receipt;
      } in
      let (done, u, last, first) =
        action_value (persist_delivery store libraries claim request noted)
          (λ done. complete store libraries claim request noted answered) s went in
      complete-Adds noted answered after u t last

  -- If the answer of the host to a dispatch is handled without an error, the response has exactly one
  -- more result. It is dispatched and completed where the host acknowledged; otherwise it is not
  -- dispatched, and is to be retried where the attempts so far do not exceed the retries that the
  -- request allows, and expired where they do.
  pub answer_settles :
      (state : DeliveryState) (response after : ExecuteDueRemindersResponse)
      (outcome : CoreResult StoreReceipt) (s t : S)
      → answer store libraries claim request state response outcome s ≡ (t, ok after)
      → ((is_acknowledgement outcome ≡ true) × Adds response after true completed)
        ⊎ ((is_acknowledgement outcome ≡ false) × Fails state response after)
  unfolding answer
  answer_settles state response after (err failure) s t went =
      inr (refl, failed-Fails state response after (err failure) s t went)
  answer_settles state response after (ok receipt) s t went =
      elim (Bool-cases (acknowledged receipt)) [
        | inl good ↦
            inl (good, acknowledged-Adds state response after receipt s t (rw good at went))
        | inr bad ↦ inr (bad, failed-Fails state response after (ok receipt) s t (rw bad at went))
      ]
