-- ===== src/Reminders/Execution/Clearance.antt =====
-- When the host is called for a reminder that is due.
use nextral.Base.{
  ℕ, ◌≡◌, refl, arith, Bool, true, false, not, ◌&&◌, ◌||◌, String, Option, none, some, List, [],
  ◌∷◌, all, contains, ◌==◌, string_eq, inl, inr, Bool-cases, Option-cases, ◌∙◌, ap, sym, ◌≢◌,
}
use nextral.Kinds.{active, privacy_eq, status_eq}
use nextral.Contracts.{CoreResult, ok, err, chain_value, same_rest}
use nextral.Json.{Value}
use nextral.Memories.Records.{MemoryRecord}
use nextral.Scope.Keys.{forgotten_source, user_key}
use nextral.Lifecycle.Records.{LeaseClaim}
use nextral.Reminders.Records.{
  ReminderRecord, DeliveryState, ExecuteDueRemindersRequest, ExecuteDueRemindersResponse,
  StoreReceipt,
}
use nextral.Reminders.QuietHours.{in_quiet_hours}
use nextral.Reminders.Interface
use nextral.Reminders.Interface.{Action, lift, DeliveryStore, Libraries}
use nextral.Reminders.Verdict.{
  Verdict, stop, wait, proceed, judge, judge_found, judge_source, judge_expiry, judge_hours,
  any_forgotten, is_past, is_present,
}
use nextral.Reminders.Execution.{
  execute_due, conclude, put_off, finish_acknowledged, is_acknowledged,
}

abbrev answered_no : CoreResult Bool → Bool
answered_no (ok false) = true
answered_no _ = false

abbrev tombstone_free : CoreResult (Option Value) → Bool
tombstone_free (ok none) = true
tombstone_free _ = false

module _ {S : Type 0} (store : DeliveryStore S) (libraries : Libraries)
    (request : ExecuteDueRemindersRequest) where
  abbrev remembered : List String → S → Bool
  remembered sources s =
      all
        (λ source. tombstone_free (
          store.lifecycle_load request.tenant_id (user_key forgotten_source request.user_id source)
            s))
        sources

  -- The source is active, none of its messages is forgotten, its privacy and the reminder's are in the
  -- scope of the request, the channel is allowed, the reminder has not expired and the hour is not quiet.
  abbrev source_clears : DeliveryState → ℕ → ℕ → S → CoreResult (Option MemoryRecord) → Bool
  source_clears state now now_nanos s (ok (some source)) =
      source.status == active
      && remembered source.source_message_ids s
      && contains request.privacy_scope source.privacy_level
      && contains request.privacy_scope state.reminder.privacy_level
      && contains state.reminder.allowed_channels state.reminder.channel
      && answered_no (is_past store libraries request state.reminder.expires_at now_nanos)
      && answered_no (in_quiet_hours libraries.zones state.reminder now)
  source_clears state now now_nanos s _ = false

  abbrev pub is_cleared : DeliveryState → ℕ → ℕ → S → Bool
  is_cleared state now now_nanos s =
      not (is_acknowledged state.receipt)
      && source_clears state now now_nanos s
          (store.get_memory request.tenant_id request.user_id state.reminder.source_memory_id s)

  any_forgotten-remembered :
      (sources : List String) (found : Bool) (s : S)
      → any_forgotten store libraries request sources found s ≡ ok false
      → (found ≡ false) × (remembered sources s ≡ true)
  unfolding any_forgotten
  any_forgotten-remembered [] found s h = (ground arith, refl)
  any_forgotten-remembered (source ∷ rest) found s h =
      let (tombstone, more, loaded) =
        chain_value
          (store.lifecycle_load request.tenant_id (user_key forgotten_source request.user_id source)
            s)
          (λ v.
            any_forgotten store libraries request rest
              (found || is_present store libraries request v) s)
          h in
      let later =
        any_forgotten-remembered rest (found || is_present store libraries request tombstone) s
          more in
      ground (arith, later)

  judge_hours-proceed :
      (state t : DeliveryState) (now : ℕ)
      → judge_hours store libraries request state now ≡ ok (proceed t)
      → answered_no (in_quiet_hours libraries.zones state.reminder now) ≡ true
  unfolding judge_hours
  judge_hours-proceed state t now h = ground arith

  judge_expiry-proceed :
      (state t : DeliveryState) (now now_nanos : ℕ)
      → judge_expiry store libraries request state now now_nanos ≡ ok (proceed t)
      → (answered_no (is_past store libraries request state.reminder.expires_at now_nanos) ≡ true)
        × (answered_no (in_quiet_hours libraries.zones state.reminder now) ≡ true)
  unfolding judge_expiry
  judge_expiry-proceed state t now now_nanos h = ground (arith, judge_hours-proceed state t now)

  judge_source-proceed :
      (state t : DeliveryState) (source : MemoryRecord) (now now_nanos : ℕ) (s : S)
      → judge_source store libraries request state source now now_nanos s ≡ ok (proceed t)
      → source.status == active ≡ true
      → source_clears state now now_nanos s (ok (some source)) ≡ true
  unfolding judge_source in_quiet_hours
  judge_source-proceed state t source now now_nanos s h live =
      let seen : DeliveryState = record state {
        reminder = record state.reminder { privacy_level = source.privacy_level };
      } in
      let (forgotten, more, asked) =
        chain_value (any_forgotten store libraries request source.source_message_ids false s) _ h in
      ground (
        arith,
        judge_expiry-proceed seen t now now_nanos,
        any_forgotten-remembered source.source_message_ids false s,
      )

  judge-proceed :
      (state t : DeliveryState) (now now_nanos : ℕ) (s : S)
      → judge store libraries request state now now_nanos s ≡ ok (proceed t)
      → source_clears state now now_nanos s
          (store.get_memory request.tenant_id request.user_id state.reminder.source_memory_id s)
        ≡ true
  unfolding judge judge_found
  judge-proceed state t now now_nanos s h =
      let (found, more, asked) =
        chain_value
          (store.get_memory request.tenant_id request.user_id state.reminder.source_memory_id s) _
          h in
      elim (Option-cases found) [
        | inl missing ↦ absurd (ground arith)
        | inr (source, present) ↦
            ground (arith, judge_source-proceed state t source now now_nanos s)
      ]

abbrev pub with_host :
    {S : Type 0} → DeliveryStore S → (ReminderRecord → Action S StoreReceipt) → DeliveryStore S
with_host store host = record store { lifecycle_dispatch = host }

module _ {S : Type 0} (store : DeliveryStore S) (host : ReminderRecord → Action S StoreReceipt)
    (libraries : Libraries) (request : ExecuteDueRemindersRequest) where
  any_forgotten-host :
      (sources : List String) (found : Bool) (s : S)
      → any_forgotten (with_host store host) libraries request sources found s
        ≡ any_forgotten store libraries request sources found s
  unfolding any_forgotten
  any_forgotten-host [] found s = refl
  any_forgotten-host (source ∷ rest) found s =
      same_rest
        (store.lifecycle_load request.tenant_id (user_key forgotten_source request.user_id source)
          s)
        _ _ λ v. any_forgotten-host rest (found || is_present store libraries request v) s

  judge_source-host :
      (state : DeliveryState) (source : MemoryRecord) (now now_nanos : ℕ) (s : S)
      → judge_source (with_host store host) libraries request state source now now_nanos s
        ≡ judge_source store libraries request state source now now_nanos s
  unfolding judge_source judge_expiry judge_hours
  judge_source-host state source now now_nanos s =
      rw (any_forgotten-host source.source_message_ids false s) refl

  judge_found-host :
      (state : DeliveryState) (now now_nanos : ℕ) (s : S) (found : Option MemoryRecord)
      → judge_found (with_host store host) libraries request state now now_nanos s found
        ≡ judge_found store libraries request state now now_nanos s found
  unfolding judge_found
  judge_found-host state now now_nanos s none = refl
  judge_found-host state now now_nanos s (some source) =
      rw (judge_source-host state source now now_nanos s) refl

  judge-host :
      (state : DeliveryState) (now now_nanos : ℕ) (s : S)
      → judge (with_host store host) libraries request state now now_nanos s
        ≡ judge store libraries request state now now_nanos s
  unfolding judge
  judge-host state now now_nanos s =
      same_rest
        (store.get_memory request.tenant_id request.user_id state.reminder.source_memory_id s) _ _
        (judge_found-host state now now_nanos s)

module _ {S : Type 0} (store : DeliveryStore S) (libraries : Libraries) (claim : LeaseClaim)
    (request : ExecuteDueRemindersRequest) (response : ExecuteDueRemindersResponse) (now : ℕ) where
  after_verdict : CoreResult Verdict → S → S × CoreResult ExecuteDueRemindersResponse
  after_verdict (err failure) s = (s, err failure)
  after_verdict (ok verdict) s = conclude store libraries claim request verdict response now s

  verdict_step :
      (m : CoreResult Verdict) (s : S)
      → Interface.◌>>=◌ (lift m) (λ v. conclude store libraries claim request v response now) s
        ≡ after_verdict m s
  unfolding after_verdict
  verdict_step (err failure) s = refl
  verdict_step (ok verdict) s = refl

  execute_due-verdict :
      (state : DeliveryState) (now_nanos : ℕ) (s : S)
      → is_acknowledged state.receipt ≡ false
      → execute_due store libraries claim request state response now now_nanos s
        ≡ after_verdict (judge store libraries request state now now_nanos s) s
  unfolding execute_due after_verdict
  execute_due-verdict state now_nanos s fresh =
      rw fresh (verdict_step (judge store libraries request state now now_nanos s) s)

after_verdict-host :
    {S : Type 0} (store : DeliveryStore S) (host : ReminderRecord → Action S StoreReceipt)
    (libraries : Libraries) (claim : LeaseClaim) (request : ExecuteDueRemindersRequest)
    (response : ExecuteDueRemindersResponse) (now : ℕ) (m : CoreResult Verdict) (s : S)
    → ((t : DeliveryState) → m ≢ ok (proceed t))
    → after_verdict (with_host store host) libraries claim request response now m s
      ≡ after_verdict store libraries claim request response now m s
unfolding after_verdict conclude put_off
after_verdict-host store host libraries claim request response now (err failure) s never = refl
after_verdict-host store host libraries claim request response now (ok (stop t reason why)) s
      never =
    refl
after_verdict-host store host libraries claim request response now (ok (wait t next)) s never = refl
after_verdict-host store host libraries claim request response now (ok (proceed t)) s never =
    absurd (never t refl)

-- The host is called for a reminder only if it has no acknowledgement yet, its source is active with
-- none of its messages forgotten, the privacy of both is in the scope of the request, its channel is
-- allowed, it has not expired and the hour is not quiet: otherwise what is done and answered is the
-- same with any other host.
pub host_needs_clearance :
    {S : Type 0} (store : DeliveryStore S) (host : ReminderRecord → Action S StoreReceipt)
    (libraries : Libraries) (claim : LeaseClaim) (request : ExecuteDueRemindersRequest)
    (state : DeliveryState) (response : ExecuteDueRemindersResponse) (now now_nanos : ℕ) (s : S)
    → is_cleared store libraries request state now now_nanos s ≡ false
    → execute_due (with_host store host) libraries claim request state response now now_nanos s
      ≡ execute_due store libraries claim request state response now now_nanos s
host_needs_clearance store host libraries claim request state response now now_nanos s refused =
    elim (Bool-cases (is_acknowledged state.receipt)) [
      | inl acked ↦ unfold execute_due finish_acknowledged in rw acked refl
      | inr fresh ↦
          let judged = judge store libraries request state now now_nanos s in
          execute_due-verdict (with_host store host) libraries claim request response now state
            now_nanos s fresh
          ∙ ap (λ m. after_verdict (with_host store host) libraries claim request response now m s)
              (judge-host store host libraries request state now now_nanos s)
          ∙ after_verdict-host store host libraries claim request response now judged s (λ t go.
            ground (arith, judge-proceed store libraries request state t now now_nanos s go))
          ∙ sym (
              execute_due-verdict store libraries claim request response now state now_nanos s
                fresh)
    ]
