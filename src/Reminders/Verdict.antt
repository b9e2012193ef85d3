-- ===== src/Reminders/Verdict.antt =====
-- runtime/reminders.rs, `execute_claimed`: whether a due reminder may be delivered now. The source
-- asks these questions in turn and acts on the first that has an answer; none of them changes the store.
use nextral.Base.{
  ℕ, Bool, true, false, not, ◌||◌, String, Option, none, some, List, [], ◌∷◌, contains, leb, ◌==◌,
  string_eq, if◌then◌else◌,
}
use nextral.Kinds.{active, privacy_eq, status_eq}
use nextral.Contracts.{CoreResult, ok, ◌>>=◌}
use nextral.Json.{Value}
use nextral.Timestamps.{timestamp_nanos}
use nextral.Memories.Records.{MemoryRecord}
use nextral.Scope.Keys.{forgotten_source, user_key}
use nextral.Reminders.Records.{
  ReminderTerminalReason, source_unavailable, privacy_denied, channel_denied, reason_expired,
  DeliveryState, ExecuteDueRemindersRequest,
}
use nextral.Reminders.QuietHours.{in_quiet_hours, quiet_until}
use nextral.Reminders.Interface.{DeliveryStore, Libraries}

-- Give the delivery up, put it off to an instant, or go on; with the state of the delivery so far.
pub data Verdict : Type 0 where
  stop : DeliveryState → ReminderTerminalReason → String → Verdict
  wait : DeliveryState → ℕ → Verdict
  proceed : DeliveryState → Verdict

module _ {S : Type 0} (store : DeliveryStore S) (libraries : Libraries)
    (request : ExecuteDueRemindersRequest) where
  abbrev pub is_present : Option Value → Bool
  is_present none = false
  is_present (some v) = true

  -- All sources are asked, also after one was found forgotten.
  unfoldable pub any_forgotten : List String → Bool → S → CoreResult Bool
  any_forgotten [] found s = ok found
  any_forgotten (source ∷ rest) found s = do
    tombstone ←
        store.lifecycle_load request.tenant_id (user_key forgotten_source request.user_id source) s
    any_forgotten rest (found || is_present tombstone) s

  abbrev pub is_past : Option String → ℕ → CoreResult Bool
  is_past none now_nanos = ok false
  is_past (some expires_at) now_nanos = do
    expiry ← timestamp_nanos libraries.chrono expires_at
    ok (leb expiry now_nanos)

  unfoldable pub judge_hours : DeliveryState → ℕ → CoreResult Verdict
  judge_hours state now = do
    quiet ← in_quiet_hours libraries.zones state.reminder now
    if quiet
        then (do next ← quiet_until libraries.zones state.reminder now; ok (wait state next))
        else ok (proceed state)

  unfoldable pub judge_expiry : DeliveryState → ℕ → ℕ → CoreResult Verdict
  unfolding judge_hours
  judge_expiry state now now_nanos = do
    past ← is_past state.reminder.expires_at now_nanos
    if past then ok (stop state reason_expired "expired") else judge_hours state now

  unfoldable pub judge_source : DeliveryState → MemoryRecord → ℕ → ℕ → S → CoreResult Verdict
  unfolding any_forgotten judge_expiry
  judge_source state source now now_nanos s = do
    forgotten ← any_forgotten source.source_message_ids false s
    let seen : DeliveryState = record state {
      reminder = record state.reminder { privacy_level = source.privacy_level };
    }
    if forgotten
        then ok (stop state source_unavailable "source_unavailable")
        else if not (contains request.privacy_scope source.privacy_level)
            || not (contains request.privacy_scope state.reminder.privacy_level)
        then ok (stop state privacy_denied "privacy_denied")
        else if not (contains state.reminder.allowed_channels state.reminder.channel)
        then ok (stop seen channel_denied "channel_denied")
        else judge_expiry seen now now_nanos

  unfoldable pub judge_found : DeliveryState → ℕ → ℕ → S → Option MemoryRecord → CoreResult Verdict
  unfolding judge_source
  judge_found state now now_nanos s none = ok (stop state source_unavailable "source_unavailable")
  judge_found state now now_nanos s (some source) =
      if source.status == active
      then judge_source state source now now_nanos s
      else ok (stop state source_unavailable "source_unavailable")

  unfoldable pub judge : DeliveryState → ℕ → ℕ → S → CoreResult Verdict
  unfolding judge_found
  judge state now now_nanos s = do
    found ← store.get_memory request.tenant_id request.user_id state.reminder.source_memory_id s
    judge_found state now now_nanos s found
