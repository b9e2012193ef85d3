-- ===== src/Reminders/QuietHours.antt =====
-- runtime/reminders.rs: the hours in which a user is not disturbed, and the search for their end.
pub mod Search
use nextral.Base.{
  ℕ, zero, suc, ◌+◌, ◌-◌, ◌*◌, ◌^◌, ◌≤◌, ◌<◌, min, ◌≡◌, refl, ◌⊎◌, inl, inr, arith, Bool, true,
  false, not, ◌&&◌, ◌||◌, String, Option, none, some, ltb, leb, if◌then◌else◌,
}
use nextral.Contracts.{CoreResult, ok, err, invalid_input, ok_or, refuse, ◌>>=◌, ◌>>◌}
use nextral.Reminders.Records.{QuietHours, ReminderRecord}

-- The library chrono_tz: whether a text names a zone, and the hour in it of an instant.
pub record Zones : Type 0 where
  pub is_zone : String → Bool
  pub hour : String → ℕ → Option ℕ

abbrev pub within : QuietHours → ℕ → Bool
within hours hour =
    if ltb hours.start_hour hours.end_hour
    then leb hours.start_hour hour && ltb hour hours.end_hour
    else leb hours.start_hour hour || ltb hour hours.end_hour

module _ (zones : Zones) where
  quiet_at : QuietHours → String → ℕ → CoreResult Bool
  quiet_at hours timezone now = do
    refuse (not (zones.is_zone timezone)) (invalid_input "invalid reminder timezone")
    refuse (leb (2 ^ 63) now) (invalid_input "timestamp exceeds supported range")
    hour ← ok_or (zones.hour timezone now) (invalid_input "timestamp exceeds supported range")
    ok (within hours hour)

  unfoldable pub in_quiet_hours : ReminderRecord → ℕ → CoreResult Bool
  unfolding quiet_at
  in_quiet_hours reminder now = elim reminder.quiet_hours [
    | none ↦ ok false
    | some hours ↦ quiet_at hours reminder.timezone now
  ]

  -- `u64::saturating_add(60)`
  abbrev next_minute : ℕ → ℕ
  next_minute t = min (t + 60) (2 ^ 64 - 1)

  -- The loop that steps by minutes until the hours end, with the steps that are left.
  unfoldable pub scan : ℕ → ReminderRecord → ℕ → CoreResult ℕ
  scan zero reminder t = ok t
  scan (suc steps) reminder t = elim (in_quiet_hours reminder (next_minute t)) [
    | err failure ↦ err failure
    | ok false ↦ ok (next_minute t)
    | ok true ↦ scan steps reminder (next_minute t)
  ]

  -- `0..(26 * 60)`
  unfoldable pub quiet_until : ReminderRecord → ℕ → CoreResult ℕ
  unfolding scan
  quiet_until reminder now = scan (26 * 60) reminder now
