-- ===== src/Reminders/QuietHours/Search.antt =====
-- Where the search for the end of the quiet hours stops.
use nextral.Base.{
  ℕ, zero, suc, ◌+◌, ◌-◌, ◌*◌, ◌^◌, ◌≤◌, ◌<◌, min, ◌≡◌, refl, ◌⊎◌, inl, inr, arith, Bool, true,
  false, sym,
}
use nextral.Contracts.{CoreError, CoreResult, ok, err}
use nextral.Reminders.Records.{ReminderRecord}
use nextral.Reminders.QuietHours.{Zones, in_quiet_hours, scan, quiet_until}

answer_cases :
    (m : CoreResult Bool) → (m ≡ ok false) ⊎ (m ≡ ok true) ⊎ ((e : CoreError) × (m ≡ err e))
answer_cases (ok false) = inl refl
answer_cases (ok true) = inr (inl refl)
answer_cases (err e) = inr (inr (e, refl))

one_or_more : (i : ℕ) → 0 < i → (i ≡ 1) ⊎ (1 < i)
one_or_more zero h = absurd (omega arith)
one_or_more (suc zero) h = inl refl
one_or_more (suc (suc i)) h = inr (omega arith)

module _ (zones : Zones) (r : ReminderRecord) where
  abbrev quiet : ℕ → CoreResult Bool
  quiet t = in_quiet_hours zones r t

  scan-skips :
      (steps now t i : ℕ)
      → now + 60 * steps < 2 ^ 64
      → scan zones steps r now ≡ ok t
      → 0 < i
      → now + 60 * i < t
      → quiet (now + 60 * i) ≡ ok true
  unfolding scan
  scan-skips zero now t i room found after before = absurd (ground arith)
  scan-skips (suc steps) now t i room found after before =
      let one : min (now + 60) (2 ^ 64 - 1) ≡ now + 60 = omega arith in
      elim (answer_cases (quiet (now + 60))) [
        | inl over ↦ absurd (ground (arith, one))
        | inr (inl still) ↦ elim (one_or_more i after) [
          | inl first ↦ rw first still
          | inr later ↦
              let again : now + 60 + 60 * (i - 1) ≡ now + 60 * i = omega arith in
              rw (sym again) (
                scan-skips steps (now + 60) t (i - 1) (omega arith) (ground (arith, one))
                  (omega arith) (omega arith))
        ]
        | inr (inr (e, failed)) ↦ absurd (ground (arith, one))
      ]

  scan-stops :
      (steps now t : ℕ)
      → now + 60 * steps < 2 ^ 64
      → scan zones steps r now ≡ ok t
      → (t ≤ now + 60 * steps) × ((t ≡ now + 60 * steps) ⊎ (quiet t ≡ ok false))
  unfolding scan
  scan-stops zero now t room found = (ground arith, inl (ground arith))
  scan-stops (suc steps) now t room found =
      let one : min (now + 60) (2 ^ 64 - 1) ≡ now + 60 = omega arith in
      elim (answer_cases (quiet (now + 60))) [
        | inl over ↦
            let here : t ≡ now + 60 = ground (arith, one) in (omega arith, inr (rw here over))
        | inr (inl still) ↦
            let (near, stop) = scan-stops steps (now + 60) t (omega arith) (ground (arith, one)) in
            (omega arith, elim stop [ inl last ↦ inl (omega arith) | inr over ↦ inr over ])
        | inr (inr (e, failed)) ↦ absurd (ground (arith, one))
      ]

  -- The search for the end of the quiet hours, started within range, passes only over quiet minutes:
  -- every whole minute before the instant that it finds is quiet.
  pub quiet_until_skips :
      (now t i : ℕ)
      → now + 60 * (26 * 60) < 2 ^ 64
      → quiet_until zones r now ≡ ok t
      → 0 < i
      → now + 60 * i < t
      → in_quiet_hours zones r (now + 60 * i) ≡ ok true
  unfolding quiet_until
  quiet_until_skips now t i room found after before =
      scan-skips (26 * 60) now t i room found after before

  -- The search for the end of the quiet hours, started within range, goes 26 hours at most, and stops
  -- before that only at an instant that is not quiet.
  pub quiet_until_stops :
      (now t : ℕ)
      → now + 60 * (26 * 60) < 2 ^ 64
      → quiet_until zones r now ≡ ok t
      → (t ≤ now + 60 * (26 * 60))
        × ((t ≡ now + 60 * (26 * 60)) ⊎ (in_quiet_hours zones r t ≡ ok false))
  unfolding quiet_until
  quiet_until_stops now t room found = scan-stops (26 * 60) now t room found
