-- ===== src/Reminders/Delivery/Attempts.antt =====
-- What is recorded of the attempts of a delivery.
use nextral.Base.{
  ℕ, ◌≡◌, ◌⊎◌, refl, arith, Bool, true, not, ◌&&◌, ◌||◌, String, Option, none, some, List, [], ◌∷◌,
  any, find?, nat_eqb, ◌==◌, string_eq, if◌then◌else◌,
}
use nextral.Reminders.Records.{StoreReceipt, ReminderDeliveryAttempt, ReminderRecord}
use nextral.Reminders.Delivery.{put_attempt, time_or, record_delivery_attempt}

abbrev pub find_attempt : ℕ → List ReminderDeliveryAttempt → Option ReminderDeliveryAttempt
find_attempt n attempts = find? (λ a. nat_eqb a.attempt n) attempts

-- No two attempts have the same number.
abbrev pub distinct : List ReminderDeliveryAttempt → Bool
distinct [] = true
distinct (a ∷ rest) = not (any (λ b. nat_eqb b.attempt a.attempt) rest) && distinct rest

any-put :
    (n : ℕ) (attempts : List ReminderDeliveryAttempt) (new : ReminderDeliveryAttempt)
    → any (λ b. nat_eqb b.attempt n) (put_attempt attempts new)
      ≡ (any (λ b. nat_eqb b.attempt n) attempts || nat_eqb new.attempt n)
unfolding put_attempt
any-put n [] new = ground arith
any-put n (a ∷ rest) new = ground (arith, any-put n rest new)

distinct-put :
    (attempts : List ReminderDeliveryAttempt) (new : ReminderDeliveryAttempt)
    → distinct attempts ≡ true
    → distinct (put_attempt attempts new) ≡ true
unfolding put_attempt
distinct-put [] new d = ground arith
distinct-put (a ∷ rest) new d = ground (arith, distinct-put rest new, any-put a.attempt rest new)

find-put :
    (n : ℕ) (attempts : List ReminderDeliveryAttempt) (new : ReminderDeliveryAttempt)
    → find_attempt n (put_attempt attempts new)
      ≡ (if nat_eqb new.attempt n then some new else find_attempt n attempts)
unfolding put_attempt
find-put n [] new = ground arith
find-put n (a ∷ rest) new = ground (arith, find-put n rest new)

abbrev pub outcome_of : Option ReminderDeliveryAttempt → Option (String × StoreReceipt)
outcome_of none = none
outcome_of (some a) = some (a.outcome_code, a.receipt)

-- Recording an attempt keeps the numbers of the attempts distinct; the attempt of the current number
-- is then the new one with its code and receipt, an attempt of another number is as before, and the
-- last error is cleared by the code "delivered" and is the code otherwise.
pub record_delivery_attempt_lem :
    (r : ReminderRecord) (receipt : StoreReceipt) (why : String) (http : Option ℕ) (now : String)
    (n : ℕ)
    → distinct r.delivery_attempts ≡ true
    → let after = record_delivery_attempt r receipt why http now in
      (distinct after.delivery_attempts ≡ true)
      × (outcome_of (find_attempt r.attempt_count after.delivery_attempts) ≡ some (why, receipt))
      × ((n ≡ r.attempt_count)
          ⊎ (find_attempt n after.delivery_attempts ≡ find_attempt n r.delivery_attempts))
      × (after.last_error ≡ (if why == "delivered" then none else some why))
unfolding record_delivery_attempt
record_delivery_attempt_lem r receipt why http now n d =
    let new : ReminderDeliveryAttempt = record {
      attempt = r.attempt_count;
      attempted_at = time_or r.last_attempt_at now;
      outcome_code = why;
      http_status = http;
      receipt = receipt;
    } in
    (
      distinct-put r.delivery_attempts new d,
      ground (arith, find-put r.attempt_count r.delivery_attempts new),
      ground (arith, find-put n r.delivery_attempts new),
      refl,
    )
