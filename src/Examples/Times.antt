-- ===== src/Examples/Times.antt =====
-- Timestamps at concrete inputs, with a calendar of the instants before the year 10000.
use mathlib.Core.Path.{subst}
use nextral.Base.{
  ℕ, zero, suc, ◌+◌, ◌-◌, ◌*◌, ◌/◌, ◌%◌, ◌^◌, ◌<◌, code, ltb, ◌≡◌, refl, arith, ap, ◌∙◌, Bool-cases,
  inl, inr, String, Option, none, some, pos, ◌&&◌, nat_eqb, string_eq, if◌then◌else◌,
}
use nextral.Contracts.{ok}
use nextral.Timestamps.{
  Chrono, DateTime, nanos_per_second, timestamp_nanos, format_timestamp_nanos, canonical_timestamp,
  timestamp_add_seconds,
}
use nextral.Timestamps.Decimal.{
  to_string, parse_u64, parse_u64-to_string, digit_char, digit_code, short_tenth,
}
use nextral.Timestamps.Instants.{
  Reads, year_10000, timestamp_nanos-add_seconds, canonical_timestamp_stable,
}

-- The instants before the year 10000, written as "T" and the digits of the nanoseconds, the last digit
-- first.
unfoldable digits : ℕ → ℕ → String
digits zero n = ""
digits (suc fuel) n = String.◌∷◌ (digit_char (n % 10)) (digits fuel (n / 10))

unfoldable number : String → ℕ
number String.[] = 0
number (String.◌∷◌ c s) = code c - b'0' + 10 * number s

number-digits : (fuel n : ℕ) → n < 10 ^ fuel → number (digits fuel n) ≡ n
unfolding digits number
number-digits zero n h = omega arith
number-digits (suc fuel) n h =
    omega
      (arith, digit_code (n % 10) (omega arith), number-digits fuel (n / 10) (short_tenth fuel n h))

abbrev instant : ℕ → DateTime
instant n = record {
  timestamp = pos (n / nanos_per_second);
  timestamp_subsec_nanos = n % nanos_per_second;
}

abbrev parse_text : String → Option DateTime
parse_text String.[] = none
parse_text (String.◌∷◌ c s) = if nat_eqb (code c) b'T' then some (instant (number s)) else none

abbrev format_text : ℕ → ℕ → Option String
format_text seconds nanos =
    if ltb seconds year_10000 && ltb nanos nanos_per_second
    then some (String.◌∷◌ "T" (digits 21 (seconds * nanos_per_second + nanos)))
    else none

abbrev calendar : Chrono
calendar = record { parse_from_rfc3339 = parse_text; format_rfc3339 = format_text }

some_value : {a b : String} → some a ≡ some b → a ≡ b
some_value h = cc

marked_is_no-number : (s : String) → parse_u64 (String.◌∷◌ "T" s) ≡ none
unfolding parse_u64
marked_is_no-number s = refl

parse-marked :
    (seconds nanos : ℕ)
    → seconds < year_10000
    → nanos < nanos_per_second
    → parse_text (String.◌∷◌ "T" (digits 21 (seconds * nanos_per_second + nanos)))
      ≡ some (record { timestamp = pos seconds; timestamp_subsec_nanos = nanos })
parse-marked seconds nanos early short =
    let n = number-digits 21 (seconds * nanos_per_second + nanos) (omega arith) in
    let whole : (seconds * nanos_per_second + nanos) / nanos_per_second ≡ seconds = omega arith in
    let rest : (seconds * nanos_per_second + nanos) % nanos_per_second ≡ nanos = omega arith in
    ap (λ m. some (instant m)) n
    ∙ ap
        (λ (both : ℕ × ℕ).
          some (record { timestamp = pos both.0; timestamp_subsec_nanos = both.1 }))
        (λ i. (whole i, rest i))

calendar-no_number :
    (seconds nanos : ℕ) (text : String)
    → format_text seconds nanos ≡ some text
    → parse_u64 text ≡ none
calendar-no_number seconds nanos text e =
    elim (Bool-cases (ltb seconds year_10000 && ltb nanos nanos_per_second)) [
      | inl within ↦
          subst (λ t. parse_u64 t ≡ none) (some_value (rw within at e))
            (marked_is_no-number (digits 21 (seconds * nanos_per_second + nanos)))
      | inr beyond ↦ absurd (ground (arith, beyond, e))
    ]

calendar-reads_back :
    (seconds nanos : ℕ) (text : String)
    → seconds < year_10000
    → format_text seconds nanos ≡ some text
    → parse_text text ≡ some (record { timestamp = pos seconds; timestamp_subsec_nanos = nanos })
calendar-reads_back seconds nanos text early e =
    elim (Bool-cases (ltb seconds year_10000 && ltb nanos nanos_per_second)) [
      | inl within ↦
          subst
            (λ t.
              parse_text t
              ≡ some (record { timestamp = pos seconds; timestamp_subsec_nanos = nanos }))
            (some_value (rw within at e))
            (parse-marked seconds nanos early (ground (arith, within)))
      | inr beyond ↦ absurd (ground (arith, beyond, e))
    ]

calendar-Reads : Reads calendar
calendar-Reads = record { no_number = calendar-no_number; reads_back = calendar-reads_back }

abbrev new_year : String
new_year = String.◌∷◌ "T" (digits 21 1_767_225_600_900_000_000)

parse_u64-to_string_example : parse_u64 (to_string 1_767_225_600) ≡ some 1_767_225_600
parse_u64-to_string_example = parse_u64-to_string 1_767_225_600 (omega arith)

minute_before : timestamp_nanos calendar "1767225540" ≡ ok 1_767_225_540_000_000_000
unfolding timestamp_nanos parse_u64
minute_before = refl

minute_added : timestamp_add_seconds calendar "1767225540" 60 ≡ ok "1767225600"
unfolding timestamp_add_seconds timestamp_nanos format_timestamp_nanos parse_u64 to_string
minute_added = refl

timestamp_nanos-add_seconds_example :
    timestamp_nanos calendar "1767225600" ≡ ok (1_767_225_540_000_000_000 + 60 * nanos_per_second)
timestamp_nanos-add_seconds_example =
    timestamp_nanos-add_seconds calendar calendar-Reads "1767225540" "1767225600"
      1_767_225_540_000_000_000 60 minute_before (omega arith) minute_added

new_year_read : timestamp_nanos calendar new_year ≡ ok 1_767_225_600_900_000_000
unfolding timestamp_nanos parse_u64 number digits
new_year_read = refl

new_year_canonical : canonical_timestamp calendar new_year ≡ ok new_year
unfolding canonical_timestamp timestamp_nanos format_timestamp_nanos parse_u64 number digits
new_year_canonical = refl

canonical_timestamp_stable_example :
    (timestamp_nanos calendar new_year ≡ ok 1_767_225_600_900_000_000)
    × (canonical_timestamp calendar new_year ≡ ok new_year)
canonical_timestamp_stable_example =
    canonical_timestamp_stable calendar calendar-Reads new_year new_year 1_767_225_600_900_000_000
      new_year_read (omega arith) new_year_canonical
