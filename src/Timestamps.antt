-- ===== src/Timestamps.antt =====
-- runtime/lifecycle.rs: timestamps are epoch seconds or RFC 3339 texts, compared in nanoseconds.
-- domain/memory.rs: the text of the present second.
pub mod Decimal
pub mod Instants
use nextral.Base.{
  ℕ, ◌+◌, ◌*◌, ◌/◌, ◌%◌, ◌^◌, String, Option, none, some, ltb, leb, nat_eqb, ℤ, pos, negsuc,
  if◌then◌else◌, ◌||◌,
}
use nextral.Contracts.{CoreResult, ok, err, invalid_input, ok_or, ◌>>=◌}
use Decimal.{to_string, parse_u64}

-- The library chrono: a parsed RFC 3339 text, and the text of an instant in UTC.
pub record DateTime : Type 0 where
  pub timestamp : ℤ
  pub timestamp_subsec_nanos : ℕ

pub record Chrono : Type 0 where
  -- `DateTime::parse_from_rfc3339`
  pub parse_from_rfc3339 : String → Option DateTime
  -- `DateTime::from_timestamp(seconds, nanos)`, then `to_rfc3339_opts(AutoSi, true)`
  pub format_rfc3339 : ℕ → ℕ → Option String

abbrev pub nanos_per_second : ℕ
nanos_per_second = 1_000_000_000

-- `u64::try_from(i64)`
abbrev epoch_seconds : ℤ → CoreResult ℕ
epoch_seconds (pos n) = ok n
epoch_seconds (negsuc n) = err (invalid_input "timestamp must not precede the Unix epoch")

module _ (chrono : Chrono) where
  rfc3339_nanos : String → CoreResult ℕ
  rfc3339_nanos value = do
    parsed ←
        ok_or (chrono.parse_from_rfc3339 value)
          (invalid_input "timestamp must be epoch seconds or RFC3339")
    seconds ← epoch_seconds parsed.timestamp
    ok (seconds * nanos_per_second + parsed.timestamp_subsec_nanos)

  unfoldable pub timestamp_nanos : String → CoreResult ℕ
  unfolding rfc3339_nanos
  timestamp_nanos value = elim (parse_u64 value) [
    | some epoch ↦ ok (epoch * nanos_per_second)
    | none ↦ rfc3339_nanos value
  ]

  -- `u64::try_from(nanos / 1_000_000_000)`
  unfoldable pub timestamp_epoch : String → CoreResult ℕ
  timestamp_epoch value = do
    nanos ← timestamp_nanos value
    if ltb (nanos / nanos_per_second) (2 ^ 64)
        then ok (nanos / nanos_per_second)
        else err (invalid_input "timestamp exceeds epoch range")

  format_fraction : ℕ → ℕ → CoreResult String
  format_fraction seconds fractional =
      if leb (2 ^ 63) seconds
      then err (invalid_input "timestamp exceeds RFC3339 range")
      else ok_or (chrono.format_rfc3339 seconds fractional)
          (invalid_input "timestamp exceeds RFC3339 range")

  unfoldable pub format_timestamp_nanos : ℕ → CoreResult String
  unfolding format_fraction
  format_timestamp_nanos nanos =
      let seconds = nanos / nanos_per_second in
      let fractional = nanos % nanos_per_second in
      if leb (2 ^ 64) seconds
      then err (invalid_input "timestamp exceeds epoch range")
      else if nat_eqb fractional 0
      then ok (to_string seconds)
      else format_fraction seconds fractional

  unfoldable pub canonical_timestamp : String → CoreResult String
  canonical_timestamp value = do nanos ← timestamp_nanos value; format_timestamp_nanos nanos

  -- The sum is checked in u128.
  unfoldable pub timestamp_add_seconds : String → ℕ → CoreResult String
  timestamp_add_seconds value seconds = do
    start ← timestamp_nanos value
    let nanos = start + seconds * nanos_per_second
    if leb (2 ^ 128) nanos
        then err (invalid_input "timestamp arithmetic overflow")
        else format_timestamp_nanos nanos

-- The clock read as whole seconds, printed.
unfoldable pub now_timestamp : ℕ → String
now_timestamp clock = to_string clock
