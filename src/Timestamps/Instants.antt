-- ===== src/Timestamps/Instants.antt =====
-- Texts that the runtime writes for an instant are read back as that instant.
use nextral.Base.{ℕ, ◌+◌, ◌*◌, ◌/◌, ◌%◌, ◌^◌, ◌<◌, ◌≡◌, arith, String, none, some, pos}
use nextral.Contracts.{ok, ◌>>=◌}
use nextral.Timestamps.{
  Chrono, nanos_per_second, timestamp_nanos, timestamp_epoch, format_timestamp_nanos,
  canonical_timestamp, timestamp_add_seconds, now_timestamp,
}
use nextral.Timestamps.Decimal.{parse_u64, parse_u64-to_string}

-- The first second of the year 10000. From there on chrono writes a sign before the year, which its
-- parser refuses.
abbrev pub year_10000 : ℕ
year_10000 = 253_402_300_800

-- What the runtime relies on of chrono: the text that it writes for an instant is no number (it has
-- dashes and colons), and is read back as the instant if the year has four digits.
pub record Reads (chrono : Chrono) : Type 0 where
  pub no_number :
      (seconds nanos : ℕ) (text : String)
      → chrono.format_rfc3339 seconds nanos ≡ some text
      → parse_u64 text ≡ none
  pub reads_back :
      (seconds nanos : ℕ) (text : String)
      → seconds < year_10000
      → chrono.format_rfc3339 seconds nanos ≡ some text
      → chrono.parse_from_rfc3339 text
        ≡ some (record { timestamp = pos seconds; timestamp_subsec_nanos = nanos })

module _ (chrono : Chrono) (laws : Reads chrono) where
  fraction_read :
      (nanos : ℕ) (text : String)
      → nanos < year_10000 * nanos_per_second
      → chrono.format_rfc3339 (nanos / nanos_per_second) (nanos % nanos_per_second) ≡ some text
      → timestamp_nanos chrono text ≡ ok nanos
  unfolding timestamp_nanos
  fraction_read nanos text early e = ground (
    arith,
    laws.no_number (nanos / nanos_per_second) (nanos % nanos_per_second) text e,
    laws.reads_back (nanos / nanos_per_second) (nanos % nanos_per_second) text (omega arith) e,
  )

  timestamp_nanos-format :
      (nanos : ℕ) (text : String)
      → nanos < year_10000 * nanos_per_second
      → format_timestamp_nanos chrono nanos ≡ ok text
      → timestamp_nanos chrono text ≡ ok nanos
  unfolding format_timestamp_nanos timestamp_nanos
  timestamp_nanos-format nanos text early h =
      ground (arith, parse_u64-to_string (nanos / nanos_per_second), fraction_read nanos text early)

  -- A timestamp that was moved by some seconds, to an instant before the year 10000, is read as the old
  -- instant plus those seconds.
  pub timestamp_nanos-add_seconds :
      (value text : String) (start seconds : ℕ)
      → timestamp_nanos chrono value ≡ ok start
      → start + seconds * nanos_per_second < year_10000 * nanos_per_second
      → timestamp_add_seconds chrono value seconds ≡ ok text
      → timestamp_nanos chrono text ≡ ok (start + seconds * nanos_per_second)
  unfolding timestamp_add_seconds
  timestamp_nanos-add_seconds value text start seconds e early h =
      timestamp_nanos-format (start + seconds * nanos_per_second) text early (ground arith)

  -- A canonical timestamp of an instant before the year 10000 is read as the instant of the text that it
  -- was made from, and is its own canonical form.
  pub canonical_timestamp_stable :
      (value text : String) (nanos : ℕ)
      → timestamp_nanos chrono value ≡ ok nanos
      → nanos < year_10000 * nanos_per_second
      → canonical_timestamp chrono value ≡ ok text
      → (timestamp_nanos chrono text ≡ ok nanos) × (canonical_timestamp chrono text ≡ ok text)
  unfolding canonical_timestamp
  canonical_timestamp_stable value text nanos e early h =
      let formatted : format_timestamp_nanos chrono nanos ≡ ok text = rw e at h in
      let back = timestamp_nanos-format nanos text early formatted in
      (back, rw (back, ◌>>=◌) formatted)

-- The present second, printed and read, is the epoch that was printed.
pub timestamp_epoch-now :
    (chrono : Chrono) (clock : ℕ)
    → clock < 2 ^ 64
    → timestamp_epoch chrono (now_timestamp clock) ≡ ok clock
unfolding timestamp_epoch now_timestamp timestamp_nanos
timestamp_epoch-now chrono clock h = ground (arith, parse_u64-to_string clock)
