-- ===== src/Lifecycle/PlainHistories.antt =====
-- runtime/storage.rs, lifecycle_claim, lifecycle_release and lifecycle_save_claimed: a plain lease over
-- whole histories of calls.
use nextral.Base.{String, Bool, true, not, ◌&&◌, ◌||◌, ltb, ◌==◌, string_eq, pair_eq, get}
use nextral.Json.{Value, str_at, optional_eqb}
use nextral.Json
use nextral.Lifecycle.Records.{LeaseEntry}
use nextral.Lifecycle.Leases.{state_key, is_terminal}
use nextral.Lifecycle.Fencing.{Call, claims, renews, releases, plain_claims, plain_releases}

-- A call that does not come from the holder of the plain lease: a plain claim of its key before the
-- expiry and a plain release of it name another owner, and the fenced calls that change the leases
-- are about other keys.
abbrev pub is_outside : LeaseEntry → String × String → Call → Bool
is_outside e k (claims now tenant user resource key owner lease) = not ((tenant, key) == k)
is_outside e k (renews now claim lease) = not (state_key claim == k)
is_outside e k (releases claim) = not (state_key claim == k)
is_outside e k (plain_claims tenant key owner now lease) =
    not ((tenant, key) == k) || ltb now e.until && not (e.owner == owner)
is_outside e k (plain_releases tenant key owner) =
    not ((tenant, key) == k) || not (e.owner == owner)
is_outside e k _ = true

-- The stored document takes no save: its status is final, or its request is another one.
abbrev pub keeps_stored : Value → Value → Bool
keeps_stored current value =
    is_terminal (str_at current "status")
    || not (optional_eqb (Json.get current "request") (Json.get value "request"))
