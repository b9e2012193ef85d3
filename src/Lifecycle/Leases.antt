-- ===== src/Lifecycle/Leases.antt =====
-- runtime/storage.rs, `impl LifecycleStore for TestMemoryStore`: leases and guarded writes. The
-- clock, in seconds, is the argument `now`: `timestamp_epoch(&now_timestamp())` gives it back
-- (Timestamps.Instants). Operations that cannot fail return their value alone.
use nextral.Base.{
  ℕ, ◌+◌, ◌-◌, ◌%◌, ◌^◌, min, String, Bool, true, false, not, ◌&&◌, ◌||◌, Option, none, some, ltb,
  leb, nat_eqb, nat_eq, ◌==◌, string_eq, pair_eq, triple_eq, get, insert, remove, if◌then◌else◌,
}
use nextral.Contracts.{CoreResult, ok, err, lease_lost, conflict, not_found}
use nextral.Json.{Value, str_at, optional_eqb}
use nextral.Json
use nextral.Lifecycle.Records.{
  LeaseResource, lifecycle_job, LeaseClaim, GuardedWriteResult, applied, superseded, FenceEntry,
  LeaseEntry, JobEntry, JobKey, LifecycleTables,
}

-- u64 addition, which wraps, and `saturating_add`.
abbrev pub u64_add : ℕ → ℕ → ℕ
u64_add a b = (a + b) % 2 ^ 64

abbrev pub u64_saturating_add : ℕ → ℕ → ℕ
u64_saturating_add a b = min (a + b) (2 ^ 64 - 1)

abbrev no_fence : FenceEntry
no_fence = record { owner = ""; expiry = 0; fence = 0 }

abbrev pub fence_or_default : Option FenceEntry → FenceEntry
fence_or_default none = no_fence
fence_or_default (some entry) = entry

unfoldable pub lifecycle_claim_fenced :
    LifecycleTables
    → ℕ
    → String
    → Option String
    → LeaseResource
    → String
    → String
    → ℕ
    → LifecycleTables × Option LeaseClaim
lifecycle_claim_fenced s now tenant user_id resource key owner lease_seconds =
    let current = fence_or_default (get s.lifecycle_fences (tenant, key)) in
    let fence = u64_add current.fence 1 in
    let until = u64_add now lease_seconds in
    if ltb now current.expiry && not (current.owner == owner) then (s, none) else (
      record s {
        lifecycle_fences =
            insert s.lifecycle_fences (tenant, key)
              (record { owner = owner; expiry = until; fence = fence });
        lifecycle_leases =
            insert s.lifecycle_leases (tenant, key) (record { owner = owner; until = until });
      },
      some (record {
        tenant_id = tenant;
        user_id = user_id;
        resource = resource;
        key = key;
        owner = owner;
        fence = fence;
      }),
    )

abbrev pub or_empty : Option String → String
or_empty none = ""
or_empty (some user) = user

abbrev pub job_key : LeaseClaim → JobKey
job_key claim = (claim.tenant_id, or_empty claim.user_id, claim.key)

abbrev pub state_key : LeaseClaim → String × String
state_key claim = (claim.tenant_id, claim.key)

-- `locked_by.as_deref() == Some(&claim.owner)`
abbrev pub is_owner : Option String → String → Bool
is_owner none owner = false
is_owner (some current) owner = current == owner

-- `locked_until.map_or(true, |until| until <= now)`
abbrev pub lock_expired : Option ℕ → ℕ → Bool
lock_expired none now = true
lock_expired (some until) now = leb until now

-- The claim names the owner and the fence of the entry, and the entry has not expired.
abbrev pub holds_fence : LeaseClaim → ℕ → FenceEntry → Bool
holds_fence claim now entry =
    entry.owner == claim.owner && nat_eqb entry.fence claim.fence && ltb now entry.expiry

abbrev pub holds_job : LeaseClaim → ℕ → JobEntry → Bool
holds_job claim now entry =
    is_owner entry.locked_by claim.owner
    && nat_eqb entry.fence claim.fence
    && not (lock_expired entry.locked_until now)

renew_job : LifecycleTables → ℕ → LeaseClaim → ℕ → LifecycleTables × Bool
renew_job s now claim lease_seconds =
    let key = job_key claim in
    elim (get s.lifecycle_jobs key) [
      | none ↦ (s, false)
      | some entry ↦ if not (holds_job claim now entry) then (s, false) else (
        record s {
          lifecycle_jobs =
              insert s.lifecycle_jobs key
                (record entry { locked_until = some (u64_add now lease_seconds) });
        },
        true,
      )
    ]

renew_state : LifecycleTables → ℕ → LeaseClaim → ℕ → LifecycleTables × Bool
renew_state s now claim lease_seconds =
    let key = state_key claim in
    let until = u64_add now lease_seconds in
    elim (get s.lifecycle_fences key) [
      | none ↦ (s, false)
      | some entry ↦ if not (holds_fence claim now entry) then (s, false) else (
        record s {
          lifecycle_fences =
              insert s.lifecycle_fences key
                (record { owner = claim.owner; expiry = until; fence = claim.fence });
          lifecycle_leases =
              insert s.lifecycle_leases key (record { owner = claim.owner; until = until });
        },
        true,
      )
    ]

renew_by : LeaseResource → LifecycleTables → ℕ → LeaseClaim → ℕ → LifecycleTables × Bool
unfolding renew_job renew_state
renew_by lifecycle_job s now claim lease_seconds = renew_job s now claim lease_seconds
renew_by _ s now claim lease_seconds = renew_state s now claim lease_seconds

unfoldable pub lifecycle_renew_fenced :
    LifecycleTables → ℕ → LeaseClaim → ℕ → LifecycleTables × Bool
unfolding renew_by
lifecycle_renew_fenced s now claim lease_seconds = renew_by claim.resource s now claim lease_seconds

release_job : LifecycleTables → LeaseClaim → LifecycleTables
release_job s claim =
    let key = job_key claim in
    elim (get s.lifecycle_jobs key) [
      | none ↦ s
      | some entry ↦
          if is_owner entry.locked_by claim.owner && nat_eqb entry.fence claim.fence
          then record s {
            lifecycle_jobs =
                insert s.lifecycle_jobs key
                  (record entry { locked_by = none; locked_until = none });
          }
          else s
    ]

-- The fence is cleared for its holder only; the plain lease goes in any case.
release_state : LifecycleTables → LeaseClaim → LifecycleTables
release_state s claim =
    let key = state_key claim in
    elim (get s.lifecycle_fences key) [
      | none ↦ record s { lifecycle_leases = remove s.lifecycle_leases key }
      | some entry ↦
          if entry.owner == claim.owner && nat_eqb entry.fence claim.fence
          then record s {
            lifecycle_fences =
                insert s.lifecycle_fences key (record entry { owner = ""; expiry = 0 });
            lifecycle_leases = remove s.lifecycle_leases key;
          }
          else record s { lifecycle_leases = remove s.lifecycle_leases key }
    ]

release_by : LeaseResource → LifecycleTables → LeaseClaim → LifecycleTables
unfolding release_job release_state
release_by lifecycle_job s claim = release_job s claim
release_by _ s claim = release_state s claim

unfoldable pub lifecycle_release_fenced : LifecycleTables → LeaseClaim → LifecycleTables
unfolding release_by
lifecycle_release_fenced s claim = release_by claim.resource s claim

-- `matches!(status, Some("cancelled" | "completed" | "terminal_failed"))`
abbrev pub is_terminal : Option String → Bool
is_terminal none = false
is_terminal (some status) =
    status == "cancelled" || status == "completed" || status == "terminal_failed"

guarded_write :
    LifecycleTables
    → String × String
    → Value
    → Option Value
    → LifecycleTables × CoreResult GuardedWriteResult
unfolding str_at
guarded_write s target value none =
    (record s { lifecycle_state = insert s.lifecycle_state target value }, ok applied)
guarded_write s target value (some existing) =
    if is_terminal (str_at existing "status")
    then (s, ok (superseded existing))
    else (record s { lifecycle_state = insert s.lifecycle_state target value }, ok applied)

unfoldable pub lifecycle_save_guarded :
    LifecycleTables
    → ℕ
    → LeaseClaim
    → String
    → Value
    → LifecycleTables × CoreResult GuardedWriteResult
unfolding guarded_write
lifecycle_save_guarded s now claim target_key value =
    elim (get s.lifecycle_fences (state_key claim)) [
      | none ↦ (s, err (lease_lost "lease missing"))
      | some entry ↦
          if not (holds_fence claim now entry)
          then (s, err (lease_lost "lease expired or superseded"))
          else guarded_write s (claim.tenant_id, target_key) value
              (get s.lifecycle_state (claim.tenant_id, target_key))
    ]

unfoldable pub lifecycle_load : LifecycleTables → String → String → Option Value
lifecycle_load s tenant key = get s.lifecycle_state (tenant, key)

unfoldable pub lifecycle_save : LifecycleTables → String → String → Value → LifecycleTables
lifecycle_save s tenant key value = record s {
  lifecycle_state = insert s.lifecycle_state (tenant, key) value;
}

-- The plain lease of the key is the owner's and has not expired.
abbrev pub holds_lease : String → ℕ → Option LeaseEntry → Bool
holds_lease owner now none = false
holds_lease owner now (some entry) = entry.owner == owner && ltb now entry.until

abbrev pub leased_to_other : String → ℕ → Option LeaseEntry → Bool
leased_to_other owner now none = false
leased_to_other owner now (some entry) = not (entry.owner == owner) && ltb now entry.until

unfoldable pub lifecycle_save_claimed :
    LifecycleTables
    → ℕ
    → String
    → String
    → String
    → Value
    → LifecycleTables × CoreResult (Option Value)
unfolding str_at Json.get optional_eqb
lifecycle_save_claimed s now tenant k owner value =
    if not (holds_lease owner now (get s.lifecycle_leases (tenant, k)))
    then (s, err (conflict "scheduled job claim was lost"))
    else elim (get s.lifecycle_state (tenant, k)) [
      | none ↦ (s, err (not_found "scheduled job state missing"))
      | some current ↦
          if is_terminal (str_at current "status")
            || not (optional_eqb (Json.get current "request") (Json.get value "request"))
          then (s, ok (some current))
          else (record s { lifecycle_state = insert s.lifecycle_state (tenant, k) value }, ok none)
    ]

unfoldable pub lifecycle_claim :
    LifecycleTables → String → String → String → ℕ → ℕ → LifecycleTables × Bool
lifecycle_claim s tenant k owner now lease =
    if leased_to_other owner now (get s.lifecycle_leases (tenant, k)) then (s, false) else (
      record s {
        lifecycle_leases =
            insert s.lifecycle_leases (tenant, k)
              (record { owner = owner; until = u64_saturating_add now lease });
      },
      true,
    )

abbrev owned_by : String → Option LeaseEntry → Bool
owned_by owner none = false
owned_by owner (some entry) = entry.owner == owner

unfoldable pub lifecycle_release : LifecycleTables → String → String → String → LifecycleTables
lifecycle_release s tenant k owner =
    if owned_by owner (get s.lifecycle_leases (tenant, k))
    then record s { lifecycle_leases = remove s.lifecycle_leases (tenant, k) }
    else s
