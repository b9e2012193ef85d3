-- ===== src/Examples/Leases.antt =====
-- Leases at concrete inputs: a worker whose claim was superseded, and one that holds a lease.
use nextral.Base.{
  ◌⊎◌, ℕ, ◌+◌, ◌≤◌, ◌≡◌, refl, ◌≢◌, arith, String, str_iff, pair_eq, string_eq, true, false, none,
  some, is_some, List, [], ◌∷◌, length, get,
}
use nextral.Contracts.{ok, err, lease_lost, conflict}
use nextral.Json.{Value, null}
use nextral.Lifecycle.Records.{
  runtime_state, lifecycle_job, LeaseClaim, FenceEntry, LeaseEntry, LifecycleTables, applied,
  superseded,
}
use nextral.Lifecycle.Leases.{
  state_key, holds_lease, lifecycle_claim_fenced, lifecycle_renew_fenced, lifecycle_release_fenced,
  lifecycle_save_guarded, lifecycle_save_claimed,
}
use nextral.Lifecycle.Fencing.{
  Call, claims, releases, writes, saves, plain_claims, plain_releases, run, fence_of, fence_run,
  stale_claim_refused,
}
use nextral.Lifecycle.Exclusion.{is_closed, lease_exclusive}
use nextral.Lifecycle.PlainLeases.{plain_lease_overtaken, fenced_release_drops_lease}

abbrev tenant : String
tenant = "acme"

abbrev user : String
user = "alice"

abbrev key : String
key = "user/alice"

abbrev worker : String
worker = "worker-1"

abbrev rival : String
rival = "worker-2"

-- The rival's second claim is in force, until 130.
abbrev rival_entry : FenceEntry
rival_entry = record { owner = rival; expiry = 130; fence = 2 }

abbrev held : LifecycleTables
held = record {
  lifecycle_state = [];
  lifecycle_leases = ((tenant, key), record { owner = rival; until = 130 }) ∷ [];
  lifecycle_fences = ((tenant, key), rival_entry) ∷ [];
  lifecycle_jobs = [];
}

abbrev claim_at : String → ℕ → LeaseClaim
claim_at owner fence = record {
  tenant_id = tenant;
  user_id = some user;
  resource = runtime_state;
  key = key;
  owner = owner;
  fence = fence;
}

-- The old holder comes back with its claim of fence 1.
abbrev late_calls : List Call
late_calls =
    writes 110 (claim_at worker 1) "k" null
    ∷ releases (claim_at worker 1)
    ∷ claims 110 tenant (some user) runtime_state key worker 30
    ∷ []

state_resource : runtime_state ≢ lifecycle_job
state_resource = ground arith

other_worker : worker ≢ rival
other_worker = ground (arith, str_iff worker rival)

fence_run_example :
    (fence_of held (tenant, key) ≤ fence_of (run held late_calls) (tenant, key))
    × (fence_of (run held late_calls) (tenant, key)
        ≤ fence_of held (tenant, key) + length late_calls)
unfolding get
fence_run_example = fence_run late_calls held (tenant, key) (omega arith)

stale_claim_refused_example :
    (lifecycle_save_guarded (run held late_calls) 110 (claim_at worker 1) "k" null
      ≡ (run held late_calls, err (lease_lost "lease expired or superseded")))
    × (lifecycle_renew_fenced (run held late_calls) 110 (claim_at worker 1) 30
        ≡ (run held late_calls, false))
unfolding get
stale_claim_refused_example =
    stale_claim_refused late_calls held 110 (claim_at worker 1) "k" null 30 state_resource
      (omega arith) (omega arith)

entry_held : get held.lifecycle_fences (state_key (claim_at rival 2)) ≡ some rival_entry
unfolding get
entry_held = refl

lease_held : holds_lease rival 120 (get held.lifecycle_leases (tenant, key)) ≡ true
unfolding get
lease_held = refl

lease_exclusive_example :
    let t = run held late_calls in
    let (u, outcome) = lifecycle_save_guarded t 120 (claim_at rival 2) "k" null in
    let stored = get t.lifecycle_state (tenant, "k") in
    ((is_closed stored ≡ false)
        × (outcome ≡ ok applied)
        × (get u.lifecycle_state (tenant, "k") ≡ some null)
      ⊎ (existing : Value) × (stored ≡ some existing)
        × (is_closed stored ≡ true)
        × (outcome ≡ ok (superseded existing))
        × (u ≡ t))
    × (lifecycle_claim_fenced t 120 tenant (some user) runtime_state key worker 30 ≡ (t, none))
lease_exclusive_example =
    lease_exclusive late_calls held rival_entry 120 (claim_at rival 2) "k" null worker 30 entry_held
      refl other_worker refl

abbrev plain_entry : LeaseEntry
plain_entry = record { owner = rival; until = 130 }

abbrev plainly_held : LifecycleTables
plainly_held = record held { lifecycle_fences = [] }

no_fence : get plainly_held.lifecycle_fences (tenant, key) ≡ none
unfolding get
no_fence = refl

-- A rival of the plain lease comes by, and a fenced claim of another key.
abbrev outside_calls : List Call
outside_calls =
    plain_claims tenant key worker 110 30
    ∷ plain_releases tenant key worker
    ∷ claims 110 tenant (some user) runtime_state "user/bob" worker 30
    ∷ saves tenant key null
    ∷ []

plain_lease_overtaken_example :
    let (t, granted) =
      lifecycle_claim_fenced plainly_held 120 tenant (some user) runtime_state key worker 30 in
    (is_some granted ≡ true)
    × (lifecycle_save_claimed t 120 tenant key rival null
        ≡ (t, err (conflict "scheduled job claim was lost")))
plain_lease_overtaken_example =
    plain_lease_overtaken plainly_held tenant key rival worker 120 (some user) runtime_state 30 null
      lease_held other_worker no_fence

fenced_release_drops_lease_example :
    get (lifecycle_release_fenced held (claim_at worker 1)).lifecycle_leases (tenant, key) ≡ none
fenced_release_drops_lease_example =
    fenced_release_drops_lease held (claim_at worker 1) state_resource
