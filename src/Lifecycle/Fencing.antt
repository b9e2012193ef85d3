-- ===== src/Lifecycle/Fencing.antt =====
-- Leases over whole histories of calls: fences grow, stale claims are refused, and a lease in force is
-- not disturbed by other workers.
use nextral.Base.{
  ℕ, ◌+◌, ◌^◌, ◌≤◌, ◌<◌, ◌≡◌, ◌≢◌, arith, String, key_iff, Bool, true, false, not, ◌&&◌, Option,
  none, some, List, [], ◌∷◌, length, ltb, nat_eqb, ◌==◌, string_eq, pair_eq, get, get-insert,
  if◌then◌else◌,
}
use nextral.Contracts.{err, lease_lost}
use nextral.Json.{Value}
use nextral.Lifecycle.Records.{
  LeaseResource, lifecycle_job, LeaseClaim, FenceEntry, LifecycleTables,
}
use nextral.Lifecycle.Leases.{
  fence_or_default, state_key, u64_add, lifecycle_claim_fenced, lifecycle_renew_fenced,
  lifecycle_release_fenced, lifecycle_save_guarded, lifecycle_save, lifecycle_claim,
  lifecycle_release, holds_fence,
}

-- A call of the store by some worker, with the clock that it read.
pub data Call : Type 0 where
  claims : ℕ → String → Option String → LeaseResource → String → String → ℕ → Call
  renews : ℕ → LeaseClaim → ℕ → Call
  releases : LeaseClaim → Call
  writes : ℕ → LeaseClaim → String → Value → Call
  saves : String → String → Value → Call
  plain_claims : String → String → String → ℕ → ℕ → Call
  plain_releases : String → String → String → Call

unfoldable pub step : LifecycleTables → Call → LifecycleTables
step s (claims now tenant user resource key owner lease) =
    (lifecycle_claim_fenced s now tenant user resource key owner lease).0
step s (renews now claim lease) = (lifecycle_renew_fenced s now claim lease).0
step s (releases claim) = lifecycle_release_fenced s claim
step s (writes now claim key value) = (lifecycle_save_guarded s now claim key value).0
step s (saves tenant key value) = lifecycle_save s tenant key value
step s (plain_claims tenant key owner now lease) = (lifecycle_claim s tenant key owner now lease).0
step s (plain_releases tenant key owner) = lifecycle_release s tenant key owner

unfoldable pub run : LifecycleTables → List Call → LifecycleTables
unfolding step
run s [] = s
run s (c ∷ cs) = run (step s c) cs

abbrev pub fence_of : LifecycleTables → String × String → ℕ
fence_of s key = (fence_or_default (get s.lifecycle_fences key)).fence

-- Every resource but a job is leased through the table of fences.
abbrev pub for_state : LeaseResource → Bool
for_state lifecycle_job = false
for_state _ = true

abbrev pub holds_some : LeaseClaim → ℕ → Option FenceEntry → Bool
holds_some claim now none = false
holds_some claim now (some entry) = holds_fence claim now entry

abbrev pub names_some : LeaseClaim → Option FenceEntry → Bool
names_some claim none = false
names_some claim (some entry) = entry.owner == claim.owner && nat_eqb entry.fence claim.fence

-- What each call does to the fence entry of a key.
module _ (s : LifecycleTables) (k : String × String) where
  pub fences-claim :
      (now : ℕ) (tenant : String) (user : Option String) (resource : LeaseResource)
      (key owner : String) (lease : ℕ)
      → get (lifecycle_claim_fenced s now tenant user resource key owner lease).0.lifecycle_fences k
        ≡ (let current = fence_or_default (get s.lifecycle_fences (tenant, key)) in
            if not (ltb now current.expiry && not (current.owner == owner)) && ((tenant, key) == k)
            then some (record {
              owner = owner;
              expiry = u64_add now lease;
              fence = u64_add current.fence 1;
            })
            else get s.lifecycle_fences k)
  unfolding lifecycle_claim_fenced
  fences-claim now tenant user resource key owner lease = ground (
    arith,
    get-insert s.lifecycle_fences (tenant, key) k
        (record {
          owner = owner;
          expiry = u64_add now lease;
          fence = u64_add (fence_or_default (get s.lifecycle_fences (tenant, key))).fence 1;
        }),
  )

  pub fences-renew :
      (now : ℕ) (claim : LeaseClaim) (lease : ℕ)
      → get (lifecycle_renew_fenced s now claim lease).0.lifecycle_fences k ≡ (
          if for_state claim.resource
            && holds_some claim now (get s.lifecycle_fences (state_key claim))
            && (state_key claim == k)
          then some
              (record { owner = claim.owner; expiry = u64_add now lease; fence = claim.fence })
          else get s.lifecycle_fences k)
  unfolding lifecycle_renew_fenced
  fences-renew now claim lease = ground (
    arith,
    get-insert s.lifecycle_fences (state_key claim) k
        (record { owner = claim.owner; expiry = u64_add now lease; fence = claim.fence }),
  )

  pub fences-release :
      (claim : LeaseClaim)
      → get (lifecycle_release_fenced s claim).lifecycle_fences k ≡ (
          if for_state claim.resource
            && names_some claim (get s.lifecycle_fences (state_key claim))
            && (state_key claim == k)
          then some (record { owner = ""; expiry = 0; fence = claim.fence })
          else get s.lifecycle_fences k)
  unfolding lifecycle_release_fenced
  fences-release claim = ground (
    arith,
    get-insert s.lifecycle_fences (state_key claim) k
        (record { owner = ""; expiry = 0; fence = claim.fence }),
  )

  pub fences-save_guarded :
      (now : ℕ) (claim : LeaseClaim) (key : String) (value : Value)
      → (lifecycle_save_guarded s now claim key value).0.lifecycle_fences ≡ s.lifecycle_fences
  unfolding lifecycle_save_guarded
  fences-save_guarded now claim key value = ground arith

abbrev IsNext : Option FenceEntry → Option FenceEntry → Type 0
IsNext before after =
    ((fence_or_default before).fence ≤ (fence_or_default after).fence)
    × ((fence_or_default after).fence ≤ (fence_or_default before).fence + 1)

module _ (s : LifecycleTables) (k : String × String) (room : fence_of s k + 1 < 2 ^ 64) where
  fence_step : (c : Call) → IsNext (get s.lifecycle_fences k) (get (step s c).lifecycle_fences k)
  unfolding step
  fence_step (claims now tenant user resource key owner lease) =
      ground
        (arith, fences-claim s k now tenant user resource key owner lease, key_iff (tenant, key) k)
  fence_step (renews now claim lease) =
      ground (arith, fences-renew s k now claim lease, key_iff (state_key claim) k)
  fence_step (releases claim) =
      ground (arith, fences-release s k claim, key_iff (state_key claim) k)
  fence_step (writes now claim key value) =
      ground (arith, fences-save_guarded s k now claim key value)
  fence_step (saves tenant key value) = unfold lifecycle_save in ground arith
  fence_step (plain_claims tenant key owner now lease) = unfold lifecycle_claim in ground arith
  fence_step (plain_releases tenant key owner) = unfold lifecycle_release in ground arith

-- Over any history of calls the fence of a key never falls, and grows by one a call at most, as long as
-- it cannot reach the end of u64.
pub fence_run :
    (cs : List Call) (s : LifecycleTables) (k : String × String)
    → fence_of s k + length cs < 2 ^ 64
    → (fence_of s k ≤ fence_of (run s cs) k) × (fence_of (run s cs) k ≤ fence_of s k + length cs)
unfolding run
fence_run [] s k room = omega arith
fence_run (c ∷ cs) s k room =
    let (grows, slowly) = fence_step s k (omega arith) c in
    omega (arith, fence_run cs (step s c) k (omega arith))

stale_write :
    (t : LifecycleTables) (now : ℕ) (claim : LeaseClaim) (key : String) (value : Value)
    → claim.fence < fence_of t (state_key claim)
    → lifecycle_save_guarded t now claim key value
      ≡ (t, err (lease_lost "lease expired or superseded"))
unfolding lifecycle_save_guarded
stale_write t now claim key value old = ground arith

stale_renewal :
    (t : LifecycleTables) (now : ℕ) (claim : LeaseClaim) (lease : ℕ)
    → claim.resource ≢ lifecycle_job
    → claim.fence < fence_of t (state_key claim)
    → lifecycle_renew_fenced t now claim lease ≡ (t, false)
unfolding lifecycle_renew_fenced
stale_renewal t now claim lease r old = ground arith

-- A claim on runtime state or the outbox whose fence was passed by a newer claim is refused ever
-- after: whatever calls follow (fewer than u64 has room for) and whatever the clock says, its guarded
-- write fails as a lost lease and changes nothing, and its renewal fails and changes nothing.
pub stale_claim_refused :
    (cs : List Call) (s : LifecycleTables) (now : ℕ) (claim : LeaseClaim) (key : String)
    (value : Value) (lease : ℕ)
    → claim.resource ≢ lifecycle_job
    → claim.fence < fence_of s (state_key claim)
    → fence_of s (state_key claim) + length cs < 2 ^ 64
    → (lifecycle_save_guarded (run s cs) now claim key value
        ≡ (run s cs, err (lease_lost "lease expired or superseded")))
      × (lifecycle_renew_fenced (run s cs) now claim lease ≡ (run s cs, false))
stale_claim_refused cs s now claim key value lease r old room =
    let later : claim.fence < fence_of (run s cs) (state_key claim) =
      omega (arith, fence_run cs s (state_key claim) room) in
    (
      stale_write (run s cs) now claim key value later,
      stale_renewal (run s cs) now claim lease r later,
    )
