-- ===== src/Lifecycle/PlainLeases.antt =====
-- runtime/storage.rs: fenced claims of the test store beside its plain leases, which other callers of
-- `lifecycle_claim` hold under the same key.
use nextral.Base.{
  ℕ, ◌≡◌, ◌≢◌, arith, String, pair_eq, key_iff, str_iff, true, Option, none, string_eq, get,
  get-insert, get-remove, is_some,
}
use nextral.Contracts.{err, conflict}
use nextral.Json.{Value}
use nextral.Lifecycle.Records.{LeaseResource, lifecycle_job, LeaseClaim, LifecycleTables}
use nextral.Lifecycle.Leases.{
  state_key, holds_lease, u64_add, lifecycle_claim_fenced, lifecycle_release_fenced,
  lifecycle_save_claimed,
}

module _ (s : LifecycleTables) (tenant k owner other : String) (now : ℕ) where
  -- A fenced claim does not look at the plain leases: where the fence of the key is free, another
  -- owner's fenced claim is granted while the plain lease is in force, and the save of the plain
  -- lease's holder at the same instant is then refused as a conflict.
  pub plain_lease_overtaken :
      (user : Option String) (resource : LeaseResource) (lease : ℕ) (value : Value)
      → holds_lease owner now (get s.lifecycle_leases (tenant, k)) ≡ true
      → other ≢ owner
      → get s.lifecycle_fences (tenant, k) ≡ none
      → let (t, granted) = lifecycle_claim_fenced s now tenant user resource k other lease in
        (is_some granted ≡ true)
        × (lifecycle_save_claimed t now tenant k owner value
            ≡ (t, err (conflict "scheduled job claim was lost")))
  unfolding lifecycle_claim_fenced lifecycle_save_claimed
  plain_lease_overtaken user resource lease value held differs free = ground (
    arith,
    str_iff other owner,
    get-insert s.lifecycle_leases (tenant, k) (tenant, k)
        (record { owner = other; until = u64_add now lease }),
    key_iff (tenant, k) (tenant, k),
  )

-- A fenced release of a key that is no job removes the plain lease of the key, whoever has it and
-- even where the claim that is released has long been superseded.
pub fenced_release_drops_lease :
    (s : LifecycleTables) (claim : LeaseClaim)
    → claim.resource ≢ lifecycle_job
    → get (lifecycle_release_fenced s claim).lifecycle_leases (state_key claim) ≡ none
unfolding lifecycle_release_fenced
fenced_release_drops_lease s claim plain = ground (
  arith,
  get-remove s.lifecycle_leases (state_key claim) (state_key claim),
  key_iff (state_key claim) (state_key claim),
)
