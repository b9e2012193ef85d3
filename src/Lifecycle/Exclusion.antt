-- ===== src/Lifecycle/Exclusion.antt =====
-- runtime/storage.rs: a lease of TestMemoryStore under the calls of other workers.
use nextral.Base.{
  ℕ, ◌≡◌, ◌≢◌, arith, String, str_iff, key_iff, Bool, true, not, ◌&&◌, none, some, List, [], ◌∷◌,
  all, ltb, nat_eqb, ◌==◌, string_eq, pair_eq, get, get-insert, Option, Option-cases, Bool-cases,
  false, ◌⊎◌, inl, inr,
}
use nextral.Contracts.{ok}
use nextral.Json.{Value, str_at}
use nextral.Lifecycle.Records.{LeaseClaim, applied, superseded, FenceEntry, LifecycleTables}
use nextral.Lifecycle.Leases.{
  state_key, is_terminal, lifecycle_claim_fenced, lifecycle_save_guarded, holds_fence,
  lifecycle_save, lifecycle_claim, lifecycle_release,
}
use nextral.Lifecycle.Fencing.{
  Call, claims, renews, releases, writes, saves, plain_claims, plain_releases, step, run,
  fences-claim, fences-renew, fences-release, fences-save_guarded,
}

-- A call of another worker, before the entry expires: it claims in another owner's name, and the claims
-- that it renews or releases are not the one that made the entry.
abbrev pub is_foreign : FenceEntry → Call → Bool
is_foreign e (claims now tenant user resource key owner lease) =
    ltb now e.expiry && not (e.owner == owner)
is_foreign e (renews now claim lease) = not (e.owner == claim.owner && nat_eqb e.fence claim.fence)
is_foreign e (releases claim) = not (e.owner == claim.owner && nat_eqb e.fence claim.fence)
is_foreign e _ = true

module _ (e : FenceEntry) (s : LifecycleTables) (k : String × String)
    (held : get s.lifecycle_fences k ≡ some e) where
  foreign_step : (c : Call) → is_foreign e c ≡ true → get (step s c).lifecycle_fences k ≡ some e
  unfolding step
  foreign_step (claims now tenant user resource key owner lease) f =
      ground
        (arith, fences-claim s k now tenant user resource key owner lease, key_iff (tenant, key) k)
  foreign_step (renews now claim lease) f =
      ground (arith, fences-renew s k now claim lease, key_iff (state_key claim) k)
  foreign_step (releases claim) f =
      ground (arith, fences-release s k claim, key_iff (state_key claim) k)
  foreign_step (writes now claim key value) f =
      ground (arith, fences-save_guarded s k now claim key value)
  foreign_step (saves tenant key value) f = unfold lifecycle_save in ground arith
  foreign_step (plain_claims tenant key owner now lease) f = unfold lifecycle_claim in ground arith
  foreign_step (plain_releases tenant key owner) f = unfold lifecycle_release in ground arith

foreign_run :
    (cs : List Call) (e : FenceEntry) (s : LifecycleTables) (k : String × String)
    → get s.lifecycle_fences k ≡ some e
    → all (is_foreign e) cs ≡ true
    → get (run s cs).lifecycle_fences k ≡ some e
unfolding run
foreign_run [] e s k held f = held
foreign_run (c ∷ cs) e s k held f =
    foreign_run cs e (step s c) k (foreign_step e s k held c (ground arith)) (ground arith)

-- What is stored under the key is through with: its status is one of the three that are final.
abbrev pub is_closed : Option Value → Bool
is_closed none = false
is_closed (some stored) = is_terminal (str_at stored "status")

write_of_holder :
    (t : LifecycleTables) (now : ℕ) (claim : LeaseClaim) (key : String) (value : Value)
    (e : FenceEntry)
    → get t.lifecycle_fences (state_key claim) ≡ some e
    → holds_fence claim now e ≡ true
    → let (u, outcome) = lifecycle_save_guarded t now claim key value in
      let stored = get t.lifecycle_state (claim.tenant_id, key) in
      (is_closed stored ≡ false)
        × (outcome ≡ ok applied)
        × (get u.lifecycle_state (claim.tenant_id, key) ≡ some value)
      ⊎ (existing : Value) × (stored ≡ some existing)
        × (is_closed stored ≡ true)
        × (outcome ≡ ok (superseded existing))
        × (u ≡ t)
unfolding lifecycle_save_guarded
write_of_holder t now claim key value e held h =
    let target : String × String = (claim.tenant_id, key) in
    let there = get-insert t.lifecycle_state target target value in
    elim (Option-cases (get t.lifecycle_state target)) [
      | inl missing ↦ inl (ground arith, ground arith, ground (arith, there, key_iff target target))
      | inr (existing, found) ↦ elim (Bool-cases (is_terminal (str_at existing "status"))) [
        | inl final ↦ inr (existing, found, ground arith, ground arith, ground arith)
        | inr open_yet ↦
            inl (ground arith, ground arith, ground (arith, there, key_iff target target))
      ]
    ]

claim_by_other :
    (t : LifecycleTables) (now : ℕ) (claim : LeaseClaim) (e : FenceEntry) (owner : String)
    (lease : ℕ)
    → get t.lifecycle_fences (state_key claim) ≡ some e
    → holds_fence claim now e ≡ true
    → owner ≢ claim.owner
    → lifecycle_claim_fenced t now claim.tenant_id claim.user_id claim.resource claim.key owner
        lease
      ≡ (t, none)
unfolding lifecycle_claim_fenced
claim_by_other t now claim e owner lease held h other =
    ground (arith, str_iff e.owner claim.owner, str_iff e.owner owner)

-- While a lease is in force, whatever calls are made that do not name its claim (claims among them only
-- by other owners and before the expiry), the holder's guarded write before the expiry is applied: the
-- value is stored under its key, unless a value with a final status is there, which is kept and given
-- back. And a claim of the lease's key by another owner before the expiry is refused and changes
-- nothing.
pub lease_exclusive :
    (cs : List Call) (s : LifecycleTables) (e : FenceEntry) (now : ℕ) (claim : LeaseClaim)
    (key : String) (value : Value) (owner : String) (lease : ℕ)
    → get s.lifecycle_fences (state_key claim) ≡ some e
    → holds_fence claim now e ≡ true
    → owner ≢ claim.owner
    → all (is_foreign e) cs ≡ true
    → let t = run s cs in
      let (u, outcome) = lifecycle_save_guarded t now claim key value in
      let stored = get t.lifecycle_state (claim.tenant_id, key) in
      ((is_closed stored ≡ false)
          × (outcome ≡ ok applied)
          × (get u.lifecycle_state (claim.tenant_id, key) ≡ some value)
        ⊎ (existing : Value) × (stored ≡ some existing)
          × (is_closed stored ≡ true)
          × (outcome ≡ ok (superseded existing))
          × (u ≡ t))
      × (lifecycle_claim_fenced t now claim.tenant_id claim.user_id claim.resource claim.key owner
            lease
          ≡ (t, none))
lease_exclusive cs s e now claim key value owner lease held h other f =
    let still = foreign_run cs e s (state_key claim) held f in
    (
      write_of_holder (run s cs) now claim key value e still h,
      claim_by_other (run s cs) now claim e owner lease still h other,
    )
