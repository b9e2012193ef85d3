-- ===== src/Governance/Leased.antt =====
-- runtime/governance.rs: forgetting under the lease of the user, on request and for a scheduled
-- retention. runtime/lifecycle.rs: the renewal of a lease.
use nextral.Base.{
  Bool, true, false, not, ◌||◌, String, none, some, List, [], ◌∷◌, is_blank, if◌then◌else◌,
}
use nextral.Contracts.{CoreResult, ok, err, invalid_input, not_found, refuse, ok_or}
use nextral.Actions.{Action, ◌>>=◌, ◌>>◌, reads, lift, attempt}
use nextral.Timestamps.{timestamp_epoch}
use nextral.Scope.{validate_identity, validate_scope_component}
use nextral.Scope.Keys.{forgotten_source, user_key, privacy_key}
use nextral.Memories.Records.{MemoryRecord}
use nextral.Governance.Interface.{
  ForgetMemoryRequest, ForgetMemoryResponse, GovernanceStore, GovernanceLibraries,
}
use nextral.Governance.{forget_key, forget_claimed}

module _ {S : Type 0} (store : GovernanceStore S) (libraries : GovernanceLibraries)
    (request : ForgetMemoryRequest) where
  abbrev pub lock : String
  lock = privacy_key request.user_id

  abbrev claim_lock : String → String → Action S (Unit {0})
  claim_lock owner refusal = do
    now ← reads (λ s. timestamp_epoch libraries.chrono (store.now_timestamp s))
    granted ← store.lifecycle_claim request.tenant_id lock owner now 300
    lift (refuse (not granted) (invalid_input refusal))

  unfoldable pub renew_lease : String → Action S (Unit {0})
  renew_lease owner = claim_lock owner "worker lost its durable lifecycle lease"

  -- The lease is given back whatever the outcome is, and its release can only fail a success.
  unfoldable pub with_release :
      String → Action S ForgetMemoryResponse → Action S ForgetMemoryResponse
  with_release owner body = do
    outcome ← attempt body
    release ← attempt (store.lifecycle_release request.tenant_id lock owner)
    elim outcome [
      | err failure ↦ lift (err failure)
      | ok response ↦ elim release [
        | err failure ↦ lift (err failure)
        | ok done ↦ lift (ok response)
      ]
    ]

  unfoldable pub forget_memory : Action S ForgetMemoryResponse
  unfolding forget_claimed with_release
  forget_memory = do
    lift (validate_identity request.tenant_id request.user_id none)
    lift (validate_scope_component request.memory_id "memory_id")
    lift (
        refuse (is_blank request.actor || is_blank request.reason)
          (invalid_input "forget actor and reason are required"))
    owner ← store.worker_owner
    claim_lock owner "user lifecycle is leased by another worker"
    with_release owner (forget_claimed store libraries request)

  -- Whether one of the sources has a tombstone; every one of them is loaded.
  unfoldable pub any_forgotten : List String → Bool → S → CoreResult Bool
  any_forgotten [] started s = ok started
  any_forgotten (source ∷ rest) started s =
      let later = any_forgotten rest true s in
      let same = any_forgotten rest started s in
      elim (store.lifecycle_load request.tenant_id
        (user_key forgotten_source request.user_id source) s) [
          | err failure ↦ err failure
          | ok (some tombstone) ↦ later
          | ok none ↦ same
        ]

  -- An erasure was authorized before: the intent of one, or the tombstone of a source, is there.
  unfoldable pub erasure_started : MemoryRecord → S → CoreResult Bool
  unfolding any_forgotten
  erasure_started r s =
      elim (store.lifecycle_load request.tenant_id (forget_key store libraries request) s) [
        | err failure ↦ err failure
        | ok (some intent) ↦ ok true
        | ok none ↦ any_forgotten r.source_message_ids false s
      ]

  module _ (fence_job : Action S (Unit {0})) where
    unfoldable pub retain_claimed : String → Action S ForgetMemoryResponse
    unfolding erasure_started renew_lease forget_claimed
    retain_claimed owner = do
      found ← reads (store.get_memory request.tenant_id request.user_id request.memory_id)
      r ← lift (ok_or found (not_found "memory not found"))
      started ← reads (erasure_started r)
      reads (λ s. if started then ok tt else store.lifecycle_verify_archive_sources r s)
      renew_lease owner
      fence_job
      forget_claimed store libraries request

    unfoldable pub retain_memory : Action S ForgetMemoryResponse
    unfolding retain_claimed renew_lease with_release
    retain_memory = do
      lift (validate_identity request.tenant_id request.user_id none)
      lift (validate_scope_component request.memory_id "memory_id")
      owner ← store.worker_owner
      renew_lease owner
      with_release owner (retain_claimed owner)
