-- ===== src/Lifecycle/JobQueue.antt =====
-- runtime/storage.rs, `impl LifecycleStore for TestMemoryStore`: the queue of scheduled jobs. A hash
-- map is iterated by its keys; the order does not matter, since what is found is sorted.
pub mod Locks
pub mod Histories
pub mod Ownership
use Prim.Native.Nat.{Ordering}
use Prim.Native.String.{compare}
use mathlib.Core.Option
use nextral.Base.{
  ℕ, zero, String, Bool, true, false, not, ◌&&◌, ◌||◌, Option, none, some, List, [], ◌∷◌, map, take,
  retain, leb, ◌==◌, string_eq, triple_eq, get, insert, if◌then◌else◌,
}
use nextral.Contracts.{CoreResult, ok, err, lease_lost, not_found}
use nextral.Timestamps.{Chrono, timestamp_nanos}
use nextral.Lifecycle.Records.{
  lifecycle_job, LeaseClaim, LifecycleScheduledJob, JobKey, JobEntry, LifecycleTables,
}
use nextral.Lifecycle.Leases.{u64_add, job_key, lock_expired, holds_job}

abbrev pub key_of_job : LifecycleScheduledJob → JobKey
key_of_job job = (job.request.tenant_id, job.request.user_id, job.id)

unfoldable pub lifecycle_job_enqueue : LifecycleTables → LifecycleScheduledJob → LifecycleTables
lifecycle_job_enqueue s job = record s {
  lifecycle_jobs =
      insert s.lifecycle_jobs (key_of_job job)
        (record { job = job; locked_by = none; locked_until = none; fence = 0 });
}

unfoldable pub lifecycle_job_get :
    LifecycleTables → String → String → String → Option LifecycleScheduledJob
lifecycle_job_get s tenant user id = elim (get s.lifecycle_jobs (tenant, user, id)) [
  | none ↦ none
  | some entry ↦ some entry.job
]

-- `matches!(status, "queued" | "running" | "retry_pending")`
abbrev pub is_open_status : String → Bool
is_open_status status = status == "queued" || status == "running" || status == "retry_pending"

-- The statuses whose saving gives the lock back.
abbrev pub is_unlocking : String → Bool
is_unlocking status =
    status == "completed"
    || status == "terminal_failed"
    || status == "cancelled"
    || status == "retry_pending"
    || status == "queued"

-- `Ord` of optional texts, and of texts: by code points.
abbrev text_ordering : Option String → Option String → Ordering
text_ordering none none = Ordering.eq
text_ordering none (some b) = Ordering.lt
text_ordering (some a) none = Ordering.gt
text_ordering (some a) (some b) = compare a b

-- `due_a.cmp(&due_b).then(a.2.cmp(&b.2))`, as "not greater".
comes_before : Option String → Option String → String → String → Bool
comes_before due_a due_b id_a id_b = elim (text_ordering due_a due_b) [
  | Ordering.lt ↦ true
  | Ordering.gt ↦ false
  | Ordering.eq ↦ elim (compare id_a id_b) [ Ordering.gt ↦ false | _ ↦ true ]
]

abbrev due_text : Option JobEntry → Option String
due_text none = none
due_text (some entry) = some entry.job.next_attempt_at

-- The stable sort of the candidates.
insert_key : LifecycleTables → JobKey → List JobKey → List JobKey
unfolding comes_before
insert_key s k [] = k ∷ []
insert_key s k (j ∷ rest) =
    if comes_before (due_text (get s.lifecycle_jobs k)) (due_text (get s.lifecycle_jobs j)) k.2 j.2
    then k ∷ j ∷ rest
    else j ∷ insert_key s k rest

sort_keys : LifecycleTables → List JobKey → List JobKey
unfolding insert_key
sort_keys s [] = []
sort_keys s (k ∷ rest) = insert_key s k (sort_keys s rest)

abbrev key_of_pair : JobKey × JobEntry → JobKey
key_of_pair (k, entry) = k

-- The job takes the lock of its next claim.
lock_job : JobEntry → String → ℕ → JobEntry
lock_job entry owner until = record {
  job = record entry.job { status = "running" };
  locked_by = some owner;
  locked_until = some until;
  fence = u64_add entry.fence 1;
}

claim_of : String → String → String → JobEntry → LeaseClaim
claim_of tenant user owner entry = record {
  tenant_id = tenant;
  user_id = some user;
  resource = lifecycle_job;
  key = entry.job.id;
  owner = owner;
  fence = entry.fence;
}

-- The loop over the keys that were found: each job is locked in turn.
claim_keys :
    String
    → String
    → String
    → ℕ
    → LifecycleTables
    → List JobKey
    → LifecycleTables × List (LifecycleScheduledJob × LeaseClaim)
unfolding lock_job claim_of
claim_keys tenant user owner until s [] = (s, [])
claim_keys tenant user owner until s (k ∷ rest) = elim (get s.lifecycle_jobs k) [
  | none ↦ claim_keys tenant user owner until s rest
  | some entry ↦
      let locked = lock_job entry owner until in
      let (t, claimed) =
        claim_keys tenant user owner until
          (record s { lifecycle_jobs = insert s.lifecycle_jobs k locked }) rest in
      (t, (locked.job, claim_of tenant user owner locked) ∷ claimed)
]

module _ (chrono : Chrono) where
  -- `timestamp_nanos(&job.next_attempt_at).map_or(false, |due| due <= now_nanos)`
  unfoldable pub is_due_at : LifecycleScheduledJob → ℕ → Bool
  is_due_at job now_nanos = elim (timestamp_nanos chrono job.next_attempt_at) [
    | ok due ↦ leb due now_nanos
    | err e ↦ false
  ]

  -- The test of the filter: in scope, open, not locked, and due.
  unfoldable pub is_claimable : String → String → ℕ → ℕ → JobKey → Option JobEntry → Bool
  unfolding is_due_at
  is_claimable tenant user now now_nanos k none = false
  is_claimable tenant user now now_nanos k (some entry) =
      k.0 == tenant
      && k.1 == user
      && is_open_status entry.job.status
      && lock_expired entry.locked_until now
      && is_due_at entry.job now_nanos

  candidate_keys : LifecycleTables → String → String → ℕ → ℕ → List JobKey
  unfolding is_claimable
  candidate_keys s tenant user now now_nanos =
      retain (λ k. is_claimable tenant user now now_nanos k (get s.lifecycle_jobs k))
        (map key_of_pair s.lifecycle_jobs)

  unfoldable pub lifecycle_job_claim_due :
      LifecycleTables
      → ℕ
      → String
      → String
      → String
      → ℕ
      → ℕ
      → ℕ
      → LifecycleTables × List (LifecycleScheduledJob × LeaseClaim)
  unfolding candidate_keys sort_keys claim_keys
  lifecycle_job_claim_due s now tenant user owner now_nanos limit lease_seconds =
      claim_keys tenant user owner (u64_add now lease_seconds) s
        (take limit (sort_keys s (candidate_keys s tenant user now now_nanos)))

-- The entry after an accepted save.
unfoldable pub saved_entry : JobEntry → LifecycleScheduledJob → JobEntry
saved_entry entry job =
    if is_unlocking job.status
    then record entry { job = job; locked_by = none; locked_until = none }
    else record entry { job = job }

unfoldable pub lifecycle_job_save_guarded :
    LifecycleTables
    → ℕ
    → LeaseClaim
    → LifecycleScheduledJob
    → LifecycleTables × CoreResult (Unit {0})
unfolding saved_entry
lifecycle_job_save_guarded s now claim job = elim (get s.lifecycle_jobs (job_key claim)) [
  | none ↦ (s, err (not_found "lifecycle job not found"))
  | some entry ↦
      if not (holds_job claim now entry)
      then (s, err (lease_lost "job lease expired or lost"))
      else (
        record s {
          lifecycle_jobs = insert s.lifecycle_jobs (job_key claim) (saved_entry entry job);
        },
        ok tt,
      )
]
