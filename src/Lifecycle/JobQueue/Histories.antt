-- ===== src/Lifecycle/JobQueue/Histories.antt =====
-- The queue of jobs over whole histories of calls: a finished job stays finished, and a locked job is
-- its holder's.
use nextral.Base.{
  ℕ, ◌≡◌, arith, String, triple_iff, Bool, true, false, not, ◌&&◌, Option, none, some, List, [],
  ◌∷◌, nat_eqb, string_eq, triple_eq, get, get-insert, Option-cases, inl, inr, ◌∙◌,
}
use nextral.Timestamps.{Chrono}
use nextral.Lifecycle.Records.{LeaseClaim, LifecycleScheduledJob, JobKey, JobEntry, LifecycleTables}
use nextral.Lifecycle.Leases.{
  job_key, holds_job, is_owner, u64_add, lifecycle_renew_fenced, lifecycle_release_fenced,
}
use nextral.Lifecycle.JobQueue.{
  is_claimable, lifecycle_job_claim_due, lifecycle_job_save_guarded, saved_entry, is_open_status,
  lifecycle_job_enqueue, lifecycle_job_get, key_of_job,
}
use nextral.Lifecycle.JobQueue.Locks.{claim_due-refused}

pub data QueueCall : Type 0 where
  claims_due : ℕ → String → String → String → ℕ → ℕ → ℕ → QueueCall
  saves_job : ℕ → LeaseClaim → LifecycleScheduledJob → QueueCall
  renews_job : ℕ → LeaseClaim → ℕ → QueueCall
  releases_job : LeaseClaim → QueueCall
  enqueues : LifecycleScheduledJob → QueueCall

-- A job is enqueued only if its identifier is new, as `enqueue_lifecycle_job` does.
pub enqueue_new : LifecycleTables → LifecycleScheduledJob → LifecycleTables
unfolding lifecycle_job_enqueue lifecycle_job_get
enqueue_new s job = elim (lifecycle_job_get s job.request.tenant_id job.request.user_id job.id) [
  | some existing ↦ s
  | none ↦ lifecycle_job_enqueue s job
]

unfoldable pub queue_step : Chrono → LifecycleTables → QueueCall → LifecycleTables
unfolding enqueue_new
queue_step chrono s (claims_due now tenant user owner now_nanos limit lease) =
    (lifecycle_job_claim_due chrono s now tenant user owner now_nanos limit lease).0
queue_step chrono s (saves_job now claim job) = (lifecycle_job_save_guarded s now claim job).0
queue_step chrono s (renews_job now claim lease) = (lifecycle_renew_fenced s now claim lease).0
queue_step chrono s (releases_job claim) = lifecycle_release_fenced s claim
queue_step chrono s (enqueues job) = enqueue_new s job

unfoldable pub queue_run : Chrono → LifecycleTables → List QueueCall → LifecycleTables
unfolding queue_step
queue_run chrono s [] = s
queue_run chrono s (c ∷ cs) = queue_run chrono (queue_step chrono s c) cs

-- What each call does to the entry of a job.
module _ (s : LifecycleTables) (k : JobKey) (e : JobEntry)
    (there : get s.lifecycle_jobs k ≡ some e) where
  pub renew-other :
      (now : ℕ) (claim : LeaseClaim) (lease : ℕ)
      → holds_job claim now e ≡ false
      → get (lifecycle_renew_fenced s now claim lease).0.lifecycle_jobs k ≡ some e
  unfolding lifecycle_renew_fenced
  renew-other now claim lease f = elim (Option-cases (get s.lifecycle_jobs (job_key claim))) [
    | inl missing ↦ ground arith
    | inr (x, found) ↦ ground (
      arith,
      triple_iff (job_key claim) k,
      get-insert s.lifecycle_jobs (job_key claim) k
          (record x { locked_until = some (u64_add now lease) }),
    )
  ]

  pub release-other :
      (claim : LeaseClaim)
      → (is_owner e.locked_by claim.owner && nat_eqb e.fence claim.fence) ≡ false
      → get (lifecycle_release_fenced s claim).lifecycle_jobs k ≡ some e
  unfolding lifecycle_release_fenced
  release-other claim f = elim (Option-cases (get s.lifecycle_jobs (job_key claim))) [
    | inl missing ↦ ground arith
    | inr (x, found) ↦ ground (
      arith,
      triple_iff (job_key claim) k,
      get-insert s.lifecycle_jobs (job_key claim) k
          (record x { locked_by = none; locked_until = none }),
    )
  ]

  pub save-other :
      (now : ℕ) (claim : LeaseClaim) (job : LifecycleScheduledJob)
      → holds_job claim now e ≡ false
      → get (lifecycle_job_save_guarded s now claim job).0.lifecycle_jobs k ≡ some e
  unfolding lifecycle_job_save_guarded
  save-other now claim job f = elim (Option-cases (get s.lifecycle_jobs (job_key claim))) [
    | inl missing ↦ ground arith
    | inr (x, found) ↦ ground (
      arith,
      triple_iff (job_key claim) k,
      get-insert s.lifecycle_jobs (job_key claim) k (saved_entry x job),
    )
  ]

  pub enqueue-other :
      (job : LifecycleScheduledJob) → get (enqueue_new s job).lifecycle_jobs k ≡ some e
  unfolding enqueue_new
  enqueue-other job = ground (
    arith,
    triple_iff (key_of_job job) k,
    get-insert s.lifecycle_jobs (key_of_job job) k
        (record { job = job; locked_by = none; locked_until = none; fence = 0 }),
  )

abbrev pub is_unlocked : Option String → Bool
is_unlocked none = true
is_unlocked (some owner) = false

-- A job that is through with: its status is not open and nobody holds its lock.
abbrev pub is_finished : JobEntry → Bool
is_finished e = not (is_open_status e.job.status) && is_unlocked e.locked_by

module _ (chrono : Chrono) where
  pub finished_step :
      (s : LifecycleTables) (k : JobKey) (e : JobEntry)
      → get s.lifecycle_jobs k ≡ some e
      → is_finished e ≡ true
      → (c : QueueCall) → get (queue_step chrono s c).lifecycle_jobs k ≡ some e
  unfolding queue_step
  finished_step s k e there done (claims_due now tenant user owner now_nanos limit lease) =
      claim_due-refused chrono s now tenant user owner now_nanos limit lease k
        (unfold is_claimable in ground arith)
      ∙ there
  finished_step s k e there done (saves_job now claim job) =
      save-other s k e there now claim job (ground arith)
  finished_step s k e there done (renews_job now claim lease) =
      renew-other s k e there now claim lease (ground arith)
  finished_step s k e there done (releases_job claim) =
      release-other s k e there claim (ground arith)
  finished_step s k e there done (enqueues job) = enqueue-other s k e there job
