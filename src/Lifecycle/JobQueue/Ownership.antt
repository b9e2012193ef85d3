-- ===== src/Lifecycle/JobQueue/Ownership.antt =====
-- A finished job stays finished, and a locked job is its holder's, whatever other calls are made.
use nextral.Base.{
  ℕ, ◌≡◌, refl, arith, String, triple_iff, str_iff, Bool, true, false, not, ◌&&◌, some, List, [],
  ◌∷◌, all, nat_eqb, ◌==◌, string_eq, triple_eq, get, get-insert, Option-cases, Bool-cases, inl,
  inr, ◌∙◌,
}
use nextral.Contracts.{ok, is_ok}
use nextral.Timestamps.{Chrono}
use nextral.Lifecycle.Records.{LeaseClaim, LifecycleScheduledJob, JobKey, JobEntry, LifecycleTables}
use nextral.Lifecycle.Leases.{job_key, lock_expired, holds_job, is_owner, is_terminal, or_empty}
use nextral.Lifecycle.JobQueue.{
  is_claimable, lifecycle_job_save_guarded, saved_entry, is_open_status, is_unlocking,
  lifecycle_job_get,
}
use nextral.Lifecycle.JobQueue.Locks.{claim_due-refused}
use nextral.Lifecycle.JobQueue.Histories.{
  QueueCall, claims_due, saves_job, renews_job, releases_job, enqueues, queue_step, queue_run,
  is_finished, finished_step, renew-other, release-other, save-other, enqueue-other,
}

terminal_facts :
    (status : String)
    → is_terminal (some status) ≡ true
    → (is_unlocking status ≡ true) × (is_open_status status ≡ false)
terminal_facts status final = elim (Bool-cases (status == "completed")) [
  | inl hit ↦
      let same : status ≡ "completed" = (str_iff status "completed").0 hit in rw same (refl, refl)
  | inr first ↦ elim (Bool-cases (status == "terminal_failed")) [
    | inl hit ↦
        let same : status ≡ "terminal_failed" = (str_iff status "terminal_failed").0 hit in
        rw same (refl, refl)
    | inr second ↦
        let same : status ≡ "cancelled" = (str_iff status "cancelled").0 (ground arith) in
        rw same (refl, refl)
  ]
]

saved-finished :
    (x : JobEntry) (job : LifecycleScheduledJob)
    → is_unlocking job.status ≡ true
    → is_open_status job.status ≡ false
    → is_finished (saved_entry x job) ≡ true
unfolding saved_entry
saved-finished x job u o = ground arith

finishing_save :
    (s t : LifecycleTables) (now : ℕ) (claim : LeaseClaim) (job : LifecycleScheduledJob)
    → lifecycle_job_save_guarded s now claim job ≡ (t, ok tt)
    → is_terminal (some job.status) ≡ true
    → (e : JobEntry) × (get t.lifecycle_jobs (job_key claim) ≡ some e)
      × (is_finished e ≡ true)
      × (e.job ≡ job)
unfolding lifecycle_job_save_guarded
finishing_save s t now claim job accepted final =
    elim (Option-cases (get s.lifecycle_jobs (job_key claim))) [
      | inl missing ↦ absurd (ground arith)
      | inr (x, found) ↦ (
        saved_entry x job,
        ground (
          arith,
          get-insert s.lifecycle_jobs (job_key claim) (job_key claim) (saved_entry x job),
          triple_iff (job_key claim) (job_key claim),
        ),
        saved-finished x job (terminal_facts job.status final).0
            (terminal_facts job.status final).1,
        unfold saved_entry in ground arith,
      )
    ]

save_of_holder :
    (t : LifecycleTables) (now : ℕ) (claim : LeaseClaim) (job : LifecycleScheduledJob)
    (e : JobEntry)
    → get t.lifecycle_jobs (job_key claim) ≡ some e
    → holds_job claim now e ≡ true
    → (is_ok (lifecycle_job_save_guarded t now claim job).1 ≡ true)
      × (get (lifecycle_job_save_guarded t now claim job).0.lifecycle_jobs (job_key claim)
          ≡ some (saved_entry e job))
unfolding lifecycle_job_save_guarded
save_of_holder t now claim job e there h = ground (
  arith,
  get-insert t.lifecycle_jobs (job_key claim) (job_key claim) (saved_entry e job),
  triple_iff (job_key claim) (job_key claim),
)

module _ (chrono : Chrono) where
  finished_run :
      (cs : List QueueCall) (s : LifecycleTables) (k : JobKey) (e : JobEntry)
      → get s.lifecycle_jobs k ≡ some e
      → is_finished e ≡ true
      → get (queue_run chrono s cs).lifecycle_jobs k ≡ some e
  unfolding queue_run
  finished_run [] s k e there done = there
  finished_run (c ∷ cs) s k e there done =
      finished_run cs (queue_step chrono s c) k e (finished_step chrono s k e there done c) done

  -- A save that is accepted with a terminal status is the last word on its job: after any further
  -- calls of any workers (claims of due jobs, saves, renewals, releases and enqueuings of jobs) the
  -- queue still has the job as it was saved.
  pub finished_job_final :
      (cs : List QueueCall) (s t : LifecycleTables) (now : ℕ) (claim : LeaseClaim)
      (job : LifecycleScheduledJob)
      → lifecycle_job_save_guarded s now claim job ≡ (t, ok tt)
      → is_terminal (some job.status) ≡ true
      → lifecycle_job_get (queue_run chrono t cs) claim.tenant_id (or_empty claim.user_id) claim.key
        ≡ some job
  unfolding lifecycle_job_get
  finished_job_final cs s t now claim job accepted final =
      let (e, there, done, same) = finishing_save s t now claim job accepted final in
      ground (arith, finished_run cs t (job_key claim) e there done)

  -- A call that does not come from the holder of the lock, before the lock runs out.
  abbrev pub is_rival : JobEntry → QueueCall → Bool
  is_rival e (claims_due now tenant user owner now_nanos limit lease) =
      not (lock_expired e.locked_until now)
  is_rival e (saves_job now claim job) =
      not (is_owner e.locked_by claim.owner && nat_eqb e.fence claim.fence)
  is_rival e (renews_job now claim lease) =
      not (is_owner e.locked_by claim.owner && nat_eqb e.fence claim.fence)
  is_rival e (releases_job claim) =
      not (is_owner e.locked_by claim.owner && nat_eqb e.fence claim.fence)
  is_rival e (enqueues job) = true

  rival_step :
      (s : LifecycleTables) (k : JobKey) (e : JobEntry)
      → get s.lifecycle_jobs k ≡ some e
      → (c : QueueCall) → is_rival e c ≡ true
      → get (queue_step chrono s c).lifecycle_jobs k ≡ some e
  unfolding queue_step
  rival_step s k e there (claims_due now tenant user owner now_nanos limit lease) f =
      claim_due-refused chrono s now tenant user owner now_nanos limit lease k
        (unfold is_claimable in ground arith)
      ∙ there
  rival_step s k e there (saves_job now claim job) f =
      save-other s k e there now claim job (ground arith)
  rival_step s k e there (renews_job now claim lease) f =
      renew-other s k e there now claim lease (ground arith)
  rival_step s k e there (releases_job claim) f = release-other s k e there claim (ground arith)
  rival_step s k e there (enqueues job) f = enqueue-other s k e there job

  rival_run :
      (cs : List QueueCall) (s : LifecycleTables) (k : JobKey) (e : JobEntry)
      → get s.lifecycle_jobs k ≡ some e
      → all (is_rival e) cs ≡ true
      → get (queue_run chrono s cs).lifecycle_jobs k ≡ some e
  unfolding queue_run
  rival_run [] s k e there f = there
  rival_run (c ∷ cs) s k e there f =
      rival_run cs (queue_step chrono s c) k e (rival_step s k e there c (ground arith))
        (ground arith)

  -- While a job is locked, whatever calls are made that do not name the holder's claim (claims of due
  -- jobs among them only before the lock runs out), the job and its lock stay as they are, and then the
  -- holder's save before the lock runs out is accepted and is what the queue holds.
  pub job_lock_exclusive :
      (cs : List QueueCall) (s : LifecycleTables) (now : ℕ) (claim : LeaseClaim)
      (job : LifecycleScheduledJob) (e : JobEntry)
      → get s.lifecycle_jobs (job_key claim) ≡ some e
      → holds_job claim now e ≡ true
      → all (is_rival e) cs ≡ true
      → (get (queue_run chrono s cs).lifecycle_jobs (job_key claim) ≡ some e)
        × (is_ok (lifecycle_job_save_guarded (queue_run chrono s cs) now claim job).1 ≡ true)
        × (get
              (lifecycle_job_save_guarded (queue_run chrono s cs) now claim job).0.lifecycle_jobs
              (job_key claim)
            ≡ some (saved_entry e job))
  job_lock_exclusive cs s now claim job e there h f =
      let still = rival_run cs s (job_key claim) e there f in
      let (accepted, kept) = save_of_holder (queue_run chrono s cs) now claim job e still h in
      (still, accepted, kept)
