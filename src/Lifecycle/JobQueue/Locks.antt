-- ===== src/Lifecycle/JobQueue/Locks.antt =====
-- The queue of jobs over whole histories of calls: finished jobs stay finished, and a locked job is
-- its holder's.
use nextral.Base.{
  ℕ, zero, suc, ◌<◌, ◌⊎◌, ◌≢◌, str_iff, some, ◌≡◌, refl, arith, String, triple_iff, Bool, true,
  false, List, [], ◌∷◌, map, all, take, string_eq, triple_eq, get, insert, get-insert, all-retain,
  Option-cases, ◌∙◌, inl, inr,
}
use nextral.Contracts.{ok, CoreResult-cases}
use nextral.Timestamps.{Chrono, timestamp_nanos}
use nextral.Lifecycle.Records.{JobKey, JobEntry, LifecycleTables}
use nextral.Lifecycle.Leases.{u64_add}
use nextral.Lifecycle.JobQueue.{
  insert_key, sort_keys, key_of_pair, lock_job, claim_keys, is_claimable, lifecycle_job_claim_due,
}

module _ (P : JobKey → Bool) where
  all-insert_key :
      (s : LifecycleTables) (k : JobKey) (ks : List JobKey)
      → P k ≡ true
      → all P ks ≡ true
      → all P (insert_key s k ks) ≡ true
  unfolding insert_key
  all-insert_key s k [] h hs = ground arith
  all-insert_key s k (j ∷ rest) h hs = ground (arith, all-insert_key s k rest)

  all-sort_keys :
      (s : LifecycleTables) (ks : List JobKey) → all P ks ≡ true → all P (sort_keys s ks) ≡ true
  unfolding sort_keys
  all-sort_keys s [] h = refl
  all-sort_keys s (k ∷ ks) h =
      ground (arith, all-sort_keys s ks, all-insert_key s k (sort_keys s ks))

  all-take : (n : ℕ) (ks : List JobKey) → all P ks ≡ true → all P (take n ks) ≡ true
  all-take zero ks h = refl
  all-take (suc n) [] h = refl
  all-take (suc n) (k ∷ ks) h = ground (arith, all-take n ks)

  -- The claiming loop leaves every key alone that it is not given.
  claim_keys-other :
      (tenant user owner : String) (until : ℕ) (s : LifecycleTables) (ks : List JobKey) (k : JobKey)
      → all P ks ≡ true
      → P k ≡ false
      → get (claim_keys tenant user owner until s ks).0.lifecycle_jobs k ≡ get s.lifecycle_jobs k
  unfolding claim_keys
  claim_keys-other tenant user owner until s [] k h miss = refl
  claim_keys-other tenant user owner until s (j ∷ ks) k h miss =
      elim (Option-cases (get s.lifecycle_jobs j)) [
        | inl missing ↦
            rw (missing, claim_keys)
              (claim_keys-other tenant user owner until s ks k (ground arith) miss)
        | inr (entry, found) ↦
            rw (found, claim_keys)
              (claim_keys-other tenant user owner until
                  (record s {
                    lifecycle_jobs = insert s.lifecycle_jobs j (lock_job entry owner until);
                  })
                  ks k (ground arith) miss
                ∙ ground (
                  arith,
                  get-insert s.lifecycle_jobs j k (lock_job entry owner until),
                  triple_iff j k,
                ))
      ]

-- A job that the filter refuses is left alone by a claim of the jobs that are due.
pub claim_due-refused :
    (chrono : Chrono) (s : LifecycleTables) (now : ℕ) (tenant user owner : String)
    (now_nanos limit lease : ℕ) (k : JobKey)
    → is_claimable chrono tenant user now now_nanos k (get s.lifecycle_jobs k) ≡ false
    → get
        (lifecycle_job_claim_due chrono s now tenant user owner now_nanos limit
          lease).0.lifecycle_jobs
        k
      ≡ get s.lifecycle_jobs k
unfolding lifecycle_job_claim_due
claim_due-refused chrono s now tenant user owner now_nanos limit lease k miss =
    let P : JobKey → Bool =
      λ j. is_claimable chrono tenant user now now_nanos j (get s.lifecycle_jobs j) in
    claim_keys-other P tenant user owner (u64_add now lease) s _ k
      (all-take P limit _ (all-sort_keys P s _ (all-retain P (map key_of_pair s.lifecycle_jobs))))
      miss

-- A claim of the jobs that are due leaves a job as it is that is of another tenant or user, is neither
-- queued nor running nor to be retried, has a lock that has not run out, or has a time of the next
-- attempt that cannot be read or is later than the time that is asked for.
pub claim_due-other :
    (chrono : Chrono) (s : LifecycleTables) (now : ℕ) (tenant user owner : String)
    (now_nanos limit lease : ℕ) (k : JobKey) (entry : JobEntry)
    → get s.lifecycle_jobs k ≡ some entry
    → (k.0 ≢ tenant)
      ⊎ (k.1 ≢ user)
      ⊎ (entry.job.status ≢ "queued")
        × (entry.job.status ≢ "running")
        × (entry.job.status ≢ "retry_pending")
      ⊎ ((until : ℕ) × (entry.locked_until ≡ some until) × (now < until))
      ⊎ ((due : ℕ) → timestamp_nanos chrono entry.job.next_attempt_at ≡ ok due → now_nanos < due)
    → get
        (lifecycle_job_claim_due chrono s now tenant user owner now_nanos limit
          lease).0.lifecycle_jobs
        k
      ≡ some entry
unfolding is_claimable
claim_due-other chrono s now tenant user owner now_nanos limit lease k entry there why =
    claim_due-refused chrono s now tenant user owner now_nanos limit lease k
      (rw there (refused why))
    ∙ there
  where
    refused :
        (k.0 ≢ tenant)
          ⊎ (k.1 ≢ user)
          ⊎ (entry.job.status ≢ "queued")
            × (entry.job.status ≢ "running")
            × (entry.job.status ≢ "retry_pending")
          ⊎ ((until : ℕ) × (entry.locked_until ≡ some until) × (now < until))
          ⊎ ((due : ℕ)
              → timestamp_nanos chrono entry.job.next_attempt_at ≡ ok due
              → now_nanos < due)
        → is_claimable chrono tenant user now now_nanos k (some entry) ≡ false
    refused (inl elsewhere) = ground (arith, str_iff k.0 tenant)
    refused (inr (inl other)) = ground (arith, str_iff k.1 user)
    refused (inr (inr (inl (a, b, c)))) = ground (
      arith,
      str_iff entry.job.status "queued",
      str_iff entry.job.status "running",
      str_iff entry.job.status "retry_pending",
    )
    refused (inr (inr (inr (inl (until, locked, later))))) = ground arith
    refused (inr (inr (inr (inr later)))) =
        elim (CoreResult-cases (timestamp_nanos chrono entry.job.next_attempt_at)) [
          | inl (due, read) ↦ let after = later due read in ground arith
          | inr (failure, unread) ↦ ground arith
        ]
