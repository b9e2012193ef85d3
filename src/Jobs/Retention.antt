-- ===== src/Jobs/Retention.antt =====
-- runtime/prospective.rs, execute_lifecycle_jobs: which memories a retention job has dealt with.
use mathlib.Core.Path.{subst}
use mathlib.Core.List.{append_assoc, append-nil}
use nextral.Base.{
  ◌≡◌, refl, ap, ◌∙◌, sym, arith, inl, inr, Bool, true, false, String, List, [], ◌∷◌, ◌++◌,
  contains, contains-append, Bool-cases, ◌==◌, string_eq, str_iff,
}
use nextral.Contracts.{ok}
use nextral.Actions.{Action, ◌>>=◌, action_value, action_rest, for_each, for_each_value}
use nextral.Lifecycle.Records.{LeaseClaim, LifecycleScheduledJob}
use nextral.Governance.Interface.{ForgetMemoryResponse}
use nextral.Governance.Leased.{retain_memory}
use nextral.Jobs.Interface.{RunLifecycleJobsRequest, JobStore, JobLibraries}
use nextral.Jobs.{is_retention}
use nextral.Jobs.Execution.{
  Running, on_store, forget_request, fence_job, note_retained, check_retained, retain_one,
  retain_all, do_work, complete, work,
}

module _ {S : Type 0} (store : JobStore S) (libraries : JobLibraries)
    (request : RunLifecycleJobsRequest) (claim : LeaseClaim) where
  abbrev pub retaining : LifecycleScheduledJob → String → Action S ForgetMemoryResponse
  retaining job id =
      retain_memory store.governance libraries.governance
        (forget_request store libraries request job id) (fence_job store libraries request claim)

  -- A run of retentions: each memory, none of which the job had noted, is retained from the state that
  -- the one before it left, the forget is answered with "completed", and the job is saved with the
  -- memory noted.
  pub data Retentions : Running S → List String → Running S → Type 0 where
    none_yet : {running : Running S} → Retentions running [] running
    and_one :
        {running mid next : Running S} {id : String} {ids : List String} (u : S)
        (response : ForgetMemoryResponse)
        → contains running.job.completed_memory_ids id ≡ false
        → retaining running.job id running.state ≡ (u, ok response)
        → response.status ≡ "completed"
        → note_retained store libraries request claim id (record { state = u; job = running.job })
          ≡ (mid, ok tt)
        → Retentions mid ids next
        → Retentions running (id ∷ ids) next

  -- The memories that the job has noted.
  abbrev noted : Running S → String → Bool
  noted running id = contains running.job.completed_memory_ids id

  check_noted :
      (id : String) (response : ForgetMemoryResponse) (running : Running S)
      → (response.status == "completed") ≡ true
      → check_retained store libraries request claim id response running
        ≡ note_retained store libraries request claim id running
  check_noted id response running good = rw good refl

  check_retained_lem :
      (id : String) (response : ForgetMemoryResponse) (running next : Running S)
      → check_retained store libraries request claim id response running ≡ (next, ok tt)
      → (response.status ≡ "completed")
        × (note_retained store libraries request claim id running ≡ (next, ok tt))
  check_retained_lem id response running next went =
      elim (Bool-cases (response.status == "completed")) [
        | inr other ↦ absurd (ground (arith, other, went))
        | inl good ↦ (
          (str_iff response.status "completed").0 good,
          sym (check_noted id response running good) ∙ went,
        )
      ]

  -- What a note leaves in the job.
  note_lem :
      (id : String) (running next : Running S)
      → note_retained store libraries request claim id running ≡ (next, ok tt)
      → next.job.completed_memory_ids ≡ running.job.completed_memory_ids ++ (id ∷ [])
  note_lem id running next went = sym (ap (λ did. did.0.job.completed_memory_ids) went)

  retain_one_old :
      (id : String) (running : Running S)
      → noted running id ≡ true
      → retain_one store libraries request claim id running ≡ (running, ok tt)
  unfolding retain_one
  retain_one_old id running before = rw (before, retain_one) refl

  retain_one_new :
      (id : String) (running : Running S)
      → noted running id ≡ false
      → retain_one store libraries request claim id running
        ≡ (on_store (retaining running.job id) >>= check_retained store libraries request claim id)
            running
  unfolding retain_one
  retain_one_new id running new = rw (new, retain_one) refl

  -- The retentions that a loop has done, and what they leave in the job.
  record Retaining (running next : Running S) : Type 0 where
    ids : List String
    runs : Retentions running ids next
    notes : next.job.completed_memory_ids ≡ running.job.completed_memory_ids ++ ids

  retain_one-Retaining :
      (id : String) (running mid : Running S)
      → retain_one store libraries request claim id running ≡ (mid, ok tt)
      → (noted mid id ≡ true) × ((next : Running S) → Retaining mid next → Retaining running next)
  retain_one-Retaining id running mid went = elim (Bool-cases (noted running id)) [
    | inl before ↦
        let same : running ≡ mid =
          ap (λ did. did.0) (sym (retain_one_old id running before) ∙ went) in
        (
          ap (λ r. noted r id) (sym same) ∙ before,
          λ next more. subst (λ r. Retaining r next) (sym same) more,
        )
    | inr new ↦
        let (response, asked, checks, answered) =
          action_value (on_store (retaining running.job id))
            (check_retained store libraries request claim id) running
            (sym (retain_one_new id running new) ∙ went) in
        let (good, noting) = check_retained_lem id response asked mid checks in
        let job_kept : asked.job ≡ running.job = sym (ap (λ did. did.0.job) answered) in
        let noted_now : note_retained store libraries request claim id
              (record { state = asked.state; job = running.job })
            ≡ (mid, ok tt) =
          subst
            (λ j.
              note_retained store libraries request claim id
                (record { state = asked.state; job = j })
              ≡ (mid, ok tt))
            job_kept noting in
        let grown = note_lem id (record { state = asked.state; job = running.job }) mid noted_now in
        (
          ap (λ ids. contains ids id) grown
              ∙ contains-append running.job.completed_memory_ids (id ∷ []) id
              ∙ ground (arith, str_iff id id),
          λ next more. record {
            ids = id ∷ more.ids;
            runs =
                and_one asked.state response new (ap (λ did. (did.0.state, did.1)) answered) good
                  noted_now more.runs;
            notes =
                more.notes
                ∙ ap (λ ids. ids ++ more.ids) grown
                ∙ append_assoc running.job.completed_memory_ids (id ∷ []) more.ids;
          },
        )
  ]

  retain_all-Retaining :
      (ids : List String) (running next : Running S)
      → retain_all store libraries request claim ids running ≡ (next, ok tt)
      → Retaining running next × ((id : String) → contains ids id ≡ true → noted next id ≡ true)
  unfolding retain_all for_each
  retain_all-Retaining [] running next went = (
    subst (Retaining running) (ap (λ did. did.0) went)
        (record { ids = []; runs = none_yet; notes = sym (append-nil _) }),
    λ id there. cc,
  )
  retain_all-Retaining (id ∷ ids) running next went =
      let (mid, one, rest) =
        for_each_value (retain_one store libraries request claim) id ids running next went in
      let (here, before) = retain_one-Retaining id running mid one in
      let (others, all_there) = retain_all-Retaining ids mid next rest in
      (
        before next others,
        λ j there. elim (Bool-cases (id == j)) [
          | inl same ↦
              subst (λ k. noted next k ≡ true) ((str_iff id j).0 same)
                (ap (λ known. contains known id) others.notes
                  ∙ contains-append mid.job.completed_memory_ids others.ids id
                  ∙ ground (arith, here))
          | inr other ↦ all_there j (ground (arith, other, there))
        ],
      )

  do_work_retains :
      (running next : Running S)
      → is_retention running.job.request.trigger ≡ true
      → do_work store libraries request claim running ≡ (next, ok tt)
      → retain_all store libraries request claim running.job.request.memory_ids running
        ≡ (next, ok tt)
  unfolding do_work
  do_work_retains running next retention_job went = rw (retention_job, do_work) at went

  -- The work of a retention succeeds only after a run of retentions, each answered with "completed" and
  -- each in the store that the one before it left, of memories that the job had not noted; the job is
  -- then completed in the store that the last one left. In the end the job has noted what it had before
  -- and exactly those memories, in their order, and every memory that it names is among them.
  pub retention_complete :
      (running next : Running S)
      → is_retention running.job.request.trigger ≡ true
      → work store libraries request claim running ≡ (next, ok tt)
      → (ids : List String) × (last : Running S) × Retentions running ids last
        × (complete store libraries request claim last ≡ (next, ok tt))
        × (next.job.completed_memory_ids ≡ running.job.completed_memory_ids ++ ids)
        × ((id : String)
            → contains running.job.request.memory_ids id ≡ true
            → contains next.job.completed_memory_ids id ≡ true)
  unfolding work
  retention_complete running next retention_job went =
      let (last, completes, worked) =
        action_rest (do_work store libraries request claim) (complete store libraries request claim)
          running went in
      let (retained, all_there) =
        retain_all-Retaining running.job.request.memory_ids running last
          (do_work_retains running last retention_job worked) in
      let same : last.job.completed_memory_ids ≡ next.job.completed_memory_ids =
        ap (λ did. did.0.job.completed_memory_ids) completes in
      (
        retained.ids,
        last,
        retained.runs,
        completes,
        sym same ∙ retained.notes,
        λ id named. ap (λ ids. contains ids id) (sym same) ∙ all_there id named,
      )
