-- ===== src/Governance/Erasure.antt =====
-- runtime/governance.rs: what a forget leaves of the memory, for stores with the laws of Outcomes.
use nextral.Base.{
  ◌≡◌, refl, ap, ◌∙◌, sym, arith, ◌⊎◌, inl, inr, true, false, String, Option, none, some,
  Bool-cases, string_eq, str_iff,
}
use nextral.Kinds.{soft_deleted, status_eq}
use nextral.Memories.Life.{transition}
use nextral.Json.{Value}
use nextral.Contracts.{not_found, CoreResult, err, ok, ok_value, ok_or, CoreResult-cases}
use nextral.Actions.{◌>>=◌, reads, lift, for_each, action_value, action_rest}
use nextral.Memories.Records.{MemoryRecord, TransitionMetadata}
use nextral.Memories.Store.{key_of}
use nextral.Governance.Interface.{
  ForgetMemoryRequest, ForgetMemoryResponse, GovernanceStore, GovernanceLibraries,
}
use nextral.Governance.{
  is_live, moved_to, is_done, fresh, forget_key, begin, hide, erase, save_response, save_tombstone,
  propagate, erase_then, hide_then, mark_sources, carry_out, resumed, go_on, begin_with, find_then,
  forget_claimed,
}
use nextral.Governance.Outcomes.{IsHonest, Forgets, propagate-Gone}
use nextral.Governance.Moves.{hide_lem, erase_lem, begin_lem}

module _ {S : Type 0} (store : GovernanceStore S) (libraries : GovernanceLibraries)
    (request : ForgetMemoryRequest) where
  found_of :
      (found : Option MemoryRecord) (r : MemoryRecord)
      → ok_or found (not_found "memory not found") ≡ ok r
      → found ≡ some r
  found_of none r h = absurd (ground arith)
  found_of (some m) r h = ground arith

  done_status :
      (r : MemoryRecord) (response : ForgetMemoryResponse)
      → is_done request r response ≡ true
      → response.status ≡ "completed"
  done_status r response done = (str_iff response.status "completed").0 (ground arith)

  go_on_done :
      (r : MemoryRecord) (response : ForgetMemoryResponse) (s : S)
      → is_done request r response ≡ true
      → (s, ok response) ≡ go_on store libraries request (r, response) s
  unfolding go_on
  go_on_done r response s done = rw (done, go_on) refl

  go_on_more :
      (r : MemoryRecord) (response : ForgetMemoryResponse) (s : S)
      → is_done request r response ≡ false
      → go_on store libraries request (r, response) s
        ≡ carry_out store libraries request r (resumed store libraries request response) s
  unfolding go_on
  go_on_more r response s more = rw (more, go_on) refl

  not_both : ◌≡◌ {A = String} "incomplete" "completed" → ⊥
  not_both e = absurd (ground (arith, (str_iff "incomplete" "completed").1 e))

  opened_status :
      (given : CoreResult (MemoryRecord × TransitionMetadata)) (begun : MemoryRecord)
      (response : ForgetMemoryResponse)
      → elim given as (λ x. CoreResult (MemoryRecord × ForgetMemoryResponse)) [
        | err failure ↦ err failure
        | ok moved ↦ ok (moved.0, fresh store libraries request moved.1)
      ]
        ≡ ok (begun, response)
      → response.status ≡ "incomplete"
  opened_status (err failure) begun response went = cc
  opened_status (ok moved) begun response went =
      sym (ap (λ (both : MemoryRecord × ForgetMemoryResponse). both.1.status) (ok_value went))

  -- Only a response that was stored before leaves nothing to do.
  done_before :
      (r begun : MemoryRecord) (existing : Option Value) (response : ForgetMemoryResponse)
      (now : String)
      → begin store libraries request r existing now ≡ ok (begun, response)
      → is_done request begun response ≡ true
      → (value : Value) × (existing ≡ some value) × (libraries.from_value value ≡ ok response)
  unfolding begin
  done_before r begun (some value) response now went done =
      elim (CoreResult-cases (libraries.from_value value)) [
        | inr (failure, refused) ↦ absurd (ground arith)
        | inl (stored, parsed) ↦ (value, refl, ground arith)
      ]
  done_before r begun none response now went done = elim (Bool-cases (is_live r.status)) [
    | inr hidden ↦
        let fresh_status : response.status ≡ "incomplete" = ground (arith, hidden, went) in
        absurd (not_both (sym fresh_status ∙ done_status begun response done))
    | inl live ↦
        let fresh_status : response.status ≡ "incomplete" =
          opened_status (moved_to (transition r soft_deleted request.actor request.reason now))
            begun response (rw live at went) in
        absurd (not_both (sym fresh_status ∙ done_status begun response done))
  ]

  module _ (Gone : S → Type 0) (laws : Forgets store libraries request Gone) where
    carry_out-Gone :
        (r : MemoryRecord) (response after : ForgetMemoryResponse) (s t : S)
        → key_of r ≡ (request.tenant_id, request.user_id, request.memory_id)
        → response.status ≡ "incomplete"
        → carry_out store libraries request r response s ≡ (t, ok after)
        → Gone t × IsHonest store libraries request after
    unfolding carry_out mark_sources hide_then erase_then
    carry_out-Gone r response after s t mine open_yet went =
        let (u, marks, saved) =
          action_rest (save_response store libraries request response)
            (mark_sources store libraries request r response) s went in
        let (v, hides, marked) =
          action_rest (for_each (save_tombstone store libraries request) r.source_message_ids)
            (hide_then store libraries request r response) u marks in
        let ((hidden, told), w, erases, hid) =
          action_value
            (reads (λ x. hide store libraries request r response (store.now_timestamp x)))
            (erase_then store libraries request) v hides in
        let ((blank, noted), x, propagates, erased) =
          action_value
            (reads (λ y. erase store libraries request hidden told (store.now_timestamp y)))
            (propagate store libraries request) w erases in
        let (key_hidden, not_live, status_told) =
          hide_lem store libraries request r hidden response told (store.now_timestamp v)
            (ap (λ did. did.1) hid) in
        let (key_blank, gone, blanked, status_noted) =
          erase_lem store libraries request hidden blank told noted (store.now_timestamp w) not_live
            (ap (λ did. did.1) erased) in
        propagate-Gone store libraries request Gone laws blank noted after x t
          (record { named = key_blank ∙ key_hidden ∙ mine; not_live = gone; blanked = blanked })
          (status_noted ∙ status_told ∙ open_yet) propagates

    go_on-Gone :
        (r : MemoryRecord) (response after : ForgetMemoryResponse) (s t : S)
        → key_of r ≡ (request.tenant_id, request.user_id, request.memory_id)
        → go_on store libraries request (r, response) s ≡ (t, ok after)
        → (is_done request r response ≡ true) × (response ≡ after) × (s ≡ t)
          ⊎ Gone t × IsHonest store libraries request after
    go_on-Gone r response after s t mine went = elim (Bool-cases (is_done request r response)) [
      | inl done ↦ inl (
          let stopped : (s, ok response) ≡ (t, ok after) = go_on_done r response s done ∙ went in
          (done, ok_value (ap (λ did. did.1) stopped), ap (λ did. did.0) stopped))
      | inr more ↦ inr (
          carry_out-Gone r (resumed store libraries request response) after s t mine refl
            (sym (go_on_more r response s more) ∙ went))
    ]

    -- A forget that succeeds gives back the response that was stored for it, which says "completed", and
    -- changes nothing; or it leaves the memory gone, and its response says "completed" only if every
    -- store has acknowledged.
    pub forget_claimed-Gone :
        (after : ForgetMemoryResponse) (s t : S)
        → forget_claimed store libraries request s ≡ (t, ok after)
        → ((value : Value) × (store.lifecycle_load request.tenant_id
                (forget_key store libraries request)
                s
              ≡ ok (some value))
            × (libraries.from_value value ≡ ok after)
            × (after.status ≡ "completed")
            × (t ≡ s))
          ⊎ Gone t × IsHonest store libraries request after
    unfolding forget_claimed find_then begin_with go_on
    forget_claimed-Gone after s t went =
        let (existing, u, finds, loaded) =
          action_value
            (reads (store.lifecycle_load request.tenant_id (forget_key store libraries request)))
            (find_then store libraries request) s went in
        let (found, v, takes, read) =
          action_value
            (reads (store.get_memory request.tenant_id request.user_id request.memory_id))
            (λ m.
              lift (ok_or m (not_found "memory not found"))
              >>= begin_with store libraries request existing)
            u finds in
        let (r, w, begins, there) =
          action_value (lift (ok_or found (not_found "memory not found")))
            (begin_with store libraries request existing) v takes in
        let ((begun, response), x, goes, began) =
          action_value
            (reads (λ y. begin store libraries request r existing (store.now_timestamp y)))
            (go_on store libraries request) w begins in
        let unchanged : x ≡ s = sym (
          ap (λ did. did.0) loaded
          ∙ ap (λ did. did.0) read
          ∙ ap (λ did. did.0) there
          ∙ ap (λ did. did.0) began) in
        let is_found : found ≡ some r = found_of found r (ap (λ did. did.1) there) in
        let mine : key_of r ≡ (request.tenant_id, request.user_id, request.memory_id) =
          laws.found_key r u (ap (λ did. did.1) read ∙ ap (λ m. ok m) is_found) in
        let same_key =
          begin_lem store libraries request r begun existing response (store.now_timestamp w)
            (ap (λ did. did.1) began) in
        elim (go_on-Gone begun response after x t (same_key ∙ mine) goes) [
          | inr forgotten ↦ inr forgotten
          | inl (done, same, stays) ↦
              let (value, there, parsed) =
                done_before r begun existing response (store.now_timestamp w)
                  (ap (λ did. did.1) began) done in
              inl (
                value,
                ap (λ did. did.1) loaded ∙ ap (λ v. ok v) there,
                parsed ∙ ap (λ given. ok given) same,
                ap (λ given. given.status) (sym same) ∙ done_status begun response done,
                sym stays ∙ unchanged,
              )
        ]
