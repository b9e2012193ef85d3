-- ===== src/Governance/Outcomes.antt =====
-- What a forget that succeeds has done.
use mathlib.Core.Path.{subst}
use nextral.Reminders.Delivery.{acknowledged}
use nextral.Base.{
  is_empty, all, ◌≡◌, ap, arith, inl, inr, true, false, String, none, some, List, Bool-cases,
  string_eq, str_iff,
}
use nextral.Kinds.{redacted, status_eq}
use nextral.Contracts.{CoreResult, ok, err, CoreResult-cases}
use nextral.Actions.{lift, attempt, action_value, action_rest}
use nextral.Memories.Records.{MemoryRecord}
use nextral.Reminders.Records.{StoreReceipt}
use nextral.Json.{Value}
use nextral.Memories.Store.{key_of}
use nextral.Audit.{AuditEvent, forget_completed, forget_requested}
use nextral.Governance.Interface.{
  ForgetMemoryRequest, ForgetMemoryResponse, GovernanceStore, GovernanceLibraries,
}
use nextral.Governance.{
  is_live, forget_key, put_receipts, event_of, is_settled, audit, settle, save_response, propagate,
  answered, ask_stores, tell, store_tombstone, finish,
}

module _ {S : Type 0} (store : GovernanceStore S) (libraries : GovernanceLibraries)
    (request : ForgetMemoryRequest) where
  -- The response says that it is completed only where every store has acknowledged.
  abbrev pub IsHonest : ForgetMemoryResponse → Type 0
  IsHonest response =
      response.status ≡ "completed"
      → (is_empty response.receipts ≡ false)
        × (all acknowledged response.receipts ≡ true)
        × (response.last_error ≡ none)

  settle-IsHonest :
      (response after : ForgetMemoryResponse) (answer : CoreResult (List StoreReceipt)) (s t : S)
      → response.status ≡ "incomplete"
      → settle store libraries request response answer s ≡ (t, ok after)
      → IsHonest after
  unfolding settle
  settle-IsHonest response after (err failure) s t open_yet went done =
      absurd (ground (arith, str_iff "incomplete" "completed"))
  settle-IsHonest response after (ok receipts) s t open_yet went done =
      ground (arith, str_iff "incomplete" "completed")

  -- The record is a tombstone of the memory that the request names, a redacted one where that is asked.
  pub record IsHidden (r : MemoryRecord) : Type 0 where
    pub named : key_of r ≡ (request.tenant_id, request.user_id, request.memory_id)
    pub not_live : is_live r.status ≡ false
    pub blanked : request.redact ≡ true → r.status ≡ redacted

  -- What a store promises about a memory that is gone: it is once its tombstone was stored, and the
  -- other calls of a forget leave it so.
  pub record Forgets (Gone : S → Type 0) : Type 0 where
    pub found_key :
        (r : MemoryRecord) (s : S)
        → store.get_memory request.tenant_id request.user_id request.memory_id s ≡ ok (some r)
        → key_of r ≡ (request.tenant_id, request.user_id, request.memory_id)
    pub gone :
        (r : MemoryRecord) (s t : S) → IsHidden r → store.update_memory r s ≡ (t, ok tt) → Gone t
    pub kept_save :
        (tenant key : String) (value : Value) (s : S)
        → Gone s
        → Gone (store.lifecycle_save tenant key value s).0
    pub kept_audit : (event : AuditEvent) (s : S) → Gone s → Gone (store.emit_audit event s).0
    pub kept_forget :
        (s : S)
        → Gone s
        → Gone
            (store.lifecycle_forget request.tenant_id request.user_id request.memory_id
              request.redact s).0

  module _ (Gone : S → Type 0) (laws : Forgets Gone) where
    save-Gone :
        (response : ForgetMemoryResponse) (s t : S)
        → Gone s
        → save_response store libraries request response s ≡ (t, ok tt)
        → Gone t
    save-Gone response s t before went = elim (CoreResult-cases (libraries.to_value response)) [
      | inr (failure, refused) ↦ absurd (ground arith)
      | inl (value, written) ↦
          let kept =
            laws.kept_save request.tenant_id (forget_key store libraries request) value s before in
          let same : (store.lifecycle_save request.tenant_id (forget_key store libraries request)
                value s).0
              ≡ t =
            ground arith in
          subst Gone same kept
    ]

    settle-Gone :
        (response after : ForgetMemoryResponse) (answer : CoreResult (List StoreReceipt)) (s t : S)
        → Gone s
        → settle store libraries request response answer s ≡ (t, ok after)
        → Gone t
    unfolding settle audit
    settle-Gone response after (err failure) s t before went =
        subst Gone (ap (λ did. did.0) went) before
    settle-Gone response after (ok receipts) s t before went =
        let kept : List StoreReceipt = put_receipts response.receipts receipts in
        elim (Bool-cases (is_settled store libraries request kept)) [
          | inl settled ↦
              let event = event_of store libraries request forget_completed "completed" s in
              let same : (store.emit_audit event s).0 ≡ t = ground arith in
              subst Gone same (laws.kept_audit event s before)
          | inr short ↦ subst Gone (ground arith) before
        ]

    noted_Gone :
        (s t : S)
        → Gone s
        → audit store libraries request forget_requested "requested" s ≡ (t, ok tt)
        → Gone t
    unfolding audit
    noted_Gone s t before went =
        let event = event_of store libraries request forget_requested "requested" s in
        subst Gone (ap (λ did. did.0) went) (laws.kept_audit event s before)

    forgot_Gone :
        (s t : S) (answer : CoreResult (List StoreReceipt))
        → Gone s
        → attempt
            (store.lifecycle_forget request.tenant_id request.user_id request.memory_id
              request.redact)
            s
          ≡ (t, ok answer)
        → Gone t
    forgot_Gone s t answer before went =
        subst Gone (ap (λ did. did.0) went) (laws.kept_forget s before)

    -- A tombstone that is propagated makes the memory gone, and the response is honest.
    pub propagate-Gone :
        (r : MemoryRecord) (response after : ForgetMemoryResponse) (s t : S)
        → IsHidden r
        → response.status ≡ "incomplete"
        → propagate store libraries request (r, response) s ≡ (t, ok after)
        → Gone t × IsHonest after
    unfolding propagate store_tombstone tell ask_stores answered
    propagate-Gone r response after s t hidden open_yet went =
        let (u, later, saved) =
          action_rest (save_response store libraries request response)
            (store_tombstone store libraries request r response) s went in
        let (v, told, stored) =
          action_rest (store.update_memory r) (tell store libraries request response) u later in
        let (w, asked, noted) =
          action_rest (audit store libraries request forget_requested "requested")
            (ask_stores store libraries request response) v told in
        let (answer, x, answers, forgot) =
          action_value
            (attempt (
              store.lifecycle_forget request.tenant_id request.user_id request.memory_id
                request.redact))
            (answered store libraries request response) w asked in
        let (settled, y, finishes, settles) =
          action_value (settle store libraries request response answer)
            (finish store libraries request) x answers in
        let (z, closes, kept) =
          action_rest (save_response store libraries request settled) (lift (ok settled)) y
            finishes in
        let same_state : z ≡ t = ap (λ did. did.0) closes in
        let same_response : settled ≡ after = ground (arith, closes) in
        let gone_v = laws.gone r u v hidden stored in
        let gone_w = noted_Gone v w gone_v noted in
        let gone_x = forgot_Gone w x answer gone_w forgot in
        let gone_y = settle-Gone response settled answer x y gone_x settles in
        let gone_z = save-Gone settled y z gone_y kept in
        (
          subst Gone same_state gone_z,
          subst IsHonest same_response
              (settle-IsHonest response settled answer x y open_yet settles),
        )
