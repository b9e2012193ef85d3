-- ===== src/Governance.antt =====
-- runtime/governance.rs: forgetting a memory across the stores, once and from a scheduled retention.
-- runtime/lifecycle.rs: acknowledged saves and the renewal of a lease.
pub mod Interface
pub mod Leased
pub mod Outcomes
pub mod Moves
pub mod Erasure
pub mod Tables
pub mod TestStore
pub mod Cascades
pub mod Forgotten
use nextral.Base.{
  ℕ, ◌+◌, ◌-◌, ◌^◌, min, Bool, true, false, not, ◌&&◌, ◌||◌, String, Option, none, some, is_some,
  List, [], ◌∷◌, ◌++◌, all, is_empty, ◌==◌, string_eq, is_blank, if◌then◌else◌,
}
use nextral.Kinds.{MemoryStatus, active, soft_deleted, redacted, archived, status_eq}
use nextral.Contracts.{
  CoreError, CoreResult, ok, err, invalid_input, not_found, refuse, ok_or, error_text,
}
use nextral.Actions.{Action, ◌>>=◌, ◌>>◌, reads, lift, attempt, for_each}
use nextral.Json.{Value, object, field, end, string, bool}
use nextral.Audit.{forget_requested, forget_completed, AuditAction, AuditEvent, audit_event}
use nextral.Timestamps.{timestamp_epoch}
use nextral.Scope.{validate_identity, validate_scope_component}
use nextral.Scope.Keys.{forget, forgotten_source, user_key, privacy_key}
use nextral.Memories.Records.{MemoryRecord, TransitionMetadata}
use nextral.Memories.Life.{transition}
use nextral.Reminders.Records.{StoreReceipt}
use nextral.Reminders.Delivery.{acknowledged}
use nextral.Governance.Interface.{
  ForgetMemoryRequest, ForgetMemoryResponse, GovernanceStore, GovernanceLibraries,
}

-- The record after the move, with the log of it.
abbrev pub moved_to :
    MemoryRecord × CoreResult TransitionMetadata → CoreResult (MemoryRecord × TransitionMetadata)
moved_to (r, err failure) = err failure
moved_to (r, ok log) = ok (r, log)

abbrev pub is_live : MemoryStatus → Bool
is_live active = true
is_live archived = true
is_live _ = false

abbrev same_receipt : StoreReceipt → StoreReceipt → Bool
same_receipt a b = a.backend == b.backend && a.operation == b.operation

-- The receipt of the same backend and operation is replaced; a new one is added at the end.
unfoldable pub put_receipt : List StoreReceipt → StoreReceipt → List StoreReceipt
put_receipt [] receipt = receipt ∷ []
put_receipt (previous ∷ rest) receipt =
    if same_receipt previous receipt then receipt ∷ rest else previous ∷ put_receipt rest receipt

unfoldable pub put_receipts : List StoreReceipt → List StoreReceipt → List StoreReceipt
unfolding put_receipt
put_receipts receipts [] = receipts
put_receipts receipts (receipt ∷ rest) = put_receipts (put_receipt receipts receipt) rest

abbrev pub tombstone : ForgetMemoryRequest → Value
tombstone request =
    object (field "memory_id" (string request.memory_id) (field "redact" (bool request.redact) end))

-- What is left to do of a response: nothing once it is completed, and redacted if that is asked.
abbrev pub is_done : ForgetMemoryRequest → MemoryRecord → ForgetMemoryResponse → Bool
is_done request r response =
    response.status == "completed"
    && (not request.redact || is_some response.redaction_transition || r.status == redacted)

module _ {S : Type 0} (store : GovernanceStore S) (libraries : GovernanceLibraries)
    (request : ForgetMemoryRequest) where
  abbrev pub forget_key : String
  forget_key = user_key forget request.user_id request.memory_id

  abbrev pub durable_save : String → String → Value → Action S (Unit {0})
  durable_save tenant key value = do
    receipt ← store.lifecycle_save tenant key value
    lift (
        refuse (not (acknowledged receipt))
          (invalid_input "durable state write was not acknowledged"))

  abbrev pub save_response : ForgetMemoryResponse → Action S (Unit {0})
  save_response response = do
    value ← lift (libraries.to_value response)
    durable_save request.tenant_id forget_key value

  abbrev pub save_tombstone : String → Action S (Unit {0})
  save_tombstone source =
      durable_save request.tenant_id (user_key forgotten_source request.user_id source)
        (tombstone request)

  abbrev pub fresh : TransitionMetadata → ForgetMemoryResponse
  fresh log = record {
    forget_transition = log;
    redaction_transition = none;
    receipts = [];
    status = "incomplete";
    attempts = 0;
    last_error = none;
  }

  abbrev pub existing_tombstone : MemoryRecord → TransitionMetadata
  existing_tombstone r = record {
    memory_id = r.id;
    from = r.status;
    to = r.status;
    actor = request.actor;
    reason = "existing canonical tombstone acknowledged";
    changed_at = r.updated_at;
  }

  -- The record and the response that the work goes on from.
  unfoldable pub begin :
      MemoryRecord → Option Value → String → CoreResult (MemoryRecord × ForgetMemoryResponse)
  begin r (some value) now = elim (libraries.from_value value) [
    | err failure ↦ err failure
    | ok response ↦ ok (r, response)
  ]
  begin r none now =
      if is_live r.status
      then elim (moved_to (transition r soft_deleted request.actor request.reason now)) [
        | err failure ↦ err failure
        | ok (hidden, log) ↦ ok (hidden, fresh log)
      ]
      else ok (r, fresh (existing_tombstone r))

  -- The record moves to the tombstone that the request asks for.
  unfoldable pub hide :
      MemoryRecord
      → ForgetMemoryResponse
      → String
      → CoreResult (MemoryRecord × ForgetMemoryResponse)
  hide r response now =
      if is_live r.status
      then elim (moved_to (transition r soft_deleted request.actor request.reason now)) [
        | err failure ↦ err failure
        | ok (hidden, log) ↦ ok (hidden, record response { forget_transition = log })
      ]
      else ok (r, response)

  unfoldable pub erase :
      MemoryRecord
      → ForgetMemoryResponse
      → String
      → CoreResult (MemoryRecord × ForgetMemoryResponse)
  erase r response now =
      if request.redact && r.status == soft_deleted
      then elim (moved_to (transition r redacted request.actor request.reason now)) [
        | err failure ↦ err failure
        | ok (blank, log) ↦ ok (blank, record response { redaction_transition = some log })
      ]
      else ok (r, response)

  unfoldable pub event_of : AuditAction → String → S → AuditEvent
  unfolding audit_event
  event_of action stage s =
      audit_event (libraries.deterministic_id (forget_key ∷ stage ∷ [])) request.tenant_id
        request.actor action "memory" (some request.memory_id) request.reason
        (store.now_timestamp s)

  unfoldable pub audit : AuditAction → String → Action S (Unit {0})
  unfolding event_of
  audit action stage s = store.emit_audit (event_of action stage s) s

  abbrev pub is_settled : List StoreReceipt → Bool
  is_settled receipts = not (is_empty receipts) && all acknowledged receipts

  -- What the answer of the stores makes of the response.
  unfoldable pub settle :
      ForgetMemoryResponse → CoreResult (List StoreReceipt) → Action S ForgetMemoryResponse
  unfolding audit
  settle response (err failure) =
      lift (ok (record response { last_error = some (error_text failure) }))
  settle response (ok receipts) =
      let kept : ForgetMemoryResponse = record response {
        receipts = put_receipts response.receipts receipts;
      } in
      if is_settled kept.receipts
      then (do
        audit forget_completed "completed"
        lift (ok (record kept { status = "completed"; last_error = none })))
      else lift (
          ok (record kept {
            last_error = some "one or more stores have not acknowledged forget propagation";
          }))

  abbrev pub finish : ForgetMemoryResponse → Action S ForgetMemoryResponse
  finish response = do save_response response; lift (ok response)

  unfoldable pub answered :
      ForgetMemoryResponse → CoreResult (List StoreReceipt) → Action S ForgetMemoryResponse
  unfolding settle
  answered response answer = settle response answer >>= finish

  unfoldable pub ask_stores : ForgetMemoryResponse → Action S ForgetMemoryResponse
  unfolding answered
  ask_stores response =
      attempt
        (store.lifecycle_forget request.tenant_id request.user_id request.memory_id request.redact)
      >>= answered response

  unfoldable pub tell : ForgetMemoryResponse → Action S ForgetMemoryResponse
  unfolding audit ask_stores
  tell response = do audit forget_requested "requested"; ask_stores response

  unfoldable pub store_tombstone :
      MemoryRecord → ForgetMemoryResponse → Action S ForgetMemoryResponse
  unfolding tell
  store_tombstone r response = do store.update_memory r; tell response

  -- The tombstone is stored, and then the stores are asked to forget.
  unfoldable pub propagate : MemoryRecord × ForgetMemoryResponse → Action S ForgetMemoryResponse
  unfolding store_tombstone
  propagate (r, response) = do save_response response; store_tombstone r response

  unfoldable pub erase_then : MemoryRecord × ForgetMemoryResponse → Action S ForgetMemoryResponse
  unfolding erase propagate
  erase_then (r, response) = reads (λ s. erase r response (store.now_timestamp s)) >>= propagate

  unfoldable pub hide_then : MemoryRecord → ForgetMemoryResponse → Action S ForgetMemoryResponse
  unfolding hide erase_then
  hide_then r response = reads (λ s. hide r response (store.now_timestamp s)) >>= erase_then

  unfoldable pub mark_sources : MemoryRecord → ForgetMemoryResponse → Action S ForgetMemoryResponse
  unfolding for_each hide_then
  mark_sources r response = do for_each save_tombstone r.source_message_ids; hide_then r response

  -- The intent and the tombstones of the sources are saved before anything is destroyed.
  unfoldable pub carry_out : MemoryRecord → ForgetMemoryResponse → Action S ForgetMemoryResponse
  unfolding mark_sources
  carry_out r response = do save_response response; mark_sources r response

  abbrev pub resumed : ForgetMemoryResponse → ForgetMemoryResponse
  resumed response = record response {
    attempts = min (response.attempts + 1) (2 ^ 32 - 1);
    status = "incomplete";
  }

  unfoldable pub go_on : MemoryRecord × ForgetMemoryResponse → Action S ForgetMemoryResponse
  unfolding carry_out
  go_on (r, response) =
      if is_done request r response then lift (ok response) else carry_out r (resumed response)

  unfoldable pub begin_with : Option Value → MemoryRecord → Action S ForgetMemoryResponse
  unfolding begin go_on
  begin_with existing r = reads (λ s. begin r existing (store.now_timestamp s)) >>= go_on

  unfoldable pub find_then : Option Value → Action S ForgetMemoryResponse
  unfolding begin_with
  find_then existing = do
    found ← reads (store.get_memory request.tenant_id request.user_id request.memory_id)
    lift (ok_or found (not_found "memory not found")) >>= begin_with existing

  unfoldable pub forget_claimed : Action S ForgetMemoryResponse
  unfolding find_then
  forget_claimed = reads (store.lifecycle_load request.tenant_id forget_key) >>= find_then
