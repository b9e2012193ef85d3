-- ===== src/Governance/Tables.antt =====
-- runtime/storage.rs, `impl LifecycleStore for TestMemoryStore`, lifecycle_forget: a memory is forgotten
-- across the tables of the store, and with it what was derived from the same messages. What is done to a
-- JSON document that refers to a memory is a parameter.
use nextral.Base.{
  ℕ, Bool, true, false, not, ◌&&◌, ◌||◌, String, Option, none, some, List, [], ◌∷◌, map, any,
  contains, retain, ◌==◌, string_eq, pair_eq, triple_eq, if◌then◌else◌,
}
use nextral.Kinds.{soft_deleted, redacted, status_eq}
use nextral.Contracts.{CoreResult, ok, err, not_found, ◌>>=◌}
use nextral.Actions.{Action}
use nextral.Json.{Value}
use nextral.Memories.Records.{MemoryRecord, TransitionMetadata}
use nextral.Memories.Life.{transition}
use nextral.Memories.Store.{find_memory}
use nextral.Graph.Ingestion.{GraphTables}
use nextral.Sessions.{SessionMessage}
use nextral.Reminders.Records.{
  ReminderRecord, ReminderStatus, StoreReceipt, completed, cancelled, expired, source_unavailable,
}
use nextral.Governance.{is_live}

-- The vectors are kept by tenant, user, collection and memory; a coordinate is the bits of an f32.
pub record ForgetTables : Type 0 where
  pub graph : GraphTables
  pub session_messages : List SessionMessage
  pub reminders : List ReminderRecord
  pub lifecycle_vectors : List ((String × String × String × String) × List ℕ)

abbrev pub receipt_ok : String → String → String → StoreReceipt
receipt_ok backend operation id = record {
  backend = backend;
  operation = operation;
  target_id = some id;
  status = "ok";
}

-- `transition(...)?`
abbrev pub tried :
    MemoryRecord × CoreResult TransitionMetadata → MemoryRecord × CoreResult (Unit {0})
tried (m, err failure) = (m, err failure)
tried (m, ok log) = (m, ok tt)

abbrev pub hide_derived : String → String → MemoryRecord → MemoryRecord × CoreResult (Unit {0})
hide_derived user now m =
    if is_live m.status
    then tried (transition m soft_deleted user "source forgotten" now)
    else (m, ok tt)

abbrev pub redact_derived :
    String
    → Bool
    → String
    → MemoryRecord × CoreResult (Unit {0})
    → MemoryRecord × CoreResult (Unit {0})
redact_derived user redact now (m, err failure) = (m, err failure)
redact_derived user redact now (m, ok done) =
    if redact && m.status == soft_deleted
    then tried (transition m redacted user "source redacted" now)
    else (m, ok tt)

-- A memory that goes with the one that is forgotten: it is hidden, and redacted where that is asked. A
-- transition that is refused ends the call with what was done so far.
unfoldable pub forget_derived :
    String → Bool → String → MemoryRecord → MemoryRecord × CoreResult (Unit {0})
forget_derived user redact now m = redact_derived user redact now (hide_derived user now m)

-- The memory is another one of the user, made of one of the messages.
abbrev pub is_derived : String → String → String → List String → MemoryRecord → Bool
is_derived tenant user id sources m =
    m.tenant_id == tenant
    && m.user_id == user
    && not (m.id == id)
    && any (contains sources) m.source_message_ids

-- The loop over the memories, with those that it has affected.
unfoldable pub cascade :
    String
    → String
    → String
    → List String
    → Bool
    → String
    → List MemoryRecord
    → List MemoryRecord × CoreResult (List MemoryRecord)
unfolding forget_derived
cascade tenant user id sources redact now [] = ([], ok [])
cascade tenant user id sources redact now (m ∷ ms) =
    let rest = cascade tenant user id sources redact now ms in
    let did = forget_derived user redact now m in
    if is_derived tenant user id sources m
    then elim did.1 [
      | err failure ↦ (did.0 ∷ ms, err failure)
      | ok done ↦ (did.0 ∷ rest.0, rest.1 >>= λ affected. ok (did.0 ∷ affected))
    ]
    else (m ∷ rest.0, rest.1)

abbrev has_id : List MemoryRecord → String → Bool
has_id affected id = any (λ m. m.id == id) affected

abbrev is_closed : ReminderStatus → Bool
is_closed completed = true
is_closed cancelled = true
is_closed expired = true
is_closed _ = false

abbrev blank_text : ReminderRecord → ReminderRecord
blank_text r = record r { title = "[redacted]"; details = "" }

-- A reminder of a memory that is gone.
abbrev pub withdraw : String → String → List MemoryRecord → ReminderRecord → ReminderRecord
withdraw tenant user affected r =
    if r.tenant_id == tenant && r.user_id == user && has_id affected r.source_memory_id
    then (if is_closed r.status then blank_text r else record (blank_text r) {
      status = cancelled;
      terminal_reason = some source_unavailable;
    })
    else r

-- What is done to the documents that refer to a memory: `lifecycle_state_references` and
-- `scrub_lifecycle_state`, which work on the JSON text of the document.
pub record Documents : Type 0 where
  pub lifecycle_state_references : String → Value → MemoryRecord → Bool
  pub scrub_lifecycle_state : String → Value → MemoryRecord → Option Value

module _ (documents : Documents) where
  unfoldable pub scrub :
      String → MemoryRecord → List ((String × String) × Value) → List ((String × String) × Value)
  scrub tenant memory [] = []
  scrub tenant memory ((key, value) ∷ rest) =
      let later = scrub tenant memory rest in
      if not (key.0 == tenant) || not (documents.lifecycle_state_references key.1 value memory)
      then (key, value) ∷ later
      else elim (documents.scrub_lifecycle_state key.1 value memory) [
        | none ↦ later
        | some scrubbed ↦ (key, scrubbed) ∷ later
      ]

  unfoldable pub scrub_all :
      String
      → List MemoryRecord
      → List ((String × String) × Value)
      → List ((String × String) × Value)
  unfolding scrub
  scrub_all tenant [] state = state
  scrub_all tenant (memory ∷ rest) state = scrub_all tenant rest (scrub tenant memory state)

  -- The tables once the affected memories are known.
  abbrev pub forget_in :
      String
      → String
      → MemoryRecord
      → List MemoryRecord
      → List MemoryRecord
      → ForgetTables
      → ForgetTables
  forget_in tenant user r affected memories s = record s {
    graph = record s.graph {
      tables = record {
        memories = memories;
        graph_edges =
            retain
              (λ edge. not (
                edge.tenant_id == tenant
                && edge.user_id == user
                && any (has_id affected) edge.source_memory_ids))
              s.graph.tables.graph_edges;
        lifecycle_state = scrub_all tenant affected s.graph.tables.lifecycle_state;
      };
    };
    session_messages =
        retain
          (λ m.
            not (m.tenant_id == tenant && m.user_id == user && contains r.source_message_ids m.id))
          s.session_messages;
    reminders = map (withdraw tenant user affected) s.reminders;
    lifecycle_vectors =
        retain
          (λ entry.
            not (entry.0.0 == tenant) || not (entry.0.1 == user) || not (has_id affected entry.0.3))
          s.lifecycle_vectors;
  }

  -- `now` is the text of the present second.
  unfoldable pub lifecycle_forget :
      String → String → String → String → Bool → Action ForgetTables (List StoreReceipt)
  unfolding cascade scrub_all find_memory
  lifecycle_forget now tenant user id redact s =
      elim (find_memory s.graph.tables (tenant, user, id)) [
        | none ↦ (s, err (not_found "memory not found"))
        | some r ↦
            let did =
              cascade tenant user id r.source_message_ids redact now s.graph.tables.memories in
            elim did.1 [
              | err failure ↦ (
                record s {
                  graph = record s.graph { tables = record s.graph.tables { memories = did.0 } };
                },
                err failure,
              )
              | ok derived ↦ (
                forget_in tenant user r (r ∷ derived) did.0 s,
                ok (
                    receipt_ok "test_memory" "forget" id
                    ∷ receipt_ok "test_graph" "forget" id
                    ∷ []),
              )
            ]
      ]
