-- ===== src/Examples/Forgets.antt =====
-- A forget over the store of the tests at a concrete input: a memory of a message, and one derived from
-- the same message.
use nextral.Base.{
  ◌≡◌, refl, ◌⊎◌, inl, inr, true, false, String, none, some, List, [], ◌∷◌, get, string_eq, pair_eq,
}
use nextral.Kinds.{active, soft_deleted, redacted}
use nextral.Contracts.{ok, err, io}
use nextral.Json.{Value, null}
use nextral.Scope.Keys.{user_key, forget}
use nextral.Memories.Records.{MemoryRecord}
use nextral.Memories.Store.{get_memory}
use nextral.Governance.Interface.{ForgetMemoryRequest, ForgetMemoryResponse, GovernanceLibraries}
use nextral.Governance.{is_live, forget_claimed}
use nextral.Governance.Outcomes.{IsHonest}
use nextral.Governance.Tables.{ForgetTables, Documents, receipt_ok}
use nextral.Governance.TestStore.{Surroundings, test_store}
use nextral.Governance.Forgotten.{forget_claimed_lem}
use nextral.Examples.Memories.{revived, clock}
use nextral.Examples.Graphs.{lib}

abbrev documents : Documents
documents = record {
  lifecycle_state_references = λ key value m. false;
  scrub_lifecycle_state = λ key value m. some value;
}

abbrev around : Surroundings
around = record {
  clock = λ s. 100;
  worker_owner = λ s. "worker-1";
  lifecycle_verify_archive_sources = λ m s. ok tt;
}

abbrev libraries : GovernanceLibraries
libraries = record {
  chrono = clock;
  deterministic_id = λ parts. elim parts [ key ∷ stage ∷ rest ↦ stage | _ ↦ "id" ];
  to_value = λ response. ok null;
  from_value = λ value. err (io "no response");
}

abbrev request : ForgetMemoryRequest
request = record {
  tenant_id = "acme";
  user_id = "alice";
  memory_id = "m1";
  actor = "admin";
  reason = "request";
  redact = true;
}

abbrev told : MemoryRecord
told = record revived { source_message_ids = "s1" ∷ [] }

abbrev before : ForgetTables
before = record {
  graph = record {
    tables = record {
      memories = told ∷ record told { id = "m2" } ∷ [];
      graph_edges = [];
      lifecycle_state = [];
    };
    graph_nodes = [];
    audit_events = [];
    lifecycle_leases = [];
  };
  session_messages = [];
  reminders = [];
  lifecycle_vectors = [];
}

abbrev after : ForgetTables
after = (forget_claimed (test_store lib documents around) libraries request before).0

abbrev answer : ForgetMemoryResponse
answer = record {
  forget_transition = record {
    memory_id = "m1";
    from = active;
    to = soft_deleted;
    actor = "admin";
    reason = "request";
    changed_at = "100";
  };
  redaction_transition = some (record {
    memory_id = "m1";
    from = soft_deleted;
    to = redacted;
    actor = "admin";
    reason = "request";
    changed_at = "100";
  });
  receipts = receipt_ok "test_memory" "forget" "m1" ∷ receipt_ok "test_graph" "forget" "m1" ∷ [];
  status = "completed";
  attempts = 1;
  last_error = none;
}

forgets :
    forget_claimed (test_store lib documents around) libraries request before ≡ (after, ok answer)
unfolding forget_claimed get_memory nextral.Memories.Store.protect_record
    nextral.Memories.Store.protect_all nextral.Memories.Store.protect_once
    nextral.Memories.Store.find_memory nextral.Memories.Store.update_memory
    nextral.Memories.Store.upsert_memory nextral.Memories.Store.remove_graph_source
    nextral.Memories.Store.put_memory nextral.Memories.Life.validate
    nextral.Scope.validate_scope_component nextral.Scope.validate_session nextral.Base.any_char
    nextral.Timestamps.timestamp_nanos nextral.Timestamps.Decimal.parse_u64
    nextral.Timestamps.now_timestamp nextral.Timestamps.Decimal.to_string
    nextral.Memories.Life.validate_score nextral.Memories.Life.byte_length
    nextral.Graph.Ingestion.emit_audit nextral.Audit.audit_replayed
    nextral.Governance.Tables.lifecycle_forget nextral.Governance.Tables.cascade
    nextral.Governance.Tables.forget_derived nextral.Governance.Tables.scrub_all
    nextral.Governance.Tables.scrub nextral.Base.get nextral.Base.insert
    nextral.Memories.Life.transition nextral.Base.is_blank nextral.Governance.put_receipts
forgets = refl

forget_claimed_lem_example :
    ((value : Value) × (get before.graph.tables.lifecycle_state
          ("acme", user_key forget "alice" "m1")
        ≡ some value)
      × (libraries.from_value value ≡ ok answer)
      × (answer.status ≡ "completed")
      × (after ≡ before))
    ⊎ ((m : MemoryRecord) × (get_memory after.graph.tables "acme" "alice" "m1" ≡ some m)
        × (is_live m.status ≡ false)
        × (request.redact ≡ true → m.status ≡ redacted))
      × IsHonest (test_store lib documents around) libraries request answer
forget_claimed_lem_example =
    forget_claimed_lem lib documents around libraries request answer before after forgets
