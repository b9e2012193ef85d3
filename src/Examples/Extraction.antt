-- ===== src/Examples/Extraction.antt =====
-- The evidence that graphify_record takes from a memory at concrete inputs.
use nextral.Base.{◌≡◌, refl, String, List, [], ◌∷◌, true, false, some, is_empty}
use nextral.Contracts.{ok}
use nextral.Memories.Life.{validate}
use nextral.Memories.Store.{get_memory}
use nextral.Audit.{AuditEvent, audit_replayed}
use nextral.Graph.Ingestion.{GraphTables, is_leased}
use nextral.Graph.Replays.{replaced}
use nextral.Graph.Runtime.{accepted, replay_event, stamped, graphify_memory}
use nextral.Graph.Stamped.{graphify_memory-succeeds}
use nextral.Memories.Records.{MemoryRecord}
use nextral.Graph.{validate_source_graph}
use nextral.Graph.Records.{GraphHint}
use nextral.Graph.Extraction.{GraphifyOutput, graphify_record}
use nextral.Graph.Contradictions.{find_contradictions}
use nextral.Graph.Opposition.{is_consistent, find_contradictions-silent}
use nextral.Graph.Graphify.{graphify_record-accepted}
use nextral.Examples.Memories.{revived, clock}
use nextral.Examples.Graphs.{unicode, lib, node, edge, ana, nab}

abbrev hint : String → GraphHint
hint relation = record {
  from_label = "Person";
  from_name = " An a ";
  relationship_type = relation;
  to_label = "Project";
  to_name = "nab";
  confidence = 0x3F000000;
}

-- The same statement twice, its denial, and an entity that a hint names too.
abbrev hints : List GraphHint
hints = hint "WORKS_ON" ∷ hint "NOT_WORKS_ON" ∷ hint " WORKS_ON" ∷ []

abbrev naming : MemoryRecord
naming = record revived { entities = "An a" ∷ " " ∷ "ban" ∷ [] }

abbrev id_of : List String → String
id_of parts = "trace"

abbrev given : GraphifyOutput
given = record {
  trace_id = "trace";
  nodes =
      record (node "Concept" "ban" "ban" "Concept:ban") { confidence = 0x3F4CCCCD }
      ∷ record (node "Entity" "An a" "an_a" "Entity:an_a") { confidence = 0x3F4CCCCD }
      ∷ ana
      ∷ nab
      ∷ [];
  relationships =
      edge "Person:an_a" "NOT_WORKS_ON" "Project:nab" "m1"
      ∷ edge "Person:an_a" "WORKS_ON" "Project:nab" "m1"
      ∷ [];
  contradictions = "opposed WORKS_ON evidence for Person:an_a -> Project:nab" ∷ [];
  confidence_calibration_version = "native-v2";
  contradiction_class = "single_conflict";
  evidence_count = 6;
}

naming-valid : validate clock naming ≡ ok tt
unfolding validate nextral.Scope.validate_scope_component nextral.Base.is_blank
    nextral.Base.any_char nextral.Scope.validate_session nextral.Timestamps.timestamp_nanos
    nextral.Timestamps.Decimal.parse_u64 nextral.Memories.Life.validate_score
    nextral.Topology.profile
naming-valid = refl

run : graphify_record unicode "1" id_of naming hints ≡ ok given
unfolding graphify_record nextral.Graph.Extraction.entity_nodes nextral.Graph.Extraction.hint_graph
    nextral.Graph.Extraction.dedup_nodes nextral.Graph.Extraction.dedup_edges
    nextral.Graph.Extraction.node_new nextral.Graph.Extraction.edge_new
    nextral.Graph.Extraction.validate_graph_hint nextral.Graph.Extraction.infer_label
    nextral.Graph.Contradictions.find_contradictions nextral.Graph.Contradictions.conflicts_after
    nextral.Graph.Contradictions.has_evidence nextral.Base.sort_by nextral.Base.insert_by
    nextral.Base.dedup_by nextral.Base.dedup_from nextral.Base.strip_prefix nextral.Base.trim
    nextral.Base.trim_start nextral.Base.trim_end nextral.Base.contains_text nextral.Base.is_blank
    nextral.Base.all_chars nextral.Base.any_char nextral.Graph.canonicalize
    nextral.Graph.canonical_from nextral.Memories.Life.validate_score nextral.Topology.profile
    nextral.Scope.validate_scope_component
run = refl

graphify_record-accepted_example :
    validate_source_graph unicode "acme" "alice" "m1" given.nodes given.relationships ≡ ok tt
graphify_record-accepted_example =
    graphify_record-accepted unicode "1" naming id_of clock hints given naming-valid run

opposed : is_consistent given.relationships ≡ false
unfolding nextral.Base.strip_prefix
opposed = refl

find_contradictions-silent_example :
    is_empty (find_contradictions given.relationships) ≡ is_consistent given.relationships
find_contradictions-silent_example = find_contradictions-silent given.relationships

abbrev state : GraphTables
state = record {
  tables = record { memories = naming ∷ []; graph_edges = []; lifecycle_state = [] };
  graph_nodes = [];
  audit_events = [];
  lifecycle_leases = [];
}

naming-stored : get_memory state.tables "acme" "alice" "m1" ≡ some naming
unfolding get_memory nextral.Memories.Store.find_memory nextral.Memories.Store.protect_record
    nextral.Memories.Store.protect_all nextral.Memories.Store.protect_once
naming-stored = refl

abbrev naming_event : AuditEvent
naming_event = replay_event lib id_of 5 "1" "worker" "acme" "alice" "m1" (stamped naming given)

unheard : audit_replayed lib.from_str state.audit_events naming_event ≡ ok false
unfolding audit_replayed
unheard = refl

free : is_leased lib 5 naming state ≡ false
unfolding nextral.Base.get
free = refl

graphify_memory-succeeds_example :
    graphify_memory lib id_of 5 "1" "worker" "acme" "alice" "m1" hints state ≡ (
      replaced lib state naming
          (stamped naming given).nodes
          (stamped naming given).relationships
          naming_event
          5
          false,
      ok (
          accepted lib id_of 5 "1" "worker"
            (stamped naming given)
            ("test_graph:source:replaced" ∷ "test_audit" ∷ [])),
    )
graphify_memory-succeeds_example =
    graphify_memory-succeeds lib id_of 5 "1" "worker" hints state naming given naming.content false
      naming-stored refl naming-valid refl refl run refl unheard free
