-- ===== src/Examples/Graphs.antt =====
-- The graph at concrete inputs: a project, what it uses, and a person, from two memories.
use nextral.Base.{
  ◌⊎◌, ℕ, ◌≡◌, refl, arith, ◌↔◌, String, Bool, true, false, none, some, List, [], ◌∷◌, any, all,
  contains, nat_eqb, string_eq, if◌then◌else◌,
}
use nextral.Kinds.{private}
use nextral.Contracts.{ok, err, is_ok, CoreError}
use nextral.Json.{null}
use nextral.Audit.{AuditEvent, audit_event, graphify_merged}
use nextral.Memories.Records.{MemoryRecord}
use nextral.Memories.Store.{MemoryTables, upsert_memory, remove_graph_source}
use nextral.Graph.{Unicode, validate_source_graph, canonicalize}
use nextral.Graph.Records.{GraphNode, GraphEdge}
use nextral.Graph.Merging.{same_edge}
use nextral.Graph.Traversal.{
  hops, scan, extend_keys, sort_texts, insert_text, dedup_texts, dedup_after, graph_memory_ids,
  allowed_memory_ids, seed_keys,
}
use nextral.Graph.Walks.{Found}
use nextral.Graph.Answers.{graph_memory_ids_lem}
use nextral.Graph.Ingestion.{GraphTables, GraphLibraries, commit_ingestion, commit_graph_replay}
use nextral.Graph.Commits.{committed, checked, replay, commit_ingestion_lem}
use nextral.Graph.Replays.{Replayable, commit_graph_replay_lem}
use nextral.Graph.Evidence.{cites_memory}
use nextral.Graph.Histories.{
  GraphCall, ingests, replays, stores, emits, graph_run, IsGrounded, graph_run-IsGrounded,
  commit_ingestion_evidence,
}
use nextral.Examples.Memories.{revived, clock}

-- Lower case of the letters that the names have.
abbrev letter : ℕ → String
letter c =
    if nat_eqb c b'A'
    then "a"
    else if nat_eqb c b'b'
    then "b"
    else if nat_eqb c b'n'
    then "n"
    else if nat_eqb c b'a'
    then "a"
    else "?"

abbrev pub unicode : Unicode
unicode = record {
  char_lowercase = letter;
  is_uppercase = λ c. nat_eqb c b'A';
  to_lowercase = λ text. text;
  to_uppercase = λ text. text;
}

abbrev pub lib : GraphLibraries
lib = record {
  chrono = clock;
  unicode = unicode;
  from_str = λ text. ok null;
  source_fingerprint = λ m. ok m.content;
}

abbrev pub node : String → String → String → String → GraphNode
node label name canonical key = record {
  tenant_id = "acme";
  user_id = "alice";
  label = label;
  name = name;
  canonical_name = canonical;
  key = key;
  confidence = 0x3F000000;
  created_at = "1";
}

abbrev pub ana : GraphNode
ana = node "Person" "An a" "an_a" "Person:an_a"

abbrev pub nab : GraphNode
nab = node "Project" "nab" "nab" "Project:nab"

abbrev ban : GraphNode
ban = node "Technology" "ban" "ban" "Technology:ban"

abbrev pub edge : String → String → String → String → GraphEdge
edge from relation to id = record {
  tenant_id = "acme";
  user_id = "alice";
  from_key = from;
  relationship_type = relation;
  to_key = to;
  confidence = 0x3F000000;
  source_memory_ids = id ∷ [];
  created_at = "1";
  last_confirmed_at = "1";
}

abbrev uses_ban : GraphEdge
uses_ban = edge "Project:nab" "USES" "Technology:ban" "m1"

abbrev works_on : GraphEdge
works_on = edge "Person:an_a" "WORKS_ON" "Project:nab" "m2"

abbrev m2 : MemoryRecord
m2 = record revived { id = "m2" }

abbrev knowing : MemoryTables
knowing = record {
  memories = revived ∷ m2 ∷ [];
  graph_edges = uses_ban ∷ works_on ∷ [];
  lifecycle_state = [];
}

abbrev Answers : String → ℕ → List String → Type 0
Answers query max_hops ids =
    graph_memory_ids unicode knowing (ana ∷ nab ∷ ban ∷ []) "acme" "alice" query max_hops
      (private ∷ [])
    ≡ ok ids

one_hop : Answers " ban " 1 ("m1" ∷ [])
unfolding graph_memory_ids hops scan extend_keys sort_texts insert_text dedup_texts dedup_after
    nextral.Base.trim nextral.Base.contains_text nextral.Base.strip_prefix
    nextral.Memories.Store.protect_record nextral.Memories.Store.protect_all
    nextral.Memories.Store.protect_once
one_hop = refl

two_hops : Answers " ban " 2 ("m1" ∷ "m2" ∷ [])
unfolding graph_memory_ids hops scan extend_keys sort_texts insert_text dedup_texts dedup_after
    nextral.Base.trim nextral.Base.contains_text nextral.Base.strip_prefix
    nextral.Memories.Store.protect_record nextral.Memories.Store.protect_all
    nextral.Memories.Store.protect_once
two_hops = refl

blank_query : Answers "  " 2 []
unfolding graph_memory_ids hops scan extend_keys sort_texts insert_text dedup_texts dedup_after
    nextral.Base.trim nextral.Base.contains_text nextral.Base.strip_prefix
    nextral.Memories.Store.protect_record nextral.Memories.Store.protect_all
    nextral.Memories.Store.protect_once
blank_query = refl

graph_memory_ids_lem_example :
    (ids : List String) × (graph_memory_ids unicode knowing
        (ana ∷ nab ∷ ban ∷ [])
        "acme"
        "alice"
        "ban"
        2
        (private ∷ [])
      ≡ ok ids)
    × ((id : String)
        → (contains ids id ≡ true)
          ↔ Found "acme" "alice"
              (allowed_memory_ids knowing "acme" "alice" (private ∷ []))
              (uses_ban ∷ works_on ∷ [])
              (seed_keys unicode (ana ∷ nab ∷ ban ∷ []) "acme" "alice" "ban")
              2
              id)
unfolding nextral.Base.trim
graph_memory_ids_lem_example =
    graph_memory_ids_lem unicode knowing (ana ∷ nab ∷ ban ∷ []) "acme" "alice" "ban" 2
      (private ∷ []) refl refl

canonical_name : canonicalize unicode " An a " ≡ "an_a"
unfolding canonicalize
canonical_name = refl

abbrev event : AuditEvent
event = audit_event "a1" "acme" "worker" graphify_merged "memory" none "ingested" "1"

abbrev empty : GraphTables
empty = record {
  tables = record { memories = []; graph_edges = []; lifecycle_state = [] };
  graph_nodes = [];
  audit_events = [];
  lifecycle_leases = [];
}

abbrev filled : GraphTables
filled = (commit_ingestion lib revived (nab ∷ ban ∷ []) (uses_ban ∷ []) event empty).0

ingested :
    is_ok (commit_ingestion lib revived (nab ∷ ban ∷ []) (uses_ban ∷ []) event empty).1 ≡ true
unfolding commit_ingestion commit_graph_replay nextral.Graph.Ingestion.check_source
    nextral.Memories.Store.get_memory nextral.Memories.Store.find_memory
    nextral.Memories.Store.protect_record nextral.Memories.Store.protect_all validate_source_graph
    nextral.Scope.validate_scope_component nextral.Base.is_blank nextral.Base.any_char
    nextral.Graph.validate_nodes nextral.Graph.validate_node nextral.Memories.Life.validate_score
    canonicalize nextral.Base.strip_prefix nextral.Graph.validate_edges nextral.Graph.validate_edge
    nextral.Graph.validate_components upsert_memory nextral.Memories.Life.validate
    nextral.Scope.validate_session nextral.Timestamps.timestamp_nanos nextral.Actions.for_each
    nextral.Audit.audit_replayed nextral.Audit.same_payload nextral.Base.get nextral.Base.all_chars
    nextral.Graph.Merging.add_sources nextral.Graph.Merging.merge_edge
    nextral.Graph.Merging.merge_node nextral.Graph.Merging.put_edge nextral.Json.value_eqb
    nextral.Memories.Life.byte_length nextral.Memories.Store.put_memory
    nextral.Memories.Store.remove_graph_source nextral.Scope.Keys.kind_text
    nextral.Scope.Keys.user_key nextral.Timestamps.Decimal.parse_u64 nextral.Topology.profile
    nextral.Scope.Keys.privacy_key
ingested = refl

refused : is_ok (commit_ingestion lib revived (nab ∷ []) (uses_ban ∷ []) event empty).1 ≡ false
unfolding commit_ingestion commit_graph_replay nextral.Graph.Ingestion.check_source
    nextral.Memories.Store.get_memory nextral.Memories.Store.find_memory
    nextral.Memories.Store.protect_record nextral.Memories.Store.protect_all validate_source_graph
    nextral.Scope.validate_scope_component nextral.Base.is_blank nextral.Base.any_char
    nextral.Graph.validate_nodes nextral.Graph.validate_node nextral.Memories.Life.validate_score
    canonicalize nextral.Base.strip_prefix nextral.Graph.validate_edges nextral.Graph.validate_edge
    nextral.Graph.validate_components upsert_memory nextral.Memories.Life.validate
    nextral.Scope.validate_session nextral.Timestamps.timestamp_nanos nextral.Actions.for_each
    nextral.Audit.audit_replayed nextral.Audit.same_payload nextral.Base.get nextral.Base.all_chars
    nextral.Graph.Merging.add_sources nextral.Graph.Merging.merge_edge
    nextral.Graph.Merging.merge_node nextral.Graph.Merging.put_edge nextral.Json.value_eqb
    nextral.Memories.Life.byte_length nextral.Memories.Store.put_memory
    nextral.Memories.Store.remove_graph_source nextral.Scope.Keys.kind_text
    nextral.Scope.Keys.user_key nextral.Timestamps.Decimal.parse_u64 nextral.Topology.profile
    nextral.Scope.Keys.privacy_key
refused = refl

replayed : is_ok (commit_graph_replay lib 5 revived (nab ∷ ban ∷ []) [] event filled).1 ≡ true
unfolding commit_ingestion commit_graph_replay nextral.Graph.Ingestion.check_source
    nextral.Memories.Store.get_memory nextral.Memories.Store.find_memory
    nextral.Memories.Store.protect_record nextral.Memories.Store.protect_all validate_source_graph
    nextral.Scope.validate_scope_component nextral.Base.is_blank nextral.Base.any_char
    nextral.Graph.validate_nodes nextral.Graph.validate_node nextral.Memories.Life.validate_score
    canonicalize nextral.Base.strip_prefix nextral.Graph.validate_edges nextral.Graph.validate_edge
    nextral.Graph.validate_components upsert_memory nextral.Memories.Life.validate
    nextral.Scope.validate_session nextral.Timestamps.timestamp_nanos nextral.Actions.for_each
    nextral.Audit.audit_replayed nextral.Audit.same_payload nextral.Base.get nextral.Base.all_chars
    nextral.Graph.Merging.add_sources nextral.Graph.Merging.merge_edge
    nextral.Graph.Merging.merge_node nextral.Graph.Merging.put_edge nextral.Json.value_eqb
    nextral.Memories.Life.byte_length nextral.Memories.Store.put_memory
    nextral.Memories.Store.remove_graph_source nextral.Scope.Keys.kind_text
    nextral.Scope.Keys.user_key nextral.Timestamps.Decimal.parse_u64 nextral.Topology.profile
    nextral.Scope.Keys.privacy_key audit_event
replayed = refl

commit_ingestion_evidence_example :
    any
      (cites_memory "m1" uses_ban)
      (commit_ingestion lib revived
        (nab ∷ ban ∷ [])
        (uses_ban ∷ [])
        event
        empty).0.tables.graph_edges
    ≡ any (λ e. same_edge e uses_ban) (uses_ban ∷ [])
commit_ingestion_evidence_example =
    commit_ingestion_evidence lib empty revived (nab ∷ ban ∷ []) (uses_ban ∷ []) event uses_ban
      ingested refl refl

abbrev calls : List GraphCall
calls =
    ingests revived (nab ∷ ban ∷ []) (uses_ban ∷ []) event
    ∷ replays 5 revived (nab ∷ ban ∷ []) [] event
    ∷ stores m2
    ∷ emits event
    ∷ []

graph_run-IsGrounded_example : IsGrounded (graph_run lib calls empty)
graph_run-IsGrounded_example =
    graph_run-IsGrounded lib calls empty (record { canonical = refl; grounded = refl })

abbrev given : List GraphNode
given = nab ∷ ban ∷ []

commit_ingestion_lem_example :
    ((failure : CoreError) × (commit_ingestion lib revived given (uses_ban ∷ []) event empty
        ≡ (empty, err failure)))
    ⊎ (checked lib empty revived given (uses_ban ∷ []) event ≡ ok tt)
      × (is_ok (upsert_memory clock empty.tables revived).1 ≡ true)
      × (replayed_before : Bool) × (replay lib empty revived given (uses_ban ∷ []) event
          ≡ ok replayed_before)
      × (commit_ingestion lib revived given (uses_ban ∷ []) event empty ≡ (
        committed empty
            (upsert_memory clock empty.tables revived).0
            given
            (uses_ban ∷ [])
            replayed_before
            event,
        ok ("test_memory" ∷ "test_graph" ∷ "test_audit" ∷ []),
      ))
commit_ingestion_lem_example = commit_ingestion_lem lib empty revived given (uses_ban ∷ []) event

commit_graph_replay_lem_example :
    ((failure : CoreError) × (commit_graph_replay lib 5 revived given [] event filled
        ≡ (filled, err failure)))
    ⊎ (checked lib filled revived given [] event ≡ ok tt)
      × (current : MemoryRecord) × Replayable lib filled revived given [] event 5 current
      × (replayed_before : Bool) × (replay lib filled revived given [] event ≡ ok replayed_before)
      × (commit_graph_replay lib 5 revived given [] event filled ≡ (
        committed filled (remove_graph_source filled.tables revived) given [] replayed_before event,
        ok ("test_graph:source:replaced" ∷ "test_audit" ∷ []),
      ))
commit_graph_replay_lem_example = commit_graph_replay_lem lib filled revived given [] event 5
