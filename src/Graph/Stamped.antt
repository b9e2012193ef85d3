-- ===== src/Graph/Stamped.antt =====
-- runtime/graphify.rs, graphify_memory: a stored memory gives its evidence again, and the store takes it.
use nextral.Base.{
  ◌≡◌, refl, ap, ◌∙◌, ℕ, Bool, true, false, String, some, List, [], ◌∷◌, map, any, length, ltb,
  ◌==◌, string_eq, str_iff,
}
use nextral.Kinds.{active, status_eq}
use nextral.Contracts.{◌>>=◌, ok, both_ok}
use nextral.Audit.{AuditEvent, audit_replayed}
use nextral.Scope.{validate_scope_component}
use nextral.Memories.Life.{validate}
use nextral.Memories.Records.{MemoryRecord}
use nextral.Memories.Store.{get_memory}
use nextral.Graph.Records.{GraphNode, GraphEdge, GraphHint}
use nextral.Graph.{
  Unicode, validate_node, validate_edge, validate_nodes, validate_edges, validate_source_graph,
}
use nextral.Graph.Extraction.{GraphifyOutput, graphify_record}
use nextral.Graph.Graphify.{scope_named, graphify_record-accepted}
use nextral.Graph.Ingestion.{GraphTables, GraphLibraries, check_source, is_leased}
use nextral.Graph.Replays.{replaced, commit_graph_replay-succeeds}
use nextral.Graph.Runtime.{
  stamp_node, stamp_edge, stamped, replay_event, read_evidence, accepted, commit_output,
  graphify_memory,
}

-- The times of nodes and edges do not count for whether they are valid.
module _ (u : Unicode) (tenant user id : String) (r : MemoryRecord) where
  nodes-stamped :
      (nodes : List GraphNode)
      → validate_nodes u tenant user id (map (stamp_node r) nodes)
        ≡ validate_nodes u tenant user id nodes
  unfolding validate_nodes validate_node
  nodes-stamped [] = refl
  nodes-stamped (node ∷ nodes) = rw (nodes-stamped nodes) refl

  has_key-stamped :
      (nodes : List GraphNode) (key : String)
      → any (λ node. node.key == key) (map (stamp_node r) nodes)
        ≡ any (λ node. node.key == key) nodes
  has_key-stamped [] key = refl
  has_key-stamped (node ∷ nodes) key = rw (has_key-stamped nodes key) refl

  edges-stamped :
      (nodes : List GraphNode) (edges : List GraphEdge)
      → validate_edges u tenant user id (map (stamp_node r) nodes) (map (stamp_edge r) edges)
        ≡ validate_edges u tenant user id nodes edges
  unfolding validate_edges validate_edge
  edges-stamped nodes [] = refl
  edges-stamped nodes (edge ∷ edges) =
      rw
        (
          has_key-stamped nodes edge.from_key,
          has_key-stamped nodes edge.to_key,
          edges-stamped nodes edges,
        )
        refl

  pub source_graph-stamped :
      (nodes : List GraphNode) (edges : List GraphEdge)
      → validate_source_graph u tenant user id (map (stamp_node r) nodes) (map (stamp_edge r) edges)
        ≡ validate_source_graph u tenant user id nodes edges
  unfolding validate_source_graph
  source_graph-stamped nodes edges = rw (nodes-stamped nodes, edges-stamped nodes edges) refl

module _ (lib : GraphLibraries) (deterministic_id : List String → String) (now : ℕ)
    (now_text owner : String) (hints : List GraphHint) (s : GraphTables) (r : MemoryRecord)
    (output : GraphifyOutput) where
  read_evidence-active :
      get_memory s.tables r.tenant_id r.user_id r.id ≡ some r
      → (r.status == active) ≡ true
      → validate lib.chrono r ≡ ok tt
      → ltb 256 (length hints) ≡ false
      → ltb 256 (length r.entities) ≡ false
      → graphify_record lib.unicode now_text deterministic_id r hints ≡ ok output
      → read_evidence lib deterministic_id now now_text owner r.tenant_id r.user_id r.id hints s
        ≡ ok (r, stamped r output)
  unfolding read_evidence validate graphify_record
  read_evidence-active found alive sound few_hints few_entities made =
      let (at_id, a) = both_ok (validate_scope_component r.id "memory id") sound in
      let (at_tenant, b) = both_ok (validate_scope_component r.tenant_id "tenant_id") a in
      let (at_user, c) = both_ok (validate_scope_component r.user_id "user_id") b in
      rw
        (
          at_tenant,
          at_user,
          scope_named "memory id" "memory_id" r.id at_id,
          few_hints,
          found,
          alive,
          few_entities,
          made,
        )
        refl

  abbrev event : AuditEvent
  event =
      replay_event lib deterministic_id now now_text owner r.tenant_id r.user_id r.id
        (stamped r output)

  -- Where a valid, active memory is stored as it is read, its user's lifecycle is not leased, there are
  -- at most 256 hints and entities, the source's hash succeeds, and the store does not refuse the audit
  -- event, graphify_memory succeeds as soon as graphify_record does: no check of the store refuses its
  -- output, which replaces the evidence that the memory gave before.
  pub graphify_memory-succeeds :
      (print : String) (replayed : Bool)
      → get_memory s.tables r.tenant_id r.user_id r.id ≡ some r
      → (r.status == active) ≡ true
      → validate lib.chrono r ≡ ok tt
      → ltb 256 (length hints) ≡ false
      → ltb 256 (length r.entities) ≡ false
      → graphify_record lib.unicode now_text deterministic_id r hints ≡ ok output
      → lib.source_fingerprint r ≡ ok print
      → audit_replayed lib.from_str s.audit_events event ≡ ok replayed
      → is_leased lib now r s ≡ false
      → graphify_memory lib deterministic_id now now_text owner r.tenant_id r.user_id r.id hints s
        ≡ (
          replaced lib s r
              (stamped r output).nodes
              (stamped r output).relationships
              event
              now
              replayed,
          ok (
              accepted lib deterministic_id now now_text owner
                (stamped r output)
                ("test_graph:source:replaced" ∷ "test_audit" ∷ [])),
        )
  unfolding graphify_memory check_source
  graphify_memory-succeeds print replayed found alive sound few_hints few_entities made hash seen
        free =
      let valid =
        source_graph-stamped lib.unicode r.tenant_id r.user_id r.id r output.nodes
          output.relationships
        ∙ graphify_record-accepted lib.unicode now_text r deterministic_id lib.chrono hints output
            sound made in
      let same : check_source lib r r ≡ ok tt =
        rw (alive, hash, (str_iff print print).1 refl) refl in
      let done =
        commit_graph_replay-succeeds lib s r (stamped r output).nodes
          (stamped r output).relationships event now r replayed seen valid found same free in
      let given = read_evidence-active found alive sound few_hints few_entities made in
      let began : graphify_memory lib deterministic_id now now_text owner r.tenant_id r.user_id r.id
            hints s
          ≡ commit_output lib deterministic_id now now_text owner r.tenant_id r.user_id r.id r
              (stamped r output) s =
        rw (given, graphify_memory) refl in
      began
      ∙ ap
          (λ did. (
            did.0,
            did.1 >>= λ receipts.
                ok (accepted lib deterministic_id now now_text owner (stamped r output) receipts),
          ))
          done
