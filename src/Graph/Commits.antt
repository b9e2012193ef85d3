-- ===== src/Graph/Commits.antt =====
-- A commit of evidence happens as a whole or not at all.
use nextral.Base.{
  ◌≡◌, refl, ap, ◌∙◌, arith, ◌⊎◌, inl, inr, Bool, true, String, List, [], ◌∷◌, ◌++◌, string_eq,
  if◌then◌else◌,
}
use nextral.Kinds.{status_eq}
use nextral.Contracts.{CoreError, CoreResult, ok, err, is_ok, CoreResult-cases}
use nextral.Actions.{for_each, for_each-ok}
use nextral.Audit.{AuditEvent, audit_replayed}
use nextral.Memories.Records.{MemoryRecord}
use nextral.Memories.Store.{MemoryTables, upsert_memory, key_of}
use nextral.Memories.Store.Lookup.{upsert_memory_lem}
use nextral.Graph.Records.{GraphNode, GraphEdge}
use nextral.Graph.{
  Unicode, validate_node, validate_edge, validate_nodes, validate_edges, validate_source_graph,
}
use nextral.Graph.Merging.{put_node, put_edge, merge_node, merge_edge, merge_node-ok, merge_edge-ok}
use nextral.Graph.Ingestion.{GraphTables, GraphLibraries, add_node, add_edge, commit_ingestion}

unfoldable pub put_nodes : List GraphNode → List GraphNode → List GraphNode
put_nodes nodes [] = nodes
put_nodes nodes (node ∷ rest) = put_nodes (put_node nodes node) rest

unfoldable pub put_edges : List GraphEdge → List GraphEdge → List GraphEdge
put_edges edges [] = edges
put_edges edges (edge ∷ rest) = put_edges (put_edge edges edge) rest

module _ (u : Unicode) (tenant user id : String) where
  pub nodes-valid :
      (node : GraphNode) (rest : List GraphNode)
      → validate_nodes u tenant user id (node ∷ rest) ≡ ok tt
      → (validate_node u node ≡ ok tt) × (validate_nodes u tenant user id rest ≡ ok tt)
  unfolding validate_nodes
  nodes-valid node rest h = elim (CoreResult-cases (validate_node u node)) [
    | inl (done, valid) ↦ (valid, ground arith)
    | inr (failure, refused) ↦ absurd (ground arith)
  ]

  pub edges-valid :
      (nodes : List GraphNode) (edge : GraphEdge) (rest : List GraphEdge)
      → validate_edges u tenant user id nodes (edge ∷ rest) ≡ ok tt
      → (validate_edge edge ≡ ok tt) × (validate_edges u tenant user id nodes rest ≡ ok tt)
  unfolding validate_edges
  edges-valid nodes edge rest h = elim (CoreResult-cases (validate_edge edge)) [
    | inl (done, valid) ↦ (valid, ground arith)
    | inr (failure, refused) ↦ absurd (ground arith)
  ]

  pub source_graph-valid :
      (nodes : List GraphNode) (edges : List GraphEdge)
      → validate_source_graph u tenant user id nodes edges ≡ ok tt
      → (validate_nodes u tenant user id nodes ≡ ok tt)
        × (validate_edges u tenant user id nodes edges ≡ ok tt)
  unfolding validate_source_graph
  source_graph-valid nodes edges h = ground arith

module _ (lib : GraphLibraries) (tenant user id : String) where
  -- Valid nodes and edges are merged one after the other, and none is refused.
  pub add_nodes_lem :
      (nodes : List GraphNode) (s : GraphTables)
      → validate_nodes lib.unicode tenant user id nodes ≡ ok tt
      → for_each (add_node lib) nodes s
        ≡ (record s { graph_nodes = put_nodes s.graph_nodes nodes }, ok tt)
  unfolding for_each put_nodes merge_node
  add_nodes_lem [] s h = refl
  add_nodes_lem (node ∷ rest) s h =
      let (valid, others) = nodes-valid lib.unicode tenant user id node rest h in
      let next : GraphTables = record s { graph_nodes = put_node s.graph_nodes node } in
      for_each-ok (add_node lib) node rest s next (
        ap (λ done. (record s { graph_nodes = done.0 }, done.1))
          (merge_node-ok lib.unicode s.graph_nodes node valid))
      ∙ add_nodes_lem rest next others

  pub add_edges_lem :
      (nodes : List GraphNode) (edges : List GraphEdge) (s : GraphTables)
      → validate_edges lib.unicode tenant user id nodes edges ≡ ok tt
      → for_each (add_edge lib) edges s ≡ (
        record s {
          tables = record s.tables { graph_edges = put_edges s.tables.graph_edges edges };
        },
        ok tt,
      )
  unfolding for_each put_edges merge_edge
  add_edges_lem nodes [] s h = refl
  add_edges_lem nodes (edge ∷ rest) s h =
      let (valid, others) = edges-valid lib.unicode tenant user id nodes edge rest h in
      let next : GraphTables = record s {
        tables = record s.tables { graph_edges = put_edge s.tables.graph_edges edge };
      } in
      for_each-ok (add_edge lib) edge rest s next (
        ap (λ done. (record s { tables = record s.tables { graph_edges = done.0 } }, done.1))
          (merge_edge-ok s.tables.graph_edges edge valid))
      ∙ add_edges_lem nodes rest next others

-- The state after the tables of the memory were written, the evidence merged, and the event recorded
-- unless it was before.
abbrev pub committed :
    GraphTables → MemoryTables → List GraphNode → List GraphEdge → Bool → AuditEvent → GraphTables
committed s tables nodes edges replayed audit = record s {
  tables = record tables { graph_edges = put_edges tables.graph_edges edges };
  graph_nodes = put_nodes s.graph_nodes nodes;
  audit_events = if replayed then s.audit_events else s.audit_events ++ (audit ∷ []);
}

module _ (lib : GraphLibraries) (s : GraphTables) (r : MemoryRecord) (nodes : List GraphNode)
    (edges : List GraphEdge) (audit : AuditEvent) where
  abbrev pub checked : CoreResult (Unit {0})
  checked = validate_source_graph lib.unicode r.tenant_id r.user_id r.id nodes edges

  abbrev pub replay : CoreResult Bool
  replay = audit_replayed lib.from_str s.audit_events audit

  -- A commit of a memory with its evidence fails and changes nothing, or succeeds: the evidence is valid,
  -- the memory is stored, every node and every edge is merged, and the event is recorded unless it was.
  pub commit_ingestion_lem :
      ((failure : CoreError) × (commit_ingestion lib r nodes edges audit s ≡ (s, err failure)))
      ⊎ (checked ≡ ok tt)
        × (is_ok (upsert_memory lib.chrono s.tables r).1 ≡ true)
        × (replayed : Bool) × (replay ≡ ok replayed)
        × (commit_ingestion lib r nodes edges audit s ≡ (
          committed s (upsert_memory lib.chrono s.tables r).0 nodes edges replayed audit,
          ok ("test_memory" ∷ "test_graph" ∷ "test_audit" ∷ []),
        ))
  unfolding commit_ingestion
  commit_ingestion_lem = elim (CoreResult-cases replay) [
    | inr (failure, refused) ↦ inl (failure, ground arith)
    | inl (replayed, seen) ↦ elim (CoreResult-cases checked) [
      | inr (failure, refused) ↦ inl (failure, ground arith)
      | inl (done, valid) ↦ elim (CoreResult-cases (upsert_memory lib.chrono s.tables r).1) [
        | inr (failure, refused) ↦
            inl (failure, ground (arith, upsert_memory_lem lib.chrono s.tables r (key_of r)))
        | inl (stored, accepted) ↦
            let (valid_nodes, valid_edges) =
              source_graph-valid lib.unicode r.tenant_id r.user_id r.id nodes edges valid in
            let kept : GraphTables = record s {
              tables = (upsert_memory lib.chrono s.tables r).0;
            } in
            let noted : GraphTables = record kept { graph_nodes = put_nodes s.graph_nodes nodes } in
            let nodes_in = add_nodes_lem lib r.tenant_id r.user_id r.id nodes kept valid_nodes in
            let edges_in =
              add_edges_lem lib r.tenant_id r.user_id r.id nodes edges noted valid_edges in
            inr (valid, ground arith, replayed, seen, ground (arith, nodes_in, edges_in))
      ]
    ]
  ]
