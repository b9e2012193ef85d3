-- ===== src/Graph/Graphify.antt =====
-- domain/graph.rs, graphify_record: what a memory and its hints give is evidence that the store takes.
use mathlib.Core.Path.{subst}
use nextral.Base.{
  ◌≡◌, refl, ap, ◌∙◌, sym, arith, inl, inr, Bool, Bool-cases, true, false, ◌&&◌, String, List, [],
  ◌∷◌, ◌++◌, any, all, any-append, all-append, is_blank, ◌==◌, string_eq, str_iff, sort_by,
  all-sort_by, any-sort_by, all-dedup_by, any-dedup_by, if◌then◌else◌,
}
use nextral.Contracts.{ok_value, ok, both_ok, chain_value, CoreResult-cases}
use nextral.Scope.{validate_scope_component}
use nextral.Timestamps.{Chrono}
use nextral.Memories.Life.{validate}
use nextral.Memories.Records.{MemoryRecord}
use nextral.Graph.Records.{GraphNode, GraphEdge, GraphHint}
use nextral.Graph.{
  Unicode, validate_node, validate_edge, validate_nodes, validate_edges, validate_source_graph,
}
use nextral.Graph.Constructors.{is_own_node, is_scoped, ends_at, node_new-valid, edge_new-valid}
use nextral.Graph.Extraction.{
  GraphifyOutput, hints_of, graphify_record, compare_nodes, compare_edges, infer_label,
  entity_nodes, hint_graph, dedup_nodes, dedup_edges, same_key_node, same_relationship,
  validate_graph_hint,
}

pub scope_named :
    (name other value : String)
    → validate_scope_component value name ≡ ok tt
    → validate_scope_component value other ≡ ok tt
unfolding validate_scope_component
scope_named name other value h = ground arith

branch_false :
    {A : Type 0} {test : Bool} {given : A} (kept other : A)
    → test ≡ false
    → (if test then kept else other) ≡ given
    → other ≡ given
branch_false kept other h g = ground (arith, h, g)

branch_true :
    {A : Type 0} {test : Bool} {given : A} (kept other : A)
    → test ≡ true
    → (if test then kept else other) ≡ given
    → kept ≡ given
branch_true kept other h g = ground (arith, h, g)

module _ (u : Unicode) (now : String) (r : MemoryRecord) where
  abbrev own : GraphNode → Bool
  own = is_own_node u now r.tenant_id r.user_id

  entity_nodes-own :
      (entities : List String) (nodes : List GraphNode)
      → entity_nodes u now r entities ≡ ok nodes
      → all own nodes ≡ true
  unfolding entity_nodes
  entity_nodes-own [] nodes h = ap (all own) (sym (ok_value h))
  entity_nodes-own (entity ∷ rest) nodes h = elim (Bool-cases (is_blank entity)) [
    | inl blank ↦ entity_nodes-own rest nodes (branch_true _ _ blank h)
    | inr named ↦
        let (node, began, made) = chain_value _ _ (branch_false _ _ named h) in
        let (others, ended, found) = chain_value (entity_nodes u now r rest) _ began in
        let mine =
          node_new-valid u now r.tenant_id r.user_id (infer_label u now entity) entity 0x3F4CCCCD
            node made in
        let theirs = entity_nodes-own rest others found in
        ap (all own) (sym (ok_value ended)) ∙ rw (mine, theirs) refl
  ]

  -- Both ends of the edge are among the nodes.
  abbrev joins : List GraphNode → GraphEdge → Bool
  joins nodes edge =
      any (λ node. node.key == edge.from_key) nodes && any (λ node. node.key == edge.to_key) nodes

  joins-append :
      (before nodes : List GraphNode) (edges : List GraphEdge)
      → all (joins nodes) edges ≡ true
      → all (joins (before ++ nodes)) edges ≡ true
  joins-append before nodes [] h = refl
  joins-append before nodes (edge ∷ edges) h = ground (
    arith,
    joins-append before nodes edges,
    any-append (λ node. node.key == edge.from_key) before nodes,
    any-append (λ node. node.key == edge.to_key) before nodes,
  )

  -- The edges are of the memory and join the nodes, which are of its scope.
  abbrev is_evidence : List GraphNode → List GraphEdge → Bool
  is_evidence nodes edges =
      all own nodes
      && all (is_scoped u now r.tenant_id r.user_id r.id) edges
      && all (joins nodes) edges

  evidence_grown :
      (from to : GraphNode) (edge : GraphEdge) (nodes : List GraphNode) (edges : List GraphEdge)
      → own from ≡ true
      → own to ≡ true
      → (is_scoped u now r.tenant_id r.user_id r.id edge
          && ends_at u now r.tenant_id r.user_id r.id from.key to.key edge)
        ≡ true
      → is_evidence nodes edges ≡ true
      → is_evidence (from ∷ to ∷ nodes) (edge ∷ edges) ≡ true
  evidence_grown from to edge nodes edges at_from at_to mine theirs =
      let from_end : (from.key == edge.from_key) ≡ true =
        (str_iff from.key edge.from_key).1
          (sym ((str_iff edge.from_key from.key).0 (ground arith))) in
      let to_end : (to.key == edge.to_key) ≡ true =
        (str_iff to.key edge.to_key).1 (sym ((str_iff edge.to_key to.key).0 (ground arith))) in
      let later : all (joins (from ∷ to ∷ nodes)) edges ≡ true =
        joins-append (from ∷ to ∷ []) nodes edges (ground arith) in
      ground (arith, from_end, to_end, later, at_from, at_to, mine, theirs)

  hint_graph-evidence :
      (hints : List GraphHint) (found : List GraphNode × List GraphEdge)
      → hint_graph u now r hints ≡ ok found
      → is_evidence found.0 found.1 ≡ true
  unfolding hint_graph
  hint_graph-evidence [] found h = ap (λ f. is_evidence f.0 f.1) (sym (ok_value h))
  hint_graph-evidence (hint ∷ rest) found h =
      let (hinted, a) = both_ok (validate_graph_hint u now hint) h in
      let (from, b, made_from) = chain_value _ _ a in
      let (to, c, made_to) = chain_value _ _ b in
      let (edge, d, made_edge) = chain_value _ _ c in
      let (later, e, found_later) = chain_value (hint_graph u now r rest) _ d in
      let at_from =
        node_new-valid u now r.tenant_id r.user_id hint.from_label hint.from_name hint.confidence
          from made_from in
      let at_to =
        node_new-valid u now r.tenant_id r.user_id hint.to_label hint.to_name hint.confidence to
          made_to in
      let mine =
        edge_new-valid u now r.tenant_id r.user_id r.id from.key hint.relationship_type to.key
          hint.confidence edge made_edge in
      let theirs = hint_graph-evidence rest later found_later in
      ap (λ f. is_evidence f.0 f.1) (sym (ok_value e))
      ∙ evidence_grown from to edge later.0 later.1 at_from at_to mine theirs

  evidence_joined :
      (before nodes : List GraphNode) (edges : List GraphEdge)
      → all own before ≡ true
      → is_evidence nodes edges ≡ true
      → is_evidence (before ++ nodes) edges ≡ true
  evidence_joined before nodes edges mine theirs =
      rw (all-append own before nodes, mine, joins-append before nodes edges (ground arith))
        (ground arith)

  has_key-dedup_nodes :
      (nodes : List GraphNode) (key : String)
      → any (λ node. node.key == key) (dedup_nodes nodes) ≡ any (λ node. node.key == key) nodes
  unfolding dedup_nodes
  has_key-dedup_nodes nodes key =
      any-dedup_by same_key_node (λ node. node.key == key) same_answer (sort_by compare_nodes nodes)
      ∙ any-sort_by compare_nodes (λ node. node.key == key) nodes
    where
      same_answer : (x y : GraphNode) → same_key_node x y ≡ true → (x.key == key) ≡ (y.key == key)
      same_answer x y h = ap (λ k. k == key) ((str_iff x.key y.key).0 (ground arith))

  joins-dedup_nodes :
      (nodes : List GraphNode) (edges : List GraphEdge)
      → all (joins nodes) edges ≡ true
      → all (joins (dedup_nodes nodes)) edges ≡ true
  joins-dedup_nodes nodes [] h = refl
  joins-dedup_nodes nodes (edge ∷ edges) h = ground (
    arith,
    joins-dedup_nodes nodes edges,
    has_key-dedup_nodes nodes edge.from_key,
    has_key-dedup_nodes nodes edge.to_key,
  )

  evidence-dedup :
      (nodes : List GraphNode) (edges : List GraphEdge)
      → is_evidence nodes edges ≡ true
      → is_evidence (dedup_nodes nodes) (dedup_edges edges) ≡ true
  unfolding dedup_nodes dedup_edges
  evidence-dedup nodes edges h =
      let scoped = is_scoped u now r.tenant_id r.user_id r.id in
      let nodes_kept =
        all-dedup_by same_key_node own (sort_by compare_nodes nodes)
          (all-sort_by compare_nodes own nodes ∙ ground arith) in
      let edges_kept =
        all-dedup_by same_relationship scoped (sort_by compare_edges edges)
          (all-sort_by compare_edges scoped edges ∙ ground arith) in
      let joined =
        all-dedup_by same_relationship (joins (dedup_nodes nodes)) (sort_by compare_edges edges) (
          all-sort_by compare_edges (joins (dedup_nodes nodes)) edges
          ∙ joins-dedup_nodes nodes edges (ground arith)) in
      rw (nodes_kept, edges_kept, joined) refl

  nodes-accepted :
      (nodes : List GraphNode)
      → all own nodes ≡ true
      → validate_nodes u r.tenant_id r.user_id r.id nodes ≡ ok tt
  unfolding validate_nodes
  nodes-accepted [] h = refl
  nodes-accepted (node ∷ nodes) h = elim (CoreResult-cases (validate_node u node)) [
    | inl (done, valid) ↦ ground (arith, nodes-accepted nodes)
    | inr (failure, refused) ↦ absurd (ground arith)
  ]

  edges-accepted :
      (nodes : List GraphNode) (edges : List GraphEdge)
      → all (is_scoped u now r.tenant_id r.user_id r.id) edges ≡ true
      → all (joins nodes) edges ≡ true
      → validate_edges u r.tenant_id r.user_id r.id nodes edges ≡ ok tt
  unfolding validate_edges
  edges-accepted nodes [] h g = refl
  edges-accepted nodes (edge ∷ edges) h g = elim (CoreResult-cases (validate_edge edge)) [
    | inl (done, valid) ↦ ground (arith, edges-accepted nodes edges)
    | inr (failure, refused) ↦ absurd (ground arith)
  ]

  module _ (deterministic_id : List String → String) (chrono : Chrono) where
    -- What graphify_record gives for a valid memory, from the hints of a host or, without any, from
    -- its own entities, is evidence that validate_source_graph takes for that memory.
    pub graphify_record-accepted :
        (hints : List GraphHint) (out : GraphifyOutput)
        → validate chrono r ≡ ok tt
        → graphify_record u now deterministic_id r hints ≡ ok out
        → validate_source_graph u r.tenant_id r.user_id r.id out.nodes out.relationships ≡ ok tt
    unfolding validate graphify_record validate_source_graph
    graphify_record-accepted hints out sound went =
        let (at_id, a) = both_ok (validate_scope_component r.id "memory id") sound in
        let (at_tenant, b) = both_ok (validate_scope_component r.tenant_id "tenant_id") a in
        let (at_user, c) = both_ok (validate_scope_component r.user_id "user_id") b in
        let (nodes, d, made) = chain_value (entity_nodes u now r r.entities) _ went in
        let (found, e, hinted) = chain_value (hint_graph u now r (hints_of u now r hints)) _ d in
        let whole =
          evidence_joined nodes found.0 found.1 (entity_nodes-own r.entities nodes made)
            (hint_graph-evidence (hints_of u now r hints) found hinted) in
        let kept = evidence-dedup (nodes ++ found.0) found.1 whole in
        let all_nodes = dedup_nodes (nodes ++ found.0) in
        let nodes_ok = nodes-accepted all_nodes (ground arith) in
        let edges_ok =
          edges-accepted all_nodes (dedup_edges found.1) (ground arith) (ground arith) in
        subst
          (λ o. validate_source_graph u r.tenant_id r.user_id r.id o.nodes o.relationships ≡ ok tt)
          (ok_value e)
          (rw
            (at_tenant, at_user, scope_named "memory id" "memory_id" r.id at_id, nodes_ok, edges_ok)
            refl)
