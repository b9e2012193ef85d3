-- ===== src/Graph/Grounding.antt =====
-- Every edge of the graph joins two nodes of its scope that are there.
use nextral.Base.{
  ◌≡◌, refl, arith, inl, inr, Bool, true, not, ◌&&◌, String, List, [], ◌∷◌, map, any, all,
  any_witness, all-any, any-append, all-append, retain, is_empty, Bool-cases, ◌==◌, string_eq,
  str_iff,
}
use nextral.Contracts.{ok, CoreResult-cases}
use nextral.Memories.Records.{MemoryRecord}
use nextral.Memories.Store.{edge_without}
use nextral.Graph.Records.{GraphNode, GraphEdge}
use nextral.Graph.{
  Unicode, validate_node, validate_nodes, validate_edge, validate_edges, is_own_edge,
}
use nextral.Graph.Keys.{is_canonical, validate_node-canonical, key_unique}
use nextral.Graph.Merging.{put_node, put_edge, same_node}
use nextral.Graph.Commits.{put_nodes, put_edges, nodes-valid, edges-valid}

abbrev pub is_node_at : String → String → String → GraphNode → Bool
is_node_at tenant user key node =
    node.tenant_id == tenant && node.user_id == user && node.key == key

abbrev pub has_key : List GraphNode → String → String → String → Bool
has_key nodes tenant user key = any (is_node_at tenant user key) nodes

-- Both ends of the edge are keys of nodes of its scope.
abbrev pub is_grounded : List GraphNode → GraphEdge → Bool
is_grounded nodes edge =
    has_key nodes edge.tenant_id edge.user_id edge.from_key
    && has_key nodes edge.tenant_id edge.user_id edge.to_key

module _ (tenant user key : String) where
  has_key-put_node :
      (nodes : List GraphNode) (node : GraphNode)
      → has_key nodes tenant user key ≡ true
      → has_key (put_node nodes node) tenant user key ≡ true
  has_key-put_node nodes node h =
      ground (arith, any-append (is_node_at tenant user key) nodes (node ∷ []))

  has_key-put_nodes :
      (nodes more : List GraphNode)
      → has_key nodes tenant user key ≡ true
      → has_key (put_nodes nodes more) tenant user key ≡ true
  unfolding put_nodes
  has_key-put_nodes nodes [] h = h
  has_key-put_nodes nodes (node ∷ more) h =
      has_key-put_nodes (put_node nodes node) more (has_key-put_node nodes node h)

-- A node that is merged has its key in the graph: where an equal node was there before, it has that key.
has_key-merged :
    (nodes : List GraphNode) (node : GraphNode)
    → all is_canonical nodes ≡ true
    → is_canonical node ≡ true
    → has_key (put_node nodes node) node.tenant_id node.user_id node.key ≡ true
has_key-merged nodes node canonical mine =
    elim (Bool-cases (any (λ existing. same_node existing node) nodes)) [
      | inl there ↦
          let both =
            all-any is_canonical (λ existing. same_node existing node) nodes canonical there in
          let (existing, same, elsewhere) =
            any_witness (λ x. is_canonical x && same_node x node) nodes both in
          let label : existing.label ≡ node.label =
            (str_iff existing.label node.label).0 (ground arith) in
          let name : existing.canonical_name ≡ node.canonical_name =
            (str_iff existing.canonical_name node.canonical_name).0 (ground arith) in
          let key : existing.key ≡ node.key =
            key_unique node.label node.canonical_name existing.key node.key
              (rw (← label, ← name) (ground arith)) mine in
          rw there (
            elsewhere (is_node_at node.tenant_id node.user_id node.key)
              (ground (arith, str_iff existing.key node.key)))
      | inr new ↦ rw new (
          ground (
            arith,
            any-append (is_node_at node.tenant_id node.user_id node.key) nodes (node ∷ []),
            str_iff node.tenant_id node.tenant_id,
            str_iff node.user_id node.user_id,
            str_iff node.key node.key,
          ))
    ]

canonical-put_node :
    (nodes : List GraphNode) (node : GraphNode)
    → all is_canonical nodes ≡ true
    → is_canonical node ≡ true
    → all is_canonical (put_node nodes node) ≡ true
canonical-put_node nodes node h mine = ground (arith, all-append is_canonical nodes (node ∷ []))

module _ (u : Unicode) (tenant user id : String) where
  node-scope :
      (node : GraphNode) (rest : List GraphNode)
      → validate_nodes u tenant user id (node ∷ rest) ≡ ok tt
      → (node.tenant_id ≡ tenant) × (node.user_id ≡ user)
  unfolding validate_nodes
  node-scope node rest h = elim (CoreResult-cases (validate_node u node)) [
    | inl (done, valid) ↦ (
      (str_iff node.tenant_id tenant).0 (ground arith),
      (str_iff node.user_id user).0 (ground arith),
    )
    | inr (failure, refused) ↦ absurd (ground arith)
  ]

  pub canonical-put_nodes :
      (nodes more : List GraphNode)
      → validate_nodes u tenant user id more ≡ ok tt
      → all is_canonical nodes ≡ true
      → all is_canonical (put_nodes nodes more) ≡ true
  unfolding put_nodes
  canonical-put_nodes nodes [] valid h = h
  canonical-put_nodes nodes (node ∷ more) valid h =
      let (mine, others) = nodes-valid u tenant user id node more valid in
      canonical-put_nodes (put_node nodes node) more others
        (canonical-put_node nodes node h (validate_node-canonical u node mine))

  -- After valid nodes were merged, the graph has the keys of all of them.
  pub has_key-all :
      (nodes more : List GraphNode) (key : String)
      → validate_nodes u tenant user id more ≡ ok tt
      → all is_canonical nodes ≡ true
      → any (λ node. node.key == key) more ≡ true
      → has_key (put_nodes nodes more) tenant user key ≡ true
  unfolding put_nodes
  has_key-all nodes [] key valid canonical h = cc
  has_key-all nodes (node ∷ more) key valid canonical h =
      let (mine, others) = nodes-valid u tenant user id node more valid in
      let good = validate_node-canonical u node mine in
      let (at_tenant, at_user) = node-scope node more valid in
      elim (Bool-cases (node.key == key)) [
        | inl here ↦
            let at_key : node.key ≡ key = (str_iff node.key key).0 here in
            let merged = has_key-merged nodes node canonical good in
            has_key-put_nodes tenant user key (put_node nodes node) more
              (rw (← at_tenant, ← at_user, ← at_key) merged)
        | inr later ↦
            has_key-all (put_node nodes node) more key others
              (canonical-put_node nodes node canonical good) (ground arith)
      ]

  pub own_edge :
      (given : List GraphNode) (edge : GraphEdge) (rest : List GraphEdge)
      → validate_edges u tenant user id given (edge ∷ rest) ≡ ok tt
      → is_own_edge u tenant user id given edge ≡ true
  unfolding validate_edges
  own_edge given edge rest h = elim (CoreResult-cases (validate_edge edge)) [
    | inl (done, valid) ↦ ground arith
    | inr (failure, refused) ↦ absurd (ground arith)
  ]

  -- Edges that join the given nodes are grounded once these are in the graph, and so is the graph.
  module _ (given graph : List GraphNode) where
    grounded-put_edge :
        (edges : List GraphEdge) (edge : GraphEdge)
        → all (is_grounded graph) edges ≡ true
        → is_grounded graph edge ≡ true
        → all (is_grounded graph) (put_edge edges edge) ≡ true
    unfolding put_edge
    grounded-put_edge [] edge h mine = ground arith
    grounded-put_edge (existing ∷ edges) edge h mine = ground (arith, grounded-put_edge edges edge)

    pub grounded-put_edges :
        (edges more : List GraphEdge)
        → ((key : String)
            → any (λ node. node.key == key) given ≡ true
            → has_key graph tenant user key ≡ true)
        → validate_edges u tenant user id given more ≡ ok tt
        → all (is_grounded graph) edges ≡ true
        → all (is_grounded graph) (put_edges edges more) ≡ true
    unfolding put_edges
    grounded-put_edges edges [] known valid h = h
    grounded-put_edges edges (edge ∷ more) known valid h =
        let (mine, others) = edges-valid u tenant user id given edge more valid in
        let own = own_edge given edge more valid in
        let at_tenant : edge.tenant_id ≡ tenant =
          (str_iff edge.tenant_id tenant).0 (ground arith) in
        let at_user : edge.user_id ≡ user = (str_iff edge.user_id user).0 (ground arith) in
        let joined : is_grounded graph edge ≡ true =
          rw (at_tenant, at_user) (ground (arith, known edge.from_key, known edge.to_key)) in
        grounded-put_edges (put_edge edges edge) more known others
          (grounded-put_edge edges edge h joined)

-- Dropping the evidence of a memory and adding nodes leave the edges grounded.
pub grounded-without :
    (r : MemoryRecord) (nodes : List GraphNode) (edges : List GraphEdge)
    → all (is_grounded nodes) edges ≡ true
    → all
        (is_grounded nodes)
        (retain (λ edge. not (is_empty edge.source_memory_ids)) (map (edge_without r) edges))
      ≡ true
grounded-without r nodes [] h = refl
grounded-without r nodes (edge ∷ edges) h = ground (arith, grounded-without r nodes edges)

pub grounded-put_nodes :
    (nodes more : List GraphNode) (edges : List GraphEdge)
    → all (is_grounded nodes) edges ≡ true
    → all (is_grounded (put_nodes nodes more)) edges ≡ true
grounded-put_nodes nodes more [] h = refl
grounded-put_nodes nodes more (edge ∷ edges) h = ground (
  arith,
  has_key-put_nodes edge.tenant_id edge.user_id edge.from_key nodes more,
  has_key-put_nodes edge.tenant_id edge.user_id edge.to_key nodes more,
  grounded-put_nodes nodes more edges,
)
