-- ===== src/Graph/Merging.antt =====
-- testkit/mod.rs, TestMemoryStore: merging nodes and edges into the graph.
use nextral.Base.{
  ◌≡◌, refl, ℕ, Bool, ◌&&◌, max, String, List, [], ◌∷◌, ◌++◌, any, contains, nat_eqb, ◌==◌,
  string_eq, if◌then◌else◌,
}
use nextral.Contracts.{CoreResult, ok, err}
use nextral.Graph.Records.{GraphNode, GraphEdge}
use nextral.Graph.{Unicode, validate_node, validate_edge}

-- `f32::max` on the bits of two scores: minus zero is below every other score, and the other scores
-- have the order of their bits.
abbrev pub score_max : ℕ → ℕ → ℕ
score_max a b = if nat_eqb a 0x80000000 then b else if nat_eqb b 0x80000000 then a else max a b

-- One node for each label and canonical name of a scope.
abbrev pub same_node : GraphNode → GraphNode → Bool
same_node a b =
    a.tenant_id == b.tenant_id
    && a.user_id == b.user_id
    && a.label == b.label
    && a.canonical_name == b.canonical_name

abbrev pub put_node : List GraphNode → GraphNode → List GraphNode
put_node nodes node =
    if any (λ existing. same_node existing node) nodes then nodes else nodes ++ (node ∷ [])

unfoldable pub merge_node :
    Unicode → List GraphNode → GraphNode → List GraphNode × CoreResult (Unit {0})
merge_node u nodes node = elim (validate_node u node) [
  | err failure ↦ (nodes, err failure)
  | ok valid ↦ (
    if any (λ existing. same_node existing node) nodes then nodes else nodes ++ (node ∷ []),
    ok tt,
  )
]

-- One edge for each relationship of two nodes of a scope.
abbrev pub same_edge : GraphEdge → GraphEdge → Bool
same_edge a b =
    a.tenant_id == b.tenant_id
    && a.user_id == b.user_id
    && a.from_key == b.from_key
    && a.relationship_type == b.relationship_type
    && a.to_key == b.to_key

unfoldable pub add_sources : List String → List String → List String
add_sources sources [] = sources
add_sources sources (id ∷ rest) =
    add_sources (if contains sources id then sources else sources ++ (id ∷ [])) rest

abbrev pub confirm : GraphEdge → GraphEdge → GraphEdge
confirm existing edge = record existing {
  last_confirmed_at = edge.last_confirmed_at;
  confidence = score_max existing.confidence edge.confidence;
  source_memory_ids = add_sources existing.source_memory_ids edge.source_memory_ids;
}

-- The first edge of the relationship is confirmed; a new relationship is added at the end.
unfoldable pub put_edge : List GraphEdge → GraphEdge → List GraphEdge
unfolding add_sources
put_edge [] edge = edge ∷ []
put_edge (existing ∷ rest) edge =
    if same_edge existing edge then confirm existing edge ∷ rest else existing ∷ put_edge rest edge

unfoldable pub merge_edge : List GraphEdge → GraphEdge → List GraphEdge × CoreResult (Unit {0})
merge_edge edges edge = elim (validate_edge edge) [
  | err failure ↦ (edges, err failure)
  | ok valid ↦ (put_edge edges edge, ok tt)
]

pub merge_node-ok :
    (u : Unicode) (nodes : List GraphNode) (node : GraphNode)
    → validate_node u node ≡ ok tt
    → merge_node u nodes node ≡ (put_node nodes node, ok tt)
unfolding merge_node
merge_node-ok u nodes node valid = rw (valid, merge_node) refl

pub merge_edge-ok :
    (edges : List GraphEdge) (edge : GraphEdge)
    → validate_edge edge ≡ ok tt
    → merge_edge edges edge ≡ (put_edge edges edge, ok tt)
unfolding merge_edge
merge_edge-ok edges edge valid = rw (valid, merge_edge) refl
