-- ===== src/Graph/Extraction.antt =====
-- domain/graph.rs: the nodes and edges that a memory and the hints of a host give. `now` is the text of
-- the present second.
use Prim.Native.Nat.{Ordering, compare}
use Prim.Native.String
use nextral.Base.{
  ℕ, ◌+◌, ◌-◌, ◌^◌, min, Bool, false, not, ◌&&◌, ◌||◌, String, code, List, [], ◌∷◌, ◌++◌, length,
  is_empty, contains, ltb, ◌==◌, string_eq, is_blank, trim, contains_text, text_append, then_cmp,
  sort_by, dedup_by, if◌then◌else◌,
}
use nextral.Contracts.{CoreResult, ok, invalid_input, refuse, ◌>>=◌, ◌>>◌}
use nextral.Scope.{validate_scope_component}
use nextral.Memories.Records.{MemoryRecord}
use nextral.Memories.Life.{validate_score}
use nextral.Graph.Records.{GraphNode, GraphEdge, GraphHint}
use nextral.Graph.Contradictions.{find_contradictions}
use nextral.Graph.{Unicode, node_labels, relationship_types, canonicalize}

pub record GraphifyOutput : Type 0 where
  pub trace_id : String
  pub nodes : List GraphNode
  pub relationships : List GraphEdge
  pub contradictions : List String
  pub confidence_calibration_version : String
  pub contradiction_class : String
  pub evidence_count : ℕ

-- `f32::total_cmp` on the bits of the floats.
abbrev total_key : ℕ → ℕ
total_key bits = if ltb bits (2 ^ 31) then bits + 2 ^ 31 else 2 ^ 32 - 1 - bits

abbrev total_cmp : ℕ → ℕ → Ordering
total_cmp a b = compare (total_key a) (total_key b)

abbrev pub compare_edges : GraphEdge → GraphEdge → Ordering
compare_edges left right = then_cmp (String.compare left.from_key right.from_key) (
    then_cmp (String.compare left.relationship_type right.relationship_type) (
      then_cmp (String.compare left.to_key right.to_key)
        (total_cmp right.confidence left.confidence)))

abbrev pub same_relationship : GraphEdge → GraphEdge → Bool
same_relationship left right =
    left.from_key == right.from_key
    && left.relationship_type == right.relationship_type
    && left.to_key == right.to_key

abbrev pub compare_nodes : GraphNode → GraphNode → Ordering
compare_nodes left right = then_cmp (String.compare left.tenant_id right.tenant_id) (
    then_cmp (String.compare left.user_id right.user_id)
      (then_cmp (String.compare left.key right.key) (total_cmp right.confidence left.confidence)))

abbrev pub same_key_node : GraphNode → GraphNode → Bool
same_key_node left right =
    left.tenant_id == right.tenant_id && left.user_id == right.user_id && left.key == right.key

unfoldable pub dedup_nodes : List GraphNode → List GraphNode
dedup_nodes nodes = dedup_by same_key_node (sort_by compare_nodes nodes)

unfoldable pub dedup_edges : List GraphEdge → List GraphEdge
dedup_edges edges = dedup_by same_relationship (sort_by compare_edges edges)

module _ (u : Unicode) (now : String) where
  abbrev pub node_of : String → String → String → String → ℕ → GraphNode
  node_of tenant user label name confidence = record {
    tenant_id = tenant;
    user_id = user;
    label = trim label;
    name = trim name;
    canonical_name = canonicalize u name;
    key = text_append (trim label) (text_append ":" (canonicalize u name));
    confidence = confidence;
    created_at = now;
  }

  unfoldable pub node_new : String → String → String → String → ℕ → CoreResult GraphNode
  unfolding canonicalize trim
  node_new tenant user label name confidence = do
    validate_score "confidence" confidence
    validate_scope_component tenant "tenant_id"
    validate_scope_component user "user_id"
    refuse (not (contains node_labels (trim label))) (invalid_input "unsupported graph node label")
    refuse (is_blank name) (invalid_input "graph entity name is required")
    ok (node_of tenant user label name confidence)

  abbrev pub edge_of : String → String → String → String → String → ℕ → String → GraphEdge
  edge_of tenant user from relation to confidence source = record {
    tenant_id = tenant;
    user_id = user;
    from_key = from;
    relationship_type = u.to_uppercase (trim relation);
    to_key = to;
    confidence = confidence;
    source_memory_ids = source ∷ [];
    created_at = now;
    last_confirmed_at = now;
  }

  unfoldable pub edge_new :
      String → String → String → String → String → ℕ → String → CoreResult GraphEdge
  unfolding trim
  edge_new tenant user from relation to confidence source = do
    validate_score "confidence" confidence
    validate_scope_component tenant "tenant_id"
    validate_scope_component user "user_id"
    validate_scope_component source "source_memory_id"
    refuse
        (is_blank from
          || is_blank to
          || not (contains relationship_types (u.to_uppercase (trim relation))))
        (invalid_input "invalid graph endpoints or relationship type")
    ok (edge_of tenant user from relation to confidence source)

  abbrev first_is_uppercase : String → Bool
  first_is_uppercase String.[] = false
  first_is_uppercase (String.◌∷◌ c s) = u.is_uppercase (code c)

  unfoldable pub infer_label : String → String
  unfolding contains_text
  infer_label entity =
      if contains_text (u.to_lowercase entity) "postgres"
        || contains_text (u.to_lowercase entity) "redis"
        || contains_text (u.to_lowercase entity) "neo4j"
        || contains_text (u.to_lowercase entity) "qdrant"
      then "Technology"
      else if first_is_uppercase entity
      then "Entity"
      else "Concept"

  abbrev inferred_relation : String → String
  inferred_relation content =
      if contains_text content " use " || contains_text content " using "
      then "USES"
      else if contains_text content " owns " || contains_text content " owner "
      then "OWNS"
      else if contains_text content " decide" || contains_text content " chose "
      then "DECIDED"
      else "RELATED_TO"

  -- `entities.windows(2)`
  unfoldable pub hints_between : String → List String → List GraphHint
  unfolding infer_label
  hints_between relation [] = []
  hints_between relation (a ∷ []) = []
  hints_between relation (a ∷ b ∷ rest) =
      record {
        from_label = infer_label a;
        from_name = a;
        relationship_type = relation;
        to_label = infer_label b;
        to_name = b;
        confidence = 0x3F266666;
      }
      ∷ hints_between relation (b ∷ rest)

  unfoldable pub heuristic_hints : MemoryRecord → List GraphHint
  unfolding hints_between
  heuristic_hints r = hints_between (inferred_relation (u.to_lowercase r.content)) r.entities

  abbrev pub hints_of : MemoryRecord → List GraphHint → List GraphHint
  hints_of r hints = if is_empty hints then heuristic_hints r else hints

  unfoldable pub validate_graph_hint : GraphHint → CoreResult (Unit {0})
  unfolding trim
  validate_graph_hint hint = do
    refuse (not (contains node_labels (trim hint.from_label)))
        (invalid_input (text_append "unsupported from_label " hint.from_label))
    refuse (not (contains node_labels (trim hint.to_label)))
        (invalid_input (text_append "unsupported to_label " hint.to_label))
    refuse (not (contains relationship_types (u.to_uppercase (trim hint.relationship_type))))
        (invalid_input (text_append "unsupported relationship_type " hint.relationship_type))
    validate_score "confidence" hint.confidence

  unfoldable pub entity_nodes : MemoryRecord → List String → CoreResult (List GraphNode)
  unfolding node_new infer_label
  entity_nodes r [] = ok []
  entity_nodes r (entity ∷ rest) =
      let later = entity_nodes r rest in
      if is_blank entity then later else (do
        node ← node_new r.tenant_id r.user_id (infer_label entity) entity 0x3F4CCCCD
        nodes ← later
        ok (node ∷ nodes))

  -- The nodes and the edges of the hints, in their order.
  unfoldable pub hint_graph :
      MemoryRecord → List GraphHint → CoreResult (List GraphNode × List GraphEdge)
  unfolding node_new edge_new validate_graph_hint
  hint_graph r [] = ok ([], [])
  hint_graph r (hint ∷ rest) = do
    validate_graph_hint hint
    from ← node_new r.tenant_id r.user_id hint.from_label hint.from_name hint.confidence
    to ← node_new r.tenant_id r.user_id hint.to_label hint.to_name hint.confidence
    edge ←
        edge_new r.tenant_id r.user_id from.key hint.relationship_type to.key hint.confidence r.id
    found ← hint_graph r rest
    ok (from ∷ to ∷ found.0, edge ∷ found.1)

  abbrev class_of : List String → String
  class_of [] = "none"
  class_of (one ∷ []) = "single_conflict"
  class_of _ = "multi_conflict"

  module _ (deterministic_id : List String → String) where
    abbrev pub output_of : MemoryRecord → List GraphNode → List GraphEdge → GraphifyOutput
    output_of r nodes edges = record {
      trace_id = deterministic_id (r.id ∷ r.user_id ∷ "graphify_trace" ∷ []);
      nodes = nodes;
      relationships = edges;
      contradictions = find_contradictions edges;
      confidence_calibration_version = "native-v2";
      contradiction_class = class_of (find_contradictions edges);
      evidence_count = min (length nodes + length edges) (2 ^ 32 - 1);
    }

    unfoldable pub graphify_record : MemoryRecord → List GraphHint → CoreResult GraphifyOutput
    unfolding entity_nodes hint_graph heuristic_hints dedup_nodes dedup_edges find_contradictions
    graphify_record r hints = do
      nodes ← entity_nodes r r.entities
      found ← hint_graph r (hints_of r hints)
      ok (output_of r (dedup_nodes (nodes ++ found.0)) (dedup_edges found.1))
