-- ===== src/Graph.antt =====
-- domain/graph.rs: which nodes and edges are valid, alone and as the evidence of one memory.
pub mod Records
pub mod Contradictions
pub mod Opposition
pub mod Extraction
pub mod Names
pub mod Constructors
pub mod Graphify
pub mod Runtime
pub mod Stamped
pub mod Merging
pub mod Traversal
pub mod Reach
pub mod Walks
pub mod Following
pub mod Answers
pub mod Ingestion
pub mod Commits
pub mod Replays
pub mod Keys
pub mod Grounding
pub mod Evidence
pub mod Histories
use nextral.Base.{
  ℕ, Bool, true, false, not, ◌&&◌, ◌||◌, String, Option, none, some, List, [], ◌∷◌, length,
  is_empty, any, contains, nat_eqb, ◌==◌, string_eq, is_blank, is_whitespace, is_empty_text, code,
  strip_prefix, text_append, if◌then◌else◌,
}
use nextral.Contracts.{CoreResult, ok, err, invalid_input, refuse, ◌>>=◌, ◌>>◌}
use nextral.Scope.{validate_scope_component}
use nextral.Memories.Life.{validate_score}
use nextral.Graph.Records.{GraphNode, GraphEdge}

abbrev pub node_labels : List String
node_labels = "Person" ∷ "Project" ∷ "Technology" ∷ "Organization" ∷ "Entity" ∷ "Concept" ∷ []

abbrev pub relationship_types : List String
relationship_types =
    "WORKS_ON" ∷ "USES" ∷ "OWNS" ∷ "DECIDED" ∷ "RELATED_TO" ∷ "DEPENDS_ON" ∷ "NOT_WORKS_ON"
    ∷ "NOT_USES" ∷ "NOT_OWNS" ∷ "NOT_DECIDED" ∷ "NOT_RELATED_TO" ∷ "NOT_DEPENDS_ON" ∷ []

-- `std`'s tables of Unicode, which the code reads through `char::to_lowercase`, `char::is_uppercase`,
-- `str::to_lowercase` and `str::to_uppercase`.
pub record Unicode : Type 0 where
  pub char_lowercase : ℕ → String
  pub is_uppercase : ℕ → Bool
  pub to_lowercase : String → String
  pub to_uppercase : String → String

-- `key.strip_prefix(label).and_then(|suffix| suffix.strip_prefix(':')) == Some(canonical)`
abbrev pub is_key_of : String → String → String → Bool
is_key_of key label canonical = elim (strip_prefix key label) [
  | none ↦ false
  | some suffix ↦ elim (strip_prefix suffix ":") [ none ↦ false | some rest ↦ rest == canonical ]
]

module _ (u : Unicode) where
  -- The words of the text in lower case, with one `_` between two of them. `inside` is whether the
  -- last character was of a word, `later` whether a word came before the next one.
  unfoldable pub canonical_from : Bool → Bool → String → String
  canonical_from inside later String.[] = String.[]
  canonical_from inside later (String.◌∷◌ c s) =
      if is_whitespace (code c)
      then canonical_from false later s
      else if later && not inside
      then text_append "_" (text_append (u.char_lowercase (code c)) (canonical_from true true s))
      else text_append (u.char_lowercase (code c)) (canonical_from true true s)

  unfoldable pub canonicalize : String → String
  unfolding canonical_from
  canonicalize name = canonical_from false false name

  unfoldable pub validate_node : GraphNode → CoreResult (Unit {0})
  validate_node node = do
    validate_scope_component node.tenant_id "tenant_id"
    validate_scope_component node.user_id "user_id"
    validate_score "graph confidence" node.confidence
    refuse
        (not (contains node_labels node.label)
          || is_blank node.name
          || not (node.canonical_name == canonicalize node.name)
          || not (is_key_of node.key node.label node.canonical_name))
        (invalid_input "invalid canonical graph node")

-- `for id in ids { validate_scope_component(id, name)?; }`
unfoldable pub validate_components : String → List String → CoreResult (Unit {0})
validate_components name [] = ok tt
validate_components name (id ∷ rest) = do
  validate_scope_component id name
  validate_components name rest

unfoldable pub validate_edge : GraphEdge → CoreResult (Unit {0})
validate_edge edge = do
  validate_scope_component edge.tenant_id "tenant_id"
  validate_scope_component edge.user_id "user_id"
  validate_score "graph confidence" edge.confidence
  refuse
      (not (contains relationship_types edge.relationship_type)
        || is_blank edge.from_key
        || is_blank edge.to_key
        || is_empty edge.source_memory_ids)
      (invalid_input "invalid graph edge or provenance")
  validate_components "source_memory_id" edge.source_memory_ids

abbrev pub is_sole : String → List String → Bool
is_sole id (only ∷ []) = only == id
is_sole id _ = false

module _ (u : Unicode) (tenant user id : String) where
  unfoldable pub validate_nodes : List GraphNode → CoreResult (Unit {0})
  validate_nodes [] = ok tt
  validate_nodes (node ∷ rest) = do
    validate_node u node
    refuse (not (node.tenant_id == tenant) || not (node.user_id == user))
        (invalid_input "graph node scope mismatch")
    validate_nodes rest

  -- The edge is the memory's own and joins two of the nodes.
  abbrev pub is_own_edge : List GraphNode → GraphEdge → Bool
  is_own_edge nodes edge =
      edge.tenant_id == tenant
      && edge.user_id == user
      && is_sole id edge.source_memory_ids
      && any (λ node. node.key == edge.from_key) nodes
      && any (λ node. node.key == edge.to_key) nodes

  unfoldable pub validate_edges : List GraphNode → List GraphEdge → CoreResult (Unit {0})
  validate_edges nodes [] = ok tt
  validate_edges nodes (edge ∷ rest) = do
    validate_edge edge
    refuse (not (is_own_edge nodes edge)) (invalid_input "graph source/endpoints mismatch")
    validate_edges nodes rest

  unfoldable pub validate_source_graph : List GraphNode → List GraphEdge → CoreResult (Unit {0})
  validate_source_graph nodes edges = do
    validate_scope_component tenant "tenant_id"
    validate_scope_component user "user_id"
    validate_scope_component id "memory_id"
    validate_nodes nodes
    validate_edges nodes edges
