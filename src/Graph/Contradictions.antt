-- ===== src/Graph/Contradictions.antt =====
-- domain/graph.rs, find_contradictions: relationships that one edge affirms and another denies.
use nextral.Base.{
  Bool, true, false, not, ◌&&◌, ◌||◌, String, none, some, List, [], ◌∷◌, ◌==◌, string_eq,
  strip_prefix, text_append, if◌then◌else◌,
}
use nextral.Graph.Records.{GraphEdge}

-- What an edge states: its relation and whether it affirms it.
abbrev affirmed : String → String × Bool
affirmed relation = elim (strip_prefix relation "NOT_") [
  | none ↦ (relation, true)
  | some denied ↦ (denied, false)
]

abbrev pub states : GraphEdge → String × Bool
states edge = affirmed edge.relationship_type

abbrev pub same_statement : GraphEdge → GraphEdge → Bool
same_statement a b =
    a.tenant_id == b.tenant_id
    && a.user_id == b.user_id
    && a.from_key == b.from_key
    && (states a).0 == (states b).0
    && a.to_key == b.to_key

abbrev pub same_polarity : Bool → Bool → Bool
same_polarity true p = p
same_polarity false p = not p

-- The two bits that `seen` has for what the edge states: evidence for it, and against it.
unfoldable pub has_evidence : List GraphEdge → GraphEdge → Bool → Bool
unfolding strip_prefix
has_evidence [] edge polarity = false
has_evidence (before ∷ rest) edge polarity =
    same_statement before edge && same_polarity (states before).1 polarity
    || has_evidence rest edge polarity

abbrev conflict_text : GraphEdge → String
conflict_text edge = text_append "opposed " (
    text_append (states edge).0
      (text_append " evidence for " (text_append edge.from_key (text_append " -> " edge.to_key))))

-- `earlier` are the edges that the loop has been over.
unfoldable pub conflicts_after : List GraphEdge → List GraphEdge → List String
unfolding has_evidence
conflicts_after earlier [] = []
conflicts_after earlier (edge ∷ rest) =
    let later = conflicts_after (edge ∷ earlier) rest in
    if has_evidence earlier edge (not (states edge).1)
      && not (has_evidence earlier edge (states edge).1)
    then conflict_text edge ∷ later
    else later

unfoldable pub find_contradictions : List GraphEdge → List String
unfolding conflicts_after
find_contradictions edges = conflicts_after [] edges
