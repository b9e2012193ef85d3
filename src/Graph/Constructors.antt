-- ===== src/Graph/Constructors.antt =====
-- domain/graph.rs, GraphNode::new and GraphEdge::new: what they make is valid.
use mathlib.Core.Path.{subst}
use nextral.Base.{
  ◌≡◌, refl, ◌∙◌, arith, ℕ, Bool, true, false, not, ◌&&◌, ◌||◌, String, contains, is_blank, trim,
  ◌==◌, string_eq, str_iff,
}
use nextral.Memories.Life.{validate_score}
use nextral.Contracts.{ok_value, both_ok, refuse, refuse-passed, unless_refused, ok, is_ok}
use nextral.Scope.{validate_scope_component}
use nextral.Graph.Records.{GraphNode, GraphEdge}
use nextral.Graph.{
  Unicode, validate_node, validate_edge, node_labels, validate_components, is_sole, canonicalize,
}
use nextral.Graph.Names.{is_key_of_append, is_blank-trim, canonicalize-trim}
use nextral.Graph.Extraction.{node_of, edge_of, node_new, edge_new}

score_named :
    (name other : String) (score : ℕ)
    → validate_score name score ≡ ok tt
    → validate_score other score ≡ ok tt
unfolding validate_score
score_named name other score h = ground arith

ends_known :
    (a b known : Bool)
    → (a || b || not known) ≡ false
    → ((a ≡ false) × (b ≡ false)) × (known ≡ true)
ends_known a b known h = ((ground arith, ground arith), ground arith)

module _ (u : Unicode) (now tenant user : String) where
  abbrev pub is_own_node : GraphNode → Bool
  is_own_node node =
      is_ok (validate_node u node) && node.tenant_id == tenant && node.user_id == user

  pub node_new-valid :
      (label name : String) (confidence : ℕ) (node : GraphNode)
      → node_new u now tenant user label name confidence ≡ ok node
      → is_own_node node ≡ true
  unfolding node_new validate_node
  node_new-valid label name confidence node h =
      let (scored, a) = both_ok (validate_score "confidence" confidence) h in
      let (at_tenant, b) = both_ok (validate_scope_component tenant "tenant_id") a in
      let (at_user, c) = both_ok (validate_scope_component user "user_id") b in
      let (labelled, d) = both_ok (refuse (not (contains node_labels (trim label))) _) c in
      let (named, e) = both_ok (refuse (is_blank name) _) d in
      let known : contains node_labels (trim label) ≡ true = unless_refused _ _ labelled in
      let filled : is_blank (trim name) ≡ false =
        is_blank-trim name ∙ refuse-passed (is_blank name) _ named in
      let canonical : (canonicalize u name == canonicalize u (trim name)) ≡ true =
        rw (canonicalize-trim u name)
          ((str_iff (canonicalize u name) (canonicalize u name)).1 refl) in
      let keyed = is_key_of_append (trim label) (canonicalize u name) in
      let valid : validate_node u (node_of u now tenant user label name confidence) ≡ ok tt =
        rw
          (
            at_tenant,
            at_user,
            score_named "confidence" "graph confidence" confidence scored,
            known,
            filled,
            canonical,
            keyed,
          )
          refl in
      subst (λ n. is_own_node n ≡ true) (ok_value e)
        (rw (valid, (str_iff tenant tenant).1 refl, (str_iff user user).1 refl) refl)

  -- The edge is valid and of the memory's scope, its evidence the memory alone.
  module _ (id : String) where
    abbrev pub is_scoped : GraphEdge → Bool
    is_scoped edge =
        is_ok (validate_edge edge)
        && edge.tenant_id == tenant
        && edge.user_id == user
        && is_sole id edge.source_memory_ids

    abbrev pub ends_at : String → String → GraphEdge → Bool
    ends_at from to edge = edge.from_key == from && edge.to_key == to

    pub edge_new-valid :
        (from relation to : String) (confidence : ℕ) (edge : GraphEdge)
        → edge_new u now tenant user from relation to confidence id ≡ ok edge
        → (is_scoped edge && ends_at from to edge) ≡ true
    unfolding edge_new validate_edge validate_components
    edge_new-valid from relation to confidence edge h =
        let (scored, a) = both_ok (validate_score "confidence" confidence) h in
        let (at_tenant, b) = both_ok (validate_scope_component tenant "tenant_id") a in
        let (at_user, c) = both_ok (validate_scope_component user "user_id") b in
        let (at_id, d) = both_ok (validate_scope_component id "source_memory_id") c in
        let (joins, e) = both_ok (refuse _ _) d in
        let (ends, known) = ends_known (is_blank from) (is_blank to) _ (refuse-passed _ _ joins) in
        let valid : validate_edge (edge_of u now tenant user from relation to confidence id)
            ≡ ok tt =
          rw
            (
              at_tenant,
              at_user,
              score_named "confidence" "graph confidence" confidence scored,
              known,
              ends.0,
              ends.1,
              at_id,
            )
            refl in
        subst (λ x. (is_scoped x && ends_at from to x) ≡ true) (ok_value e)
          (rw
            (
              valid,
              (str_iff tenant tenant).1 refl,
              (str_iff user user).1 refl,
              (str_iff id id).1 refl,
              (str_iff from from).1 refl,
              (str_iff to to).1 refl,
            )
            refl)
