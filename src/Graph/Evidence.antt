-- ===== src/Graph/Evidence.antt =====
-- The evidence that a memory gives is what its last commit brought.
use nextral.Base.{
  ◌≡◌, refl, ap, ◌∙◌, arith, inl, inr, Bool, true, false, not, ◌&&◌, ◌||◌, String, List, [], ◌∷◌,
  ◌++◌, map, any, contains, contains-append, contains-retain, retain, is_empty, Bool-cases, ◌==◌,
  string_eq, str_iff, if◌then◌else◌,
}
use nextral.Contracts.{ok}
use nextral.Memories.Records.{MemoryRecord}
use nextral.Memories.Store.{edge_without}
use nextral.Graph.Records.{GraphNode, GraphEdge}
use nextral.Graph.{Unicode, validate_edges, is_sole}
use nextral.Graph.Merging.{put_edge, same_edge, add_sources}
use nextral.Graph.Commits.{put_edges, edges-valid}
use nextral.Graph.Grounding.{own_edge}

-- The edge is the relationship of the other one and cites the memory.
abbrev pub cites_memory : String → GraphEdge → GraphEdge → Bool
cites_memory id relationship edge =
    same_edge edge relationship && contains edge.source_memory_ids id

contains-add_sources :
    (sources more : List String) (id : String)
    → contains (add_sources sources more) id ≡ (contains sources id || contains more id)
unfolding add_sources
contains-add_sources sources [] id = ground arith
contains-add_sources sources (m ∷ more) id = ground (
  arith,
  contains-add_sources (if contains sources m then sources else sources ++ (m ∷ [])) more id,
  contains-append sources (m ∷ []) id,
  str_iff m id,
)

contains-sole :
    (id : String) (sources : List String) → is_sole id sources ≡ true → contains sources id ≡ true
contains-sole id [] h = cc
contains-sole id (only ∷ []) h = ground arith
contains-sole id (x ∷ y ∷ rest) h = cc

same_edge-agree : (a b c : GraphEdge) → same_edge a b ≡ true → same_edge a c ≡ same_edge b c
same_edge-agree a b c same =
    let tenant : a.tenant_id ≡ b.tenant_id = (str_iff a.tenant_id b.tenant_id).0 (ground arith) in
    let user : a.user_id ≡ b.user_id = (str_iff a.user_id b.user_id).0 (ground arith) in
    let from : a.from_key ≡ b.from_key = (str_iff a.from_key b.from_key).0 (ground arith) in
    let relation : a.relationship_type ≡ b.relationship_type =
      (str_iff a.relationship_type b.relationship_type).0 (ground arith) in
    let to : a.to_key ≡ b.to_key = (str_iff a.to_key b.to_key).0 (ground arith) in
    rw (tenant, user, from, relation, to) refl

or_assoc : (a b c : Bool) → (a || (b || c)) ≡ ((a || b) || c)
or_assoc a b c = ground arith

or_absorb : (p c x d : Bool) → d ≡ true → (p && d || x) ≡ ((p && c || x) || p)
or_absorb p c x d h = ground arith

module _ (id : String) (relationship : GraphEdge) where
  cites-put_edge :
      (edges : List GraphEdge) (edge : GraphEdge)
      → contains edge.source_memory_ids id ≡ true
      → any (cites_memory id relationship) (put_edge edges edge)
        ≡ (any (cites_memory id relationship) edges || same_edge edge relationship)
  unfolding put_edge
  cites-put_edge [] edge cited = rw cited (ground arith)
  cites-put_edge (existing ∷ edges) edge cited =
      let later = any (cites_memory id relationship) edges in
      elim (Bool-cases (same_edge existing edge)) [
        | inl same ↦ rw same (
            or_absorb (same_edge existing relationship) (contains existing.source_memory_ids id)
              later (contains (add_sources existing.source_memory_ids edge.source_memory_ids) id)
              (contains-add_sources existing.source_memory_ids edge.source_memory_ids id
                ∙ ground arith)
            ∙ ap (λ x. (cites_memory id relationship existing || later) || x)
                (same_edge-agree existing edge relationship same))
        | inr other ↦ rw other (
            ap (λ x. cites_memory id relationship existing || x) (cites-put_edge edges edge cited)
            ∙ or_assoc (cites_memory id relationship existing) later (same_edge edge relationship))
      ]

module _ (r : MemoryRecord) (relationship : GraphEdge) where
  -- Once the evidence of a memory is dropped, no relationship of its scope cites it.
  pub cites-without :
      (edges : List GraphEdge)
      → relationship.tenant_id ≡ r.tenant_id
      → relationship.user_id ≡ r.user_id
      → any
          (cites_memory r.id relationship)
          (retain (λ edge. not (is_empty edge.source_memory_ids)) (map (edge_without r) edges))
        ≡ false
  cites-without [] tenant user = refl
  cites-without (edge ∷ edges) tenant user = ground (
    arith,
    cites-without edges tenant user,
    contains-retain (λ id. not (id == r.id)) edge.source_memory_ids r.id,
    str_iff r.id r.id,
    str_iff edge.tenant_id relationship.tenant_id,
    str_iff edge.user_id relationship.user_id,
    str_iff edge.tenant_id r.tenant_id,
    str_iff edge.user_id r.user_id,
  )

  module _ (u : Unicode) (given : List GraphNode) where
    pub cites-put_edges :
        (edges more : List GraphEdge)
        → validate_edges u r.tenant_id r.user_id r.id given more ≡ ok tt
        → any (cites_memory r.id relationship) (put_edges edges more) ≡ (
            any (cites_memory r.id relationship) edges
            || any (λ edge. same_edge edge relationship) more)
    unfolding put_edges
    cites-put_edges edges [] valid = ground arith
    cites-put_edges edges (edge ∷ more) valid =
        let (mine, others) = edges-valid u r.tenant_id r.user_id r.id given edge more valid in
        let own = own_edge u r.tenant_id r.user_id r.id given edge more valid in
        ground (
          arith,
          cites-put_edge r.id relationship edges edge
              (contains-sole r.id edge.source_memory_ids (ground arith)),
          cites-put_edges (put_edge edges edge) more others,
        )
