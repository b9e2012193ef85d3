-- ===== src/Graph/Opposition.antt =====
-- domain/graph.rs, find_contradictions: it is silent exactly on lists without two edges that oppose.
use nextral.Base.{
  ◌≡◌, refl, ◌∙◌, sym, arith, inl, inr, Bool, true, false, Bool-cases, not, ◌&&◌, ◌||◌, List, [],
  ◌∷◌, is_empty, any, all, string_eq, str_iff,
}
use nextral.Graph.Records.{GraphEdge}
use nextral.Graph.Contradictions.{
  states, same_statement, same_polarity, has_evidence, conflicts_after, find_contradictions,
}

-- One of the edges affirms what the other denies.
abbrev pub opposes : GraphEdge → GraphEdge → Bool
opposes a b = same_statement a b && not (same_polarity (states a).1 (states b).1)

-- No edge of the list opposes a later one.
abbrev pub is_consistent : List GraphEdge → Bool
is_consistent [] = true
is_consistent (edge ∷ rest) = not (any (opposes edge) rest) && is_consistent rest

same_polarity-not : (p q : Bool) → same_polarity p (not q) ≡ not (same_polarity p q)
same_polarity-not true q = refl
same_polarity-not false q = refl

evidence_against :
    (earlier : List GraphEdge) (edge : GraphEdge)
    → has_evidence earlier edge (not (states edge).1) ≡ any (λ before. opposes before edge) earlier
unfolding has_evidence
evidence_against [] edge = refl
evidence_against (before ∷ earlier) edge =
    rw (same_polarity-not (states before).1 (states edge).1, evidence_against earlier edge) refl

same_for : (x e f : GraphEdge) → same_statement e f ≡ true → same_statement x e ≡ same_statement x f
same_for x e f h =
    let at_tenant : e.tenant_id ≡ f.tenant_id =
      (str_iff e.tenant_id f.tenant_id).0 (ground arith) in
    let at_user : e.user_id ≡ f.user_id = (str_iff e.user_id f.user_id).0 (ground arith) in
    let at_from : e.from_key ≡ f.from_key = (str_iff e.from_key f.from_key).0 (ground arith) in
    let stated : (states e).0 ≡ (states f).0 =
      (str_iff (states e).0 (states f).0).0 (ground arith) in
    let at_to : e.to_key ≡ f.to_key = (str_iff e.to_key f.to_key).0 (ground arith) in
    rw (at_tenant, at_user, at_from, stated, at_to) refl

evidence_same :
    (earlier : List GraphEdge) (e f : GraphEdge) (polarity : Bool)
    → same_statement e f ≡ true
    → has_evidence earlier e polarity ≡ has_evidence earlier f polarity
unfolding has_evidence
evidence_same [] e f polarity h = refl
evidence_same (x ∷ earlier) e f polarity h =
    rw (same_for x e f h, evidence_same earlier e f polarity h) refl

-- No statement has evidence for it and against it among the edges.
abbrev OneSided : List GraphEdge → Type 0
OneSided earlier =
    (f : GraphEdge) → (has_evidence earlier f true && has_evidence earlier f false) ≡ false

one_bit :
    (polarity : Bool) (found : Bool → Bool)
    → found (not polarity) ≡ false
    → ((same_polarity polarity true || found true) && (same_polarity polarity false || found false))
      ≡ false
one_bit true found h = ground (arith, h)
one_bit false found h = ground (arith, h)

OneSided-later :
    (earlier : List GraphEdge) (edge : GraphEdge)
    → OneSided earlier
    → has_evidence earlier edge (not (states edge).1) ≡ false
    → OneSided (edge ∷ earlier)
unfolding has_evidence
OneSided-later earlier edge before clear f = elim (Bool-cases (same_statement edge f)) [
  | inl same ↦
      let for_f = evidence_same earlier edge f (not (states edge).1) same in
      rw same (one_bit (states edge).1 (has_evidence earlier f) (sym for_f ∙ clear))
  | inr other ↦ rw (other) (before f)
]

both_bits :
    (polarity : Bool) (found : Bool → Bool)
    → (found true && found false) ≡ false
    → found (not polarity) ≡ true
    → found polarity ≡ false
both_bits true found h g = ground (arith, h, g)
both_bits false found h g = ground (arith, h, g)

none_before :
    (edge : GraphEdge) (rest earlier : List GraphEdge)
    → all (λ before. not (any (opposes before) (edge ∷ rest))) earlier ≡ (
        not (any (λ before. opposes before edge) earlier)
        && all (λ before. not (any (opposes before) rest)) earlier)
none_before edge rest [] = refl
none_before edge rest (before ∷ earlier) =
    split (opposes before edge) (any (opposes before) rest) _ _ _ (none_before edge rest earlier)
  where
    split :
        (a b c d e : Bool) → c ≡ (not d && e) → (not (a || b) && c) ≡ (not (a || d) && (not b && e))
    split a b c d e h = ground arith

nothing_after :
    (earlier : List GraphEdge)
    → (all (λ before. not (any (opposes before) [])) earlier && true) ≡ true
nothing_after [] = refl
nothing_after (before ∷ earlier) = nothing_after earlier

swap : (a b c : Bool) → ((a && b) && c) ≡ (b && (a && c))
swap a b c = ground arith

conflicts_after-silent :
    (earlier edges : List GraphEdge)
    → OneSided earlier
    → is_empty (conflicts_after earlier edges)
      ≡ (all (λ before. not (any (opposes before) edges)) earlier && is_consistent edges)
unfolding conflicts_after
conflicts_after-silent earlier [] h = sym (nothing_after earlier)
conflicts_after-silent earlier (edge ∷ rest) h =
    elim (Bool-cases (has_evidence earlier edge (not (states edge).1))) [
      | inl against ↦
          let alone = both_bits (states edge).1 (has_evidence earlier edge) (h edge) against in
          let found = sym (evidence_against earlier edge) ∙ against in
          rw (against, alone, none_before edge rest earlier, found) refl
      | inr clear ↦
          let nobody = sym (evidence_against earlier edge) ∙ clear in
          let later =
            conflicts_after-silent (edge ∷ earlier) rest (OneSided-later earlier edge h clear) in
          rw (clear, none_before edge rest earlier, nobody, later)
            (swap (not (any (opposes edge) rest)) _ _)
    ]

-- find_contradictions reports nothing exactly if no edge of the list denies what another one of the
-- same scope and ends affirms.
pub find_contradictions-silent :
    (edges : List GraphEdge) → is_empty (find_contradictions edges) ≡ is_consistent edges
unfolding find_contradictions has_evidence
find_contradictions-silent edges = conflicts_after-silent [] edges λ f. refl
