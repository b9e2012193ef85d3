-- ===== src/Graph/Keys.antt =====
-- The key of a canonical node follows from its label and its canonical name.
use text.Mathlib.TextEquality.{Char-path}
use nextral.Base.{
  ◌≡◌, refl, ap, ◌∙◌, arith, inl, inr, Bool, true, String, some, Option-cases, strip_prefix,
  string_eq, str_iff,
}
use nextral.Contracts.{ok}
use nextral.Graph.Records.{GraphNode}
use nextral.Graph.{Unicode, is_key_of, validate_node}

-- A text is determined by a prefix and what it leaves.
strip_prefix-inj :
    (s t prefix rest : String)
    → strip_prefix s prefix ≡ some rest
    → strip_prefix t prefix ≡ some rest
    → s ≡ t
unfolding strip_prefix
strip_prefix-inj s t String.[] rest h g = cc
strip_prefix-inj String.[] t (String.◌∷◌ c prefix) rest h g = cc
strip_prefix-inj (String.◌∷◌ d s) String.[] (String.◌∷◌ c prefix) rest h g = cc
strip_prefix-inj (String.◌∷◌ d s) (String.◌∷◌ e t) (String.◌∷◌ c prefix) rest h g =
    let same_char : d ≡ e = Char-path d e (ground arith) in
    let same_rest : s ≡ t = strip_prefix-inj s t prefix rest (ground arith) (ground arith) in
    rw (same_char, same_rest) refl

module _ (label canonical : String) where
  pub key_unique :
      (k j : String)
      → is_key_of k label canonical ≡ true
      → is_key_of j label canonical ≡ true
      → k ≡ j
  key_unique k j mine other = elim (Option-cases (strip_prefix k label)) [
    | inl missing ↦ absurd (ground arith)
    | inr (a, at_k) ↦ elim (Option-cases (strip_prefix j label)) [
      | inl missing ↦ absurd (ground arith)
      | inr (b, at_j) ↦ elim (Option-cases (strip_prefix a ":")) [
        | inl missing ↦ absurd (ground arith)
        | inr (x, at_a) ↦ elim (Option-cases (strip_prefix b ":")) [
          | inl missing ↦ absurd (ground arith)
          | inr (y, at_b) ↦
              let left : x ≡ canonical = (str_iff x canonical).0 (ground arith) in
              let right : y ≡ canonical = (str_iff y canonical).0 (ground arith) in
              let same : a ≡ b =
                strip_prefix-inj a b ":" canonical (at_a ∙ ap some left) (at_b ∙ ap some right) in
              strip_prefix-inj k j label b (at_k ∙ ap some same) at_j
        ]
      ]
    ]
  ]

abbrev pub is_canonical : GraphNode → Bool
is_canonical node = is_key_of node.key node.label node.canonical_name

pub validate_node-canonical :
    (u : Unicode) (node : GraphNode) → validate_node u node ≡ ok tt → is_canonical node ≡ true
unfolding validate_node
validate_node-canonical u node h = ground arith
