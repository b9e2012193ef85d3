-- ===== src/Graph/Names.antt =====
-- Canonical names and keys do not depend on the white space around a name.
use text.Mathlib.TextLemmas.{nil-append, cons-append}
use nextral.Base.{
  ◌≡◌, refl, ap, ◌∙◌, sym, arith, inl, inr, Bool, true, false, String, code, some, Bool-cases,
  is_blank, all_chars, is_whitespace, is_empty_text, trim, trim_start, trim_end, strip_prefix,
  text_append, string_eq, str_iff,
}
use nextral.Graph.{Unicode, canonicalize, canonical_from, is_key_of}

strip_prefix-append : (prefix s : String) → strip_prefix (text_append prefix s) prefix ≡ some s
unfolding strip_prefix
strip_prefix-append String.[] s = ap some (nil-append s)
strip_prefix-append (String.◌∷◌ c prefix) s =
    ap (λ t. strip_prefix t (String.◌∷◌ c prefix)) (cons-append c prefix s)
    ∙ ground (arith, strip_prefix-append prefix s)

-- The key that a node is given is the one of its label and canonical name.
pub is_key_of_append :
    (label canonical : String)
    → is_key_of (text_append label (text_append ":" canonical)) label canonical ≡ true
is_key_of_append label canonical = ground (
  arith,
  strip_prefix-append label (text_append ":" canonical),
  strip_prefix-append ":" canonical,
  str_iff canonical canonical,
)

blank_end : (s : String) → is_empty_text (trim_end s) ≡ all_chars is_whitespace s
unfolding trim_end all_chars
blank_end String.[] = refl
blank_end (String.◌∷◌ c s) = ground (arith, blank_end s)

blank_of_end : (s : String) → all_chars is_whitespace (trim_end s) ≡ all_chars is_whitespace s
unfolding trim_end all_chars
blank_of_end String.[] = refl
blank_of_end (String.◌∷◌ c s) = ground (arith, blank_end s, blank_of_end s)

blank_of_start : (s : String) → all_chars is_whitespace (trim_start s) ≡ all_chars is_whitespace s
unfolding trim_start all_chars
blank_of_start String.[] = refl
blank_of_start (String.◌∷◌ c s) = ground (arith, blank_of_start s)

pub is_blank-trim : (s : String) → is_blank (trim s) ≡ is_blank s
unfolding trim is_blank
is_blank-trim s = blank_of_end (trim_start s) ∙ blank_of_start s

empty_text : (s : String) → is_empty_text s ≡ true → s ≡ ""
empty_text String.[] h = refl
empty_text (String.◌∷◌ c s) h = cc

module _ (u : Unicode) where
  canonical_end :
      (inside later : Bool) (s : String)
      → canonical_from u inside later (trim_end s) ≡ canonical_from u inside later s
  unfolding canonical_from trim_end
  canonical_end inside later String.[] = refl
  canonical_end inside later (String.◌∷◌ c s) = elim (Bool-cases (is_whitespace (code c))) [
    | inl space ↦ elim (Bool-cases (is_empty_text (trim_end s))) [
      | inl e ↦
          rw (space, e)
            (ap (canonical_from u false later) (sym (empty_text (trim_end s) e))
              ∙ canonical_end false later s)
      | inr e ↦ rw (space, e, space, canonical_end false later s) refl
    ]
    | inr letter ↦ rw (letter, letter, canonical_end true true s) refl
  ]

  canonical_start :
      (s : String) → canonical_from u false false (trim_start s) ≡ canonical_from u false false s
  unfolding canonical_from trim_start
  canonical_start String.[] = refl
  canonical_start (String.◌∷◌ c s) = ground (arith, canonical_start s)

  pub canonicalize-trim : (s : String) → canonicalize u (trim s) ≡ canonicalize u s
  unfolding canonicalize trim
  canonicalize-trim s = canonical_end false false (trim_start s) ∙ canonical_start s
