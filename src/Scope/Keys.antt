-- ===== src/Scope/Keys.antt =====
-- The composite keys of the durable state, as the runtime formats them, and why they do not collide.
use text.Mathlib.TextLemmas.{nil-append, cons-append, cons-eq-cons, append_cancel_left}
use nextral.Base.{
  false, ◌≡◌, refl, ◌≢◌, sym, ◌∙◌, ap, arith, String, Char, code, nat_eqb, any_char, text_append,
  ◌==◌, string_eq, if◌then◌else◌,
}
use nextral.Contracts.{ok}
use nextral.Scope.{validate_scope_component, is_separator}

-- The families of keys that carry a user and an identifier.
pub data KeyKind : Type 0 where
  forgotten_source summary forget reminder session_activity : KeyKind

unfoldable pub kind_text : KeyKind → String
kind_text forgotten_source = "forgotten-source"
kind_text summary = "summary"
kind_text forget = "forget"
kind_text reminder = "reminder"
kind_text session_activity = "session-activity"

-- `format!("{kind}/{user}/{id}")`
unfoldable pub user_key : KeyKind → String → String → String
unfolding kind_text
user_key kind user id =
    text_append (kind_text kind) (text_append "/" (text_append user (text_append "/" id)))

-- `format!("privacy/{user}")`
unfoldable pub privacy_key : String → String
privacy_key user = text_append "privacy/" user

abbrev SlashFree : String → Type 0
SlashFree s = any_char (λ c. nat_eqb c b'/') s ≡ false

separator_free : (s : String) → any_char is_separator s ≡ false → SlashFree s
unfolding any_char
separator_free String.[] h = refl
separator_free (String.◌∷◌ c s) h = ground (arith, separator_free s)

-- An accepted component holds no slash.
pub validate_scope_component-SlashFree :
    (value name : String) → validate_scope_component value name ≡ ok tt → SlashFree value
unfolding validate_scope_component
validate_scope_component-SlashFree value name h = separator_free value (ground arith)

slash-append : (s : String) → text_append "/" s ≡ String.◌∷◌ "/" s
slash-append s = cons-append "/" "" s ∙ ap (String.◌∷◌ "/") (nil-append s)

-- A text that begins with a slash does not go on from a slash-free character.
slash_ne :
    (c : Char) (s t : String) → nat_eqb (code c) b'/' ≡ false → String.◌∷◌ "/" s ≢ String.◌∷◌ c t
slash_ne c s t h e = ground (arith, ap code ((cons-eq-cons {x = "/"}).0 e).0)

-- Two texts that agree have the same first segment and the same rest, where segments end in a slash.
pub segment_inj :
    (u v s t : String)
    → SlashFree u
    → SlashFree v
    → text_append u (text_append "/" s) ≡ text_append v (text_append "/" t)
    → (u ≡ v) × (s ≡ t)
unfolding any_char
segment_inj String.[] String.[] s t hu hv e =
    (refl, append_cancel_left "/" s t (sym (nil-append _) ∙ e ∙ nil-append _))
segment_inj String.[] (String.◌∷◌ c v) s t hu hv e = absurd (
    slash_ne c s _ (ground arith)
      (sym (slash-append s) ∙ sym (nil-append _) ∙ e ∙ cons-append c v _))
segment_inj (String.◌∷◌ c u) String.[] s t hu hv e = absurd (
    slash_ne c t _ (ground arith)
      (sym (slash-append t) ∙ sym (nil-append _) ∙ sym e ∙ cons-append c u _))
segment_inj (String.◌∷◌ c u) (String.◌∷◌ d v) s t hu hv e =
    let step = cons-eq-cons.0 (sym (cons-append c u _) ∙ e ∙ cons-append d v _) in
    let (same, rest) = segment_inj u v s t (ground arith) (ground arith) step.1 in
    (cons-eq-cons.1 (step.0, same), rest)

kind_text-SlashFree : (k : KeyKind) → SlashFree (kind_text k)
unfolding kind_text any_char
kind_text-SlashFree forgotten_source = refl
kind_text-SlashFree _ = refl

kind_of : String → KeyKind
kind_of s =
    if s == "forgotten-source"
    then forgotten_source
    else if s == "summary"
    then summary
    else if s == "forget"
    then forget
    else if s == "reminder"
    then reminder
    else session_activity

kind_of-kind_text : (k : KeyKind) → kind_of (kind_text k) ≡ k
unfolding kind_of kind_text
kind_of-kind_text forgotten_source = refl
kind_of-kind_text _ = refl

-- Keys of accepted users are equal only if family, user and identifier are: no user's key of one
-- family can stand for another user's key, nor for a key of another family.
pub user_key_inj :
    (j k : KeyKind) (u v s t : String)
    → validate_scope_component u "user_id" ≡ ok tt
    → validate_scope_component v "user_id" ≡ ok tt
    → user_key j u s ≡ user_key k v t
    → (j ≡ k) × (u ≡ v) × (s ≡ t)
unfolding user_key
user_key_inj j k u v s t hu hv e =
    let (kinds, tails) =
      segment_inj (kind_text j) (kind_text k) _ _ (kind_text-SlashFree j) (kind_text-SlashFree k)
        e in
    let (users, ids) =
      segment_inj u v s t (validate_scope_component-SlashFree u "user_id" hu)
        (validate_scope_component-SlashFree v "user_id" hv) tails in
    (sym (kind_of-kind_text j) ∙ ap kind_of kinds ∙ kind_of-kind_text k, users, ids)
