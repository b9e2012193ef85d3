-- ===== src/Sessions/Appending.antt =====
-- An append under a key that was used is either a replay or a conflict.
use nextral.Base.{
  ◌≡◌, ◌∙◌, refl, inl, inr, arith, Bool, true, ◌&&◌, none, some, List, [], ◌∷◌, ◌++◌, find?,
  Option-cases, ◌==◌, string_eq, str_iff, if◌then◌else◌,
}
use nextral.Contracts.{ok, err, conflict, is_ok}
use nextral.Sessions.{SessionMessage, same_key, append_session_message}

find-append :
    (p : SessionMessage → Bool) (ms : List SessionMessage) (m : SessionMessage)
    → find? p ms ≡ none
    → p m ≡ true
    → find? p (ms ++ (m ∷ [])) ≡ some m
find-append p [] m none_there mine = ground arith
find-append p (n ∷ ms) m none_there mine = ground (arith, find-append p ms m)

same_key_self : (m : SessionMessage) → same_key m m ≡ true
same_key_self m = ground (
  arith,
  str_iff m.tenant_id m.tenant_id,
  str_iff m.user_id m.user_id,
  str_iff m.session_id m.session_id,
  str_iff m.idempotency_key m.idempotency_key,
)

find-agree :
    (p q : SessionMessage → Bool) (ms : List SessionMessage)
    → ((m : SessionMessage) → p m ≡ q m)
    → find? p ms ≡ find? q ms
find-agree p q [] agree = refl
find-agree p q (m ∷ ms) agree = ground (arith, agree m, find-agree p q ms agree)

same_key-agree : (m n x : SessionMessage) → same_key m n ≡ true → same_key n x ≡ same_key m x
same_key-agree m n x same =
    let same_tenant : n.tenant_id ≡ m.tenant_id =
      (str_iff n.tenant_id m.tenant_id).0 (ground arith) in
    let same_user : n.user_id ≡ m.user_id = (str_iff n.user_id m.user_id).0 (ground arith) in
    let same_session : n.session_id ≡ m.session_id =
      (str_iff n.session_id m.session_id).0 (ground arith) in
    let same_idempotency : n.idempotency_key ≡ m.idempotency_key =
      (str_iff n.idempotency_key m.idempotency_key).0 (ground arith) in
    rw (same_tenant, same_user, same_session, same_idempotency) refl

-- After an append that was accepted, an append of a message with the same session and idempotency key
-- adds nothing: it is accepted where content and role are the same, and is a conflict otherwise.
pub append_replayed :
    (ms : List SessionMessage) (m n : SessionMessage)
    → is_ok (append_session_message ms m).1 ≡ true
    → same_key m n ≡ true
    → let after = (append_session_message ms m).0 in
      append_session_message after n ≡ (
        after,
        if m.content == n.content && m.role == n.role
            then ok tt
            else err (conflict "session idempotency key reused for different message"),
      )
unfolding append_session_message
append_replayed ms m n good same = elim (Option-cases (find? (same_key m) ms)) [
  | inl new ↦
      let found : find? (same_key n) (ms ++ (m ∷ [])) ≡ some m =
        find-agree (same_key n) (same_key m) (ms ++ (m ∷ [])) (λ x. same_key-agree m n x same)
        ∙ find-append (same_key m) ms m new (same_key_self m) in
      ground (arith, found)
  | inr (e, old) ↦
      let found : find? (same_key n) ms ≡ some e =
        find-agree (same_key n) (same_key m) ms (λ x. same_key-agree m n x same) ∙ old in
      ground (arith, found, str_iff e.content m.content, str_iff e.role m.role)
]
