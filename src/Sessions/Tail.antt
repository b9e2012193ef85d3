-- ===== src/Sessions/Tail.antt =====
-- testkit/mod.rs, session_tail: what it gives of a session.
use nextral.Base.{
  ℕ, suc, ◌+◌, ◌≡◌, refl, arith, Bool, true, not_later, List, [], ◌∷◌, length, ◌&&◌, string_eq,
  if◌then◌else◌,
}
use nextral.Sessions.{SessionMessage, insert_message, sort_messages}

length-insert_message :
    (m : SessionMessage) (ms : List SessionMessage) → length (insert_message m ms) ≡ length ms + 1
unfolding insert_message
length-insert_message m [] = refl
length-insert_message m (n ∷ ms) = ground (arith, length-insert_message m ms)

length-sort_messages : (ms : List SessionMessage) → length (sort_messages ms) ≡ length ms
unfolding sort_messages
length-sort_messages [] = refl
length-sort_messages (m ∷ ms) =
    omega (arith, length-insert_message m (sort_messages ms), length-sort_messages ms)

-- How many messages of the list pass the test.
abbrev pub count : (SessionMessage → Bool) → List SessionMessage → ℕ
count p [] = 0
count p (m ∷ ms) = if p m then suc (count p ms) else count p ms

-- Each message is at most as late as the next one, by the text of the time.
abbrev pub in_order : List SessionMessage → Bool
in_order [] = true
in_order (m ∷ []) = true
in_order (m ∷ n ∷ rest) = not_later m.created_at n.created_at && in_order (n ∷ rest)
