-- ===== src/Examples/Sessions.antt =====
-- Sessions at concrete inputs: a message that is sent twice, and the tail of a session.
use nextral.Base.{
  ◌&&◌, ◌==◌, ◌≡◌, refl, String, true, ◌&&◌, List, [], ◌∷◌, ◌==◌, string_eq, if◌then◌else◌,
}
use nextral.Contracts.{ok, err, conflict, is_ok}
use nextral.Json.{null}
use nextral.Sessions.{SessionMessage, append_session_message, session_tail}
use nextral.Sessions.Appending.{append_replayed}

abbrev message : String → String → String → SessionMessage
message key content time = record {
  id = key;
  tenant_id = "acme";
  user_id = "alice";
  session_id = "s1";
  role = "user";
  content = content;
  idempotency_key = key;
  created_at = time;
  source_metadata = null;
}

abbrev hello : SessionMessage
hello = message "k1" "hello" "1"

abbrev goodbye : SessionMessage
goodbye = message "k1" "goodbye" "2"

first_accepted : is_ok (append_session_message [] hello).1 ≡ true
unfolding append_session_message
first_accepted = refl

append_replayed_example :
    let after = (append_session_message [] hello).0 in
    append_session_message after goodbye ≡ (
      after,
      if hello.content == goodbye.content && hello.role == goodbye.role
          then ok tt
          else err (conflict "session idempotency key reused for different message"),
    )
append_replayed_example = append_replayed [] hello goodbye first_accepted refl

abbrev history : List SessionMessage
history = message "k3" "three" "3" ∷ message "k1" "one" "1" ∷ message "k2" "two" "2" ∷ []

-- The two latest, in order.
latest :
    session_tail history "acme" "alice" "s1" 2
    ≡ message "k2" "two" "2" ∷ message "k3" "three" "3" ∷ []
unfolding session_tail
latest = refl
