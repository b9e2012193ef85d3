-- ===== src/Sessions.antt =====
-- domain/session.rs and `impl SessionStore for TestMemoryStore` in testkit/mod.rs: the messages of
-- sessions, appended under an idempotency key, and the tail of a session.
pub mod Appending
pub mod Tail
use Prim.Native.Nat.{Ordering}
use Prim.Native.String.{compare}
use nextral.Base.{
  ℕ, zero, suc, ◌-◌, Bool, true, false, not, ◌&&◌, ◌||◌, String, Option, none, some, List, [], ◌∷◌,
  ◌++◌, length, retain, find?, ltb, ◌==◌, string_eq, if◌then◌else◌,
}
use nextral.Contracts.{CoreResult, ok, err, conflict}
use nextral.Json.{Value}

pub record SessionMessage : Type 0 where
  pub id : String
  pub tenant_id : String
  pub user_id : String
  pub session_id : String
  pub role : String
  pub content : String
  pub idempotency_key : String
  pub created_at : String
  pub source_metadata : Value

-- The messages of the same session with the same idempotency key.
abbrev pub same_key : SessionMessage → SessionMessage → Bool
same_key message existing =
    existing.tenant_id == message.tenant_id
    && existing.user_id == message.user_id
    && existing.session_id == message.session_id
    && existing.idempotency_key == message.idempotency_key

unfoldable pub append_session_message :
    List SessionMessage → SessionMessage → List SessionMessage × CoreResult (Unit {0})
append_session_message messages message = elim (find? (same_key message) messages) [
  | none ↦ (messages ++ (message ∷ []), ok tt)
  | some existing ↦
      if not (existing.content == message.content) || not (existing.role == message.role)
      then (messages, err (conflict "session idempotency key reused for different message"))
      else (messages, ok tt)
]

abbrev pub in_session : String → String → String → SessionMessage → Bool
in_session tenant user session m =
    m.tenant_id == tenant && m.user_id == user && m.session_id == session

abbrev not_after : SessionMessage → SessionMessage → Bool
not_after a b = elim (compare a.created_at b.created_at) [ Ordering.gt ↦ false | _ ↦ true ]

-- The stable sort by the text of the time.
unfoldable pub insert_message : SessionMessage → List SessionMessage → List SessionMessage
insert_message m [] = m ∷ []
insert_message m (n ∷ rest) = if not_after m n then m ∷ n ∷ rest else n ∷ insert_message m rest

unfoldable pub sort_messages : List SessionMessage → List SessionMessage
unfolding insert_message
sort_messages [] = []
sort_messages (m ∷ rest) = insert_message m (sort_messages rest)

-- `messages[n..]`
abbrev pub drop_first : ℕ → List SessionMessage → List SessionMessage
drop_first zero messages = messages
drop_first (suc n) [] = []
drop_first (suc n) (m ∷ rest) = drop_first n rest

abbrev pub last_of : ℕ → List SessionMessage → List SessionMessage
last_of limit messages =
    if ltb limit (length messages) then drop_first (length messages - limit) messages else messages

unfoldable pub session_tail :
    List SessionMessage → String → String → String → ℕ → List SessionMessage
unfolding sort_messages
session_tail messages tenant user session limit =
    last_of limit (sort_messages (retain (in_session tenant user session) messages))
