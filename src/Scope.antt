-- ===== src/Scope.antt =====
-- store.rs: which texts may name a tenant, a user, a session or a memory.
-- runtime/lifecycle.rs: the identity check that every operation starts with.
pub mod Keys
use nextral.Base.{
  ℕ, Bool, ◌||◌, String, Option, none, some, nat_eqb, is_control, is_blank, any_char, text_append,
}
use nextral.Contracts.{CoreResult, ok, err, invalid_input, refuse, ◌>>=◌, ◌>>◌}

-- `c == '/' || c == '\\' || c.is_control()`
abbrev pub is_separator : ℕ → Bool
is_separator c = nat_eqb c b'/' || nat_eqb c 92 || is_control c

unfoldable pub validate_scope_component : String → String → CoreResult (Unit {0})
validate_scope_component value name = refuse (is_blank value || any_char is_separator value) (
    invalid_input
      (text_append name " must be nonempty without path separators or control characters"))

unfoldable pub validate_session : Option String → CoreResult (Unit {0})
unfolding validate_scope_component
validate_session none = ok tt
validate_session (some session) = validate_scope_component session "session_id"

unfoldable pub validate_identity : String → String → Option String → CoreResult (Unit {0})
unfolding validate_scope_component validate_session
validate_identity tenant user session = do
  validate_scope_component tenant "tenant_id"
  validate_scope_component user "user_id"
  validate_session session
