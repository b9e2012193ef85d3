-- ===== src/Examples/Plans.antt =====
-- Plans and keys at concrete inputs.
use nextral.Base.{true, all, ◌≡◌, refl, String, is_blank, any_char}
use nextral.Kinds.{episodic, memory_type_eq}
use nextral.Topology.{profile, role_eq}
use nextral.Planner.{ingest, forget, redact, operation_plan, operation_eq}
use nextral.Planner.Coverage.{reaches, plan_reaches_required}
use nextral.Contracts.{ok}
use nextral.Scope.{validate_scope_component}
use nextral.Scope.Keys.{reminder, user_key, user_key_inj}

plan_reaches_required_example :
    (all (reaches (operation_plan episodic ingest).steps) (profile episodic).required_stores ≡ true)
    × (all (reaches (operation_plan episodic forget).steps) (profile episodic).required_stores
        ≡ true)
    × (all (reaches (operation_plan episodic redact).steps) (profile episodic).required_stores
        ≡ true)
plan_reaches_required_example = plan_reaches_required episodic

alice_accepted : validate_scope_component "alice" "user_id" ≡ ok tt
unfolding validate_scope_component is_blank any_char
alice_accepted = refl

equal_keys : user_key reminder "alice" "r1" ≡ user_key reminder "alice" "r1"
equal_keys = refl

abbrev alice : String
alice = "alice"

abbrev first : String
first = "r1"

user_key_inj_example : (reminder ≡ reminder) × (alice ≡ alice) × (first ≡ first)
user_key_inj_example =
    user_key_inj reminder reminder "alice" "alice" "r1" "r1" alice_accepted alice_accepted
      equal_keys
