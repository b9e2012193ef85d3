-- ===== src/Planner/Coverage.antt =====
-- Which stores the plans of planner.rs reach.
use nextral.Base.{
  Bool, true, false, not, ◌&&◌, Option, none, some, List, [], ◌∷◌, ◌≡◌, refl, contains, any, all,
  length, is_empty, ◌==◌, find?, string_eq, if◌then◌else◌, ◌++◌,
}
use nextral.Kinds.{
  MemoryType, working, session, episodic, semantic, relational, procedural, prospective,
  memory_type_eq,
}
use nextral.Topology.{StoreRole, redis, postgres, s3, profile, role_eq}
use nextral.Planner.{
  MemoryOperation, ingest, retrieve, consolidate, forget, redact, archive, schedule, OperationStep,
  operation_plan, all_operation_plans, operation_eq,
}

abbrev touches : Option StoreRole → StoreRole → Bool
touches none r = false
touches (some q) r = q == r

-- A plan has a mandatory step on a store.
abbrev pub reaches : List OperationStep → StoreRole → Bool
reaches steps store = any (λ s. s.required && touches s.store store) steps

abbrev allowed : List StoreRole → Option StoreRole → Bool
allowed stores none = true
allowed stores (some q) = contains stores q

-- All stores of the steps are among those given.
abbrev pub confined : List OperationStep → List StoreRole → Bool
confined steps stores = all (λ s. allowed stores s.store) steps

-- Ingesting into, forgetting from and redacting a type each have a mandatory step on every store
-- that the type requires.
pub plan_reaches_required :
    (t : MemoryType)
    → (all (reaches (operation_plan t ingest).steps) (profile t).required_stores ≡ true)
      × (all (reaches (operation_plan t forget).steps) (profile t).required_stores ≡ true)
      × (all (reaches (operation_plan t redact).steps) (profile t).required_stores ≡ true)
unfolding operation_plan
plan_reaches_required working = (refl, refl, refl)
plan_reaches_required _ = (refl, refl, refl)

-- Consolidation leases its job in Redis, whatever the type requires.
abbrev pub extra_stores : MemoryOperation → List StoreRole
extra_stores consolidate = redis ∷ []
extra_stores _ = []

-- Whatever the type and the operation, no step touches a store outside the required stores of the
-- type, save that consolidation also uses Redis.
pub plan_confined :
    (t : MemoryType) (o : MemoryOperation)
    → confined (operation_plan t o).steps (extra_stores o ++ (profile t).required_stores) ≡ true
unfolding operation_plan
plan_confined working ingest = refl
plan_confined _ ingest = refl
plan_confined _ retrieve = refl
plan_confined _ consolidate = refl
plan_confined _ _ = refl

-- An archive plan has steps exactly for the types that require S3, a schedule plan exactly for
-- prospective memory, and a consolidation plan exactly for the durable types.
pub plan_applies :
    (t : MemoryType)
    → (not (is_empty (operation_plan t archive).steps) ≡ contains (profile t).required_stores s3)
      × (not (is_empty (operation_plan t schedule).steps) ≡ (t == prospective))
      × (not (is_empty (operation_plan t consolidate).steps) ≡ (profile t).durable)
unfolding operation_plan
plan_applies working = (refl, refl, refl)
plan_applies _ = (refl, refl, refl)

-- The listing of all plans, searched for a type and an operation, gives the plan of these two, and
-- the listing holds no more than the 49 of them.
pub all_operation_plans_complete :
    (t : MemoryType) (o : MemoryOperation)
    → (find? (λ p. p.memory_type == t && p.operation == o) all_operation_plans
        ≡ some (operation_plan t o))
      × (length all_operation_plans ≡ 49)
unfolding all_operation_plans
all_operation_plans_complete working ingest = (refl, refl)
all_operation_plans_complete working _ = (refl, refl)
all_operation_plans_complete session ingest = (refl, refl)
all_operation_plans_complete session _ = (refl, refl)
all_operation_plans_complete episodic ingest = (refl, refl)
all_operation_plans_complete episodic _ = (refl, refl)
all_operation_plans_complete semantic ingest = (refl, refl)
all_operation_plans_complete semantic _ = (refl, refl)
all_operation_plans_complete relational ingest = (refl, refl)
all_operation_plans_complete relational _ = (refl, refl)
all_operation_plans_complete procedural ingest = (refl, refl)
all_operation_plans_complete procedural _ = (refl, refl)
all_operation_plans_complete prospective ingest = (refl, refl)
all_operation_plans_complete prospective _ = (refl, refl)

abbrev pub ends_with_audit : Bool → List OperationStep → Bool
ends_with_audit governed [] = false
ends_with_audit governed (s ∷ []) =
    s.required
    && touches s.store postgres
    && (s.name == (if governed then "write governance audit event" else "write audit event"))
ends_with_audit governed (s ∷ r ∷ rest) = ends_with_audit governed (r ∷ rest)

-- The plans to ingest, forget and redact end in the mandatory audit step exactly for durable types.
pub plan_audited :
    (t : MemoryType)
    → (ends_with_audit false (operation_plan t ingest).steps ≡ (profile t).durable)
      × (ends_with_audit true (operation_plan t forget).steps ≡ (profile t).durable)
      × (ends_with_audit true (operation_plan t redact).steps ≡ (profile t).durable)
unfolding operation_plan
plan_audited working = (refl, refl, refl)
plan_audited _ = (refl, refl, refl)
