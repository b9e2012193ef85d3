-- ===== src/Planner.antt =====
-- planner.rs: the steps that an operation on a memory type takes, store by store.
pub mod Coverage
use mathlib.Core.List.{flat_map}
use nextral.Base.{
  ℕ, PartialEq, nat_eqb, ◌≡◌, ◌↔◌, arith, Bool, true, false, not, String, Option, none, some, List,
  [], ◌∷◌, ◌++◌, map, contains, ◌==◌, if◌then◌else◌,
}
use nextral.Kinds.{
  MemoryType, working, session, episodic, semantic, relational, procedural, prospective,
  memory_type_eq,
}
use nextral.Topology.{
  StoreRole, model_context, postgres, redis, qdrant, neo4j, s3, WriteLane, ReadPath, context_window,
  hot_tail, warm_summary, vector, graph_traversal, policy_load, due_queue, role_eq, path_eq,
  MemoryTypeProfile, profile,
}
use nextral.Topology

pub data MemoryOperation : Type 0 where
  ingest retrieve consolidate forget redact archive schedule : MemoryOperation

abbrev pub operation_index : MemoryOperation → ℕ
operation_index ingest = 0
operation_index retrieve = 1
operation_index consolidate = 2
operation_index forget = 3
operation_index redact = 4
operation_index archive = 5
operation_index schedule = 6

pub operation_iff :
    (a b : MemoryOperation) → (nat_eqb (operation_index a) (operation_index b) ≡ true) ↔ (a ≡ b)
operation_iff a b = ground arith

instance abbrev pub operation_eq : PartialEq MemoryOperation
operation_eq = record {
  same = λ a b. nat_eqb (operation_index a) (operation_index b);
  same_iff = operation_iff;
}

pub record OperationStep : Type 0 where
  pub name : String
  pub store : Option StoreRole
  pub required : Bool

pub record MemoryOperationPlan : Type 0 where
  pub memory_type : MemoryType
  pub operation : MemoryOperation
  pub write_lanes : List WriteLane
  pub read_paths : List ReadPath
  pub steps : List OperationStep

abbrev step : String → Option StoreRole → Bool → OperationStep
step name store required = record { name = name; store = store; required = required }

-- `if condition { steps.push(step) }`
abbrev push_if : Bool → List OperationStep → List OperationStep
push_if condition steps = if condition then steps else []

ingest_steps : MemoryTypeProfile → List OperationStep
ingest_steps p =
    if not p.durable
    then step "keep in model context" (some model_context) true ∷ []
    else (step "validate contract and policy" none true
        ∷ step "write canonical index" (some postgres) true
        ∷ [])
      ++ (push_if (contains p.required_stores redis)
            (step "update hot cache or queue" (some redis) true ∷ [])
          ++ (push_if (contains p.required_stores qdrant)
                (step "embed and upsert vector" (some qdrant) true ∷ [])
              ++ (push_if (contains p.required_stores neo4j)
                    (step "merge graph evidence" (some neo4j) true ∷ [])
                  ++ (push_if (contains p.required_stores s3)
                        (step "archive source payload" (some s3) true ∷ [])
                      ++ (step "write audit event" (some postgres) true ∷ [])))))

retrieve_steps : MemoryTypeProfile → List OperationStep
retrieve_steps p =
    push_if (contains p.read_paths context_window)
      (step "read in-flight context" (some model_context) true ∷ [])
    ++ (push_if (contains p.read_paths hot_tail)
          (step "read session hot tail" (some redis) true ∷ [])
        ++ (push_if (contains p.read_paths warm_summary)
              (step "read warm summary" (some postgres) true ∷ [])
            ++ (push_if (contains p.read_paths vector)
                  (step "run vector retrieval" (some qdrant) true ∷ [])
                ++ (push_if (contains p.read_paths graph_traversal)
                      (step "run graph traversal" (some neo4j) true ∷ [])
                    ++ (push_if (contains p.read_paths policy_load) (
                          step "load procedural policy" (some postgres) true
                          ∷ step "read policy cache" (some redis) false
                          ∷ [])
                        ++ (push_if (contains p.read_paths due_queue) (
                              step "read due queue" (some redis) true
                              ∷ step "load reminder record" (some postgres) true
                              ∷ [])
                            ++ push_if (contains p.read_paths Topology.archive) (
                                step "read archive metadata" (some postgres) true
                                ∷ step "read archived object" (some s3) false
                                ∷ [])))))))

consolidate_steps : MemoryTypeProfile → List OperationStep
consolidate_steps p =
    if not p.durable
    then []
    else (step "lease consolidation job" (some redis) true
        ∷ step "load source transcript or records" (some postgres) true
        ∷ [])
      ++ (push_if (contains p.required_stores qdrant)
            (step "embed accepted candidates" (some qdrant) true ∷ [])
          ++ (push_if (contains p.required_stores neo4j)
                (step "enqueue graphify work" (some postgres) true ∷ [])
              ++ push_if (contains p.required_stores s3)
                  (step "archive consolidation snapshot" (some s3) true ∷ [])))

-- One iteration of the loop over the required stores.
forget_store_steps : StoreRole → List OperationStep
forget_store_steps redis = step "invalidate cache and queues" (some redis) true ∷ []
forget_store_steps qdrant = step "delete or redact vector payload" (some qdrant) true ∷ []
forget_store_steps neo4j = step "unlink graph evidence" (some neo4j) true ∷ []
forget_store_steps s3 = step "apply archive retention policy" (some s3) true ∷ []
forget_store_steps postgres = []
forget_store_steps model_context = []

forget_steps : MemoryTypeProfile → Bool → List OperationStep
unfolding forget_store_steps flat_map
forget_steps p redacting =
    if not p.durable
    then step "drop in-flight context" (some model_context) true ∷ []
    else step (if redacting then "redact canonical index row" else "forget canonical index row")
        (some postgres) true
      ∷ (flat_map forget_store_steps p.required_stores
          ++ (step "write governance audit event" (some postgres) true ∷ []))

archive_steps : MemoryTypeProfile → List OperationStep
archive_steps p = push_if (contains p.required_stores s3) (
    step "build immutable archive object" none true
    ∷ step "write archive object" (some s3) true
    ∷ step "write archive metadata" (some postgres) true
    ∷ [])

schedule_steps : MemoryTypeProfile → List OperationStep
schedule_steps p = push_if (p.memory_type == prospective) (
    step "write reminder record" (some postgres) true
    ∷ step "enqueue due reminder" (some redis) true
    ∷ step "attach retrieval context" (some qdrant) false
    ∷ step "write scheduling audit event" (some postgres) true
    ∷ [])

steps_for : MemoryTypeProfile → MemoryOperation → List OperationStep
unfolding ingest_steps retrieve_steps consolidate_steps forget_steps archive_steps schedule_steps
steps_for p ingest = ingest_steps p
steps_for p retrieve = retrieve_steps p
steps_for p consolidate = consolidate_steps p
steps_for p forget = forget_steps p false
steps_for p redact = forget_steps p true
steps_for p archive = archive_steps p
steps_for p schedule = schedule_steps p

unfoldable pub operation_plan : MemoryType → MemoryOperation → MemoryOperationPlan
unfolding profile steps_for
operation_plan t operation =
    let p = profile t in
    record {
      memory_type = t;
      operation = operation;
      write_lanes = p.write_lanes;
      read_paths = p.read_paths;
      steps = steps_for p operation;
    }

abbrev memory_types : List MemoryType
memory_types = working ∷ session ∷ episodic ∷ semantic ∷ relational ∷ procedural ∷ prospective ∷ []

abbrev operations : List MemoryOperation
operations = ingest ∷ retrieve ∷ consolidate ∷ forget ∷ redact ∷ archive ∷ schedule ∷ []

unfoldable pub all_operation_plans : List MemoryOperationPlan
unfolding operation_plan flat_map
all_operation_plans = flat_map (λ t. map (operation_plan t) operations) memory_types
