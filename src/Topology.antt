-- ===== src/Topology.antt =====
-- topology.rs: which stores, lanes and read paths serve each memory type.
use nextral.Base.{
  ℕ, PartialEq, nat_eqb, contains, Bool, true, false, List, [], ◌∷◌, ◌≡◌, ◌↔◌, arith,
}
use nextral.Kinds.{
  MemoryType, working, session, episodic, semantic, relational, procedural, prospective,
}

pub data StoreRole : Type 0 where
  model_context postgres redis qdrant neo4j s3 : StoreRole

pub data WriteLane : Type 0 where
  ephemeral realtime fast_lane deep_lane graphify policy scheduled : WriteLane

pub data ReadPath : Type 0 where
  context_window hot_tail warm_summary vector graph_traversal policy_load due_queue archive :
      ReadPath

abbrev pub role_index : StoreRole → ℕ
role_index model_context = 0
role_index postgres = 1
role_index redis = 2
role_index qdrant = 3
role_index neo4j = 4
role_index s3 = 5

abbrev pub path_index : ReadPath → ℕ
path_index context_window = 0
path_index hot_tail = 1
path_index warm_summary = 2
path_index vector = 3
path_index graph_traversal = 4
path_index policy_load = 5
path_index due_queue = 6
path_index archive = 7

pub role_iff : (a b : StoreRole) → (nat_eqb (role_index a) (role_index b) ≡ true) ↔ (a ≡ b)
role_iff a b = ground arith

pub path_iff : (a b : ReadPath) → (nat_eqb (path_index a) (path_index b) ≡ true) ↔ (a ≡ b)
path_iff a b = ground arith

instance abbrev pub role_eq : PartialEq StoreRole
role_eq = record { same = λ a b. nat_eqb (role_index a) (role_index b); same_iff = role_iff }

instance abbrev pub path_eq : PartialEq ReadPath
path_eq = record { same = λ a b. nat_eqb (path_index a) (path_index b); same_iff = path_iff }

pub record MemoryTypeProfile : Type 0 where
  pub memory_type : MemoryType
  pub write_lanes : List WriteLane
  pub read_paths : List ReadPath
  pub required_stores : List StoreRole
  pub durable : Bool
  pub retrievable : Bool

unfoldable pub profile : MemoryType → MemoryTypeProfile
profile working = record {
  memory_type = working;
  write_lanes = ephemeral ∷ [];
  read_paths = context_window ∷ [];
  required_stores = model_context ∷ [];
  durable = false;
  retrievable = false;
}
profile session = record {
  memory_type = session;
  write_lanes = realtime ∷ fast_lane ∷ [];
  read_paths = hot_tail ∷ warm_summary ∷ [];
  required_stores = redis ∷ postgres ∷ [];
  durable = true;
  retrievable = true;
}
profile episodic = record {
  memory_type = episodic;
  write_lanes = fast_lane ∷ deep_lane ∷ [];
  read_paths = vector ∷ archive ∷ [];
  required_stores = qdrant ∷ postgres ∷ s3 ∷ [];
  durable = true;
  retrievable = true;
}
profile semantic = record {
  memory_type = semantic;
  write_lanes = realtime ∷ fast_lane ∷ deep_lane ∷ [];
  read_paths = vector ∷ [];
  required_stores = qdrant ∷ postgres ∷ [];
  durable = true;
  retrievable = true;
}
profile relational = record {
  memory_type = relational;
  write_lanes = graphify ∷ [];
  read_paths = graph_traversal ∷ [];
  required_stores = neo4j ∷ postgres ∷ [];
  durable = true;
  retrievable = true;
}
profile procedural = record {
  memory_type = procedural;
  write_lanes = policy ∷ [];
  read_paths = policy_load ∷ [];
  required_stores = postgres ∷ redis ∷ [];
  durable = true;
  retrievable = true;
}
profile prospective = record {
  memory_type = prospective;
  write_lanes = scheduled ∷ [];
  read_paths = due_queue ∷ vector ∷ [];
  required_stores = postgres ∷ redis ∷ qdrant ∷ [];
  durable = true;
  retrievable = true;
}

unfoldable pub all_profiles : List MemoryTypeProfile
unfolding profile
all_profiles =
    profile working
    ∷ profile session
    ∷ profile episodic
    ∷ profile semantic
    ∷ profile relational
    ∷ profile procedural
    ∷ profile prospective
    ∷ []

unfoldable pub requires_store : MemoryType → StoreRole → Bool
unfolding profile
requires_store t store = contains (profile t).required_stores store
