-- ===== src/Graph/Records.antt =====
-- domain/graph.rs: the nodes and the edges of the knowledge graph. A confidence is the bits of an f32.
use nextral.Base.{ℕ, String, List}

pub record GraphNode : Type 0 where
  pub tenant_id : String
  pub user_id : String
  pub label : String
  pub name : String
  pub canonical_name : String
  pub key : String
  pub confidence : ℕ
  pub created_at : String

-- An edge carries the memories that it comes from.
pub record GraphEdge : Type 0 where
  pub tenant_id : String
  pub user_id : String
  pub from_key : String
  pub relationship_type : String
  pub to_key : String
  pub confidence : ℕ
  pub source_memory_ids : List String
  pub created_at : String
  pub last_confirmed_at : String

pub record GraphHint : Type 0 where
  pub from_label : String
  pub from_name : String
  pub relationship_type : String
  pub to_label : String
  pub to_name : String
  pub confidence : ℕ
