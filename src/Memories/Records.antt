-- ===== src/Memories/Records.antt =====
-- domain/memory.rs: the record of a memory and the log of its transitions. A score and a coordinate
-- of an embedding is an f32, kept as its 32 bits.
use nextral.Base.{ℕ, String, Option, List}
use nextral.Kinds.{ContentType, MemoryType, SourceType, PrivacyLevel, MemoryStatus}

pub record MemoryRecord : Type 0 where
  pub id : String
  pub tenant_id : String
  pub user_id : String
  pub session_id : Option String
  pub content : String
  pub content_type : ContentType
  pub memory_type : MemoryType
  pub source_type : SourceType
  pub source_message_ids : List String
  pub importance_score : ℕ
  pub confidence_score : Option ℕ
  pub embedding_provider : Option String
  pub embedding_model : Option String
  pub embedding_dim : Option ℕ
  pub embedding : Option (List ℕ)
  pub extraction_provider : Option String
  pub extraction_model : Option String
  pub entities : List String
  pub tags : List String
  pub privacy_level : PrivacyLevel
  pub created_at : String
  pub updated_at : String
  pub last_accessed_at : Option String
  pub access_count : ℕ
  pub status : MemoryStatus
  pub schema_version : String

pub record TransitionMetadata : Type 0 where
  pub memory_id : String
  pub from : MemoryStatus
  pub to : MemoryStatus
  pub actor : String
  pub reason : String
  pub changed_at : String
