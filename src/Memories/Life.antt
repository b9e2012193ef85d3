-- ===== src/Memories/Life.antt =====
-- domain/memory.rs: which records are valid, and how a record changes. domain/runtime_policy.rs: the
-- memory types that the default policy allows.
pub mod Order
use nextral.Base.{
  ℕ, ◌+◌, ◌-◌, ◌/◌, ◌%◌, ◌^◌, min, Bool, true, false, not, ◌&&◌, ◌||◌, String, code, Option, none,
  some, List, [], ◌∷◌, ◌++◌, length, is_empty, any, retain, contains, ltb, leb, nat_eqb, ◌==◌,
  string_eq, is_blank, text_append, if◌then◌else◌,
}
use nextral.Kinds.{
  ContentType, MemoryType, working, session, episodic, semantic, relational, procedural,
  prospective, memory_type_eq, realtime, source_type_eq, PrivacyLevel, MemoryStatus, active,
  soft_deleted, redacted, archived, status_eq,
}
use nextral.Contracts.{CoreResult, ok, err, invalid_input, refuse, ◌>>=◌, ◌>>◌}
use nextral.Scope.{validate_scope_component, validate_session}
use nextral.Timestamps.{Chrono, timestamp_nanos}
use nextral.Topology.{profile}
use nextral.Memories.Records.{MemoryRecord, TransitionMetadata}

-- `(0.0..=1.0).contains(&score)` on the bits of an f32: zero, minus zero, and the floats up to one,
-- whose bits are ordered as they are. A NaN has other bits.
abbrev pub is_score : ℕ → Bool
is_score bits = leb bits 0x3F800000 || nat_eqb bits 0x80000000

-- `f32::is_finite`: the exponent is not all ones.
abbrev pub is_finite : ℕ → Bool
is_finite bits = not (nat_eqb ((bits / 2 ^ 23) % 256) 255)

unfoldable pub validate_score : String → ℕ → CoreResult (Unit {0})
validate_score name score =
    refuse (not (is_score score)) (invalid_input (text_append name " must be within 0..=1"))

abbrev validate_optional_score : Option ℕ → CoreResult (Unit {0})
validate_optional_score none = ok tt
validate_optional_score (some score) = validate_score "confidence_score" score

-- `str::len`, the bytes in UTF-8.
abbrev char_bytes : ℕ → ℕ
char_bytes c = if ltb c 0x80 then 1 else if ltb c 0x800 then 2 else if ltb c 0x10000 then 3 else 4

unfoldable pub byte_length : String → ℕ
byte_length String.[] = 0
byte_length (String.◌∷◌ c s) = char_bytes (code c) + byte_length s

abbrev is_dim : Option ℕ → ℕ → Bool
is_dim none n = false
is_dim (some dim) n = nat_eqb dim (n % 2 ^ 32)

abbrev pub is_embedding : Option (List ℕ) → Option ℕ → Bool
is_embedding none dim = true
is_embedding (some vector) dim =
    not (is_empty vector) && not (any (λ v. not (is_finite v)) vector) && is_dim dim (length vector)

abbrev allowed_memory_types : List MemoryType
allowed_memory_types =
    working ∷ session ∷ episodic ∷ semantic ∷ relational ∷ procedural ∷ prospective ∷ []

abbrev type_text : MemoryType → String
type_text working = "Working"
type_text session = "Session"
type_text episodic = "Episodic"
type_text semantic = "Semantic"
type_text relational = "Relational"
type_text procedural = "Procedural"
type_text prospective = "Prospective"

module _ (chrono : Chrono) where
  check_time : String → CoreResult (Unit {0})
  check_time time = do nanos ← timestamp_nanos chrono time; ok tt

  abbrev check_accessed : Option String → CoreResult (Unit {0})
  check_accessed none = ok tt
  check_accessed (some time) = check_time time

  -- The limits on sizes, after the identifiers, the timestamps and the embedding.
  check_sizes : MemoryRecord → CoreResult (Unit {0})
  unfolding byte_length
  check_sizes r = do
    refuse (is_blank r.id) (invalid_input "memory id is required")
    refuse (ltb 256 (byte_length r.id)) (invalid_input "memory id must not exceed 256 characters")
    refuse (is_blank r.tenant_id) (invalid_input "tenant_id is required")
    refuse (is_blank r.user_id) (invalid_input "user_id is required")
    refuse (is_blank r.content) (invalid_input "content cannot be empty")
    refuse (ltb 1_000_000 (byte_length r.content))
        (invalid_input "content must not exceed 1000000 characters")
    refuse (ltb 1000 (length r.entities))
        (invalid_input "entities must not contain more than 1000 items")
    refuse (ltb 1000 (length r.tags)) (invalid_input "tags must not contain more than 1000 items")

  check_policy : MemoryRecord → CoreResult (Unit {0})
  check_policy r = do
    refuse (not (r.schema_version == "1.0.0")) (
        invalid_input (
          text_append "unsupported schema_version "
            (text_append r.schema_version "; expected 1.0.0")))
    refuse
        (r.status == active
          && not (profile r.memory_type).durable
          && not (r.source_type == realtime))
        (invalid_input "working memory must remain ephemeral realtime state")
    refuse (not (contains allowed_memory_types r.memory_type)) (
        invalid_input (
          text_append "memory_type "
            (text_append (type_text r.memory_type) " is not allowed by runtime policy")))

  unfoldable pub validate : MemoryRecord → CoreResult (Unit {0})
  unfolding check_time check_sizes check_policy
  validate r = do
    validate_scope_component r.id "memory id"
    validate_scope_component r.tenant_id "tenant_id"
    validate_scope_component r.user_id "user_id"
    validate_session r.session_id
    check_time r.created_at
    check_time r.updated_at
    check_accessed r.last_accessed_at
    refuse (not (is_embedding r.embedding r.embedding_dim))
        (invalid_input "embedding must be finite and match embedding_dim")
    check_sizes r
    validate_score "importance_score" r.importance_score
    validate_optional_score r.confidence_score
    check_policy r

abbrev pub is_allowed : MemoryStatus → MemoryStatus → Bool
is_allowed active soft_deleted = true
is_allowed archived soft_deleted = true
is_allowed soft_deleted redacted = true
is_allowed active archived = true
is_allowed _ _ = false

abbrev debug_text : MemoryStatus → String
debug_text active = "Active"
debug_text soft_deleted = "SoftDeleted"
debug_text redacted = "Redacted"
debug_text archived = "Archived"

-- What a redaction leaves of a record.
abbrev pub blank_out : MemoryRecord → MemoryRecord
blank_out r = record r { content = "[redacted]"; entities = []; tags = []; embedding = none }

unfoldable pub transition :
    MemoryRecord
    → MemoryStatus
    → String
    → String
    → String
    → MemoryRecord × CoreResult TransitionMetadata
transition r to actor reason now =
    if is_blank actor || is_blank reason
    then (r, err (invalid_input "transition actor and reason are required"))
    else if not (is_allowed r.status to)
    then (
      r,
      err (
          invalid_input (
            text_append "invalid lifecycle transition from "
              (text_append (debug_text r.status) (text_append " to " (debug_text to))))),
    )
    else let moved : MemoryRecord = record r { status = to; updated_at = now } in
      (
        if to == redacted then blank_out moved else moved,
        ok (record {
          memory_id = r.id;
          from = r.status;
          to = to;
          actor = actor;
          reason = reason;
          changed_at = now;
        }),
      )

unfoldable pub mark_accessed : MemoryRecord → String → MemoryRecord
mark_accessed r now = record r {
  access_count = min (r.access_count + 1) (2 ^ 64 - 1);
  last_accessed_at = some now;
}

unfoldable pub add_tag : MemoryRecord → String → String → MemoryRecord
add_tag r tag now =
    if contains r.tags tag then r else record r { tags = r.tags ++ (tag ∷ []); updated_at = now }

unfoldable pub remove_tag : MemoryRecord → String → String → MemoryRecord × Bool
remove_tag r tag now =
    let kept = retain (λ t. not (t == tag)) r.tags in
    if ltb (length kept) (length r.tags)
    then (record r { tags = kept; updated_at = now }, true)
    else (record r { tags = kept }, false)

unfoldable pub has_tag : MemoryRecord → String → Bool
has_tag r tag = any (λ t. t == tag) r.tags
