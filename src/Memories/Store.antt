-- ===== src/Memories/Store.antt =====
-- testkit/mod.rs, TestMemoryStore: the memories. What a forgotten source protects lies in the state of
-- the lifecycle tables.
pub mod Lookup
pub mod Tombstones
pub mod Forgetting
use nextral.Base.{
  ℕ, ◌+◌, Bool, true, false, not, ◌&&◌, ◌||◌, String, Option, none, some, is_some, List, [], ◌∷◌,
  map, length, any, retain, find?, contains, is_empty, ◌==◌, string_eq, pair_eq, triple_eq, get,
  text_append, if◌then◌else◌,
}
use nextral.Kinds.{PrivacyLevel, active, soft_deleted, redacted, privacy_eq, status_eq}
use nextral.Contracts.{CoreResult, ok, err, conflict, not_found, refuse, ◌>>=◌, ◌>>◌}
use nextral.Json.{Value, str_at, bool_at}
use nextral.Timestamps.{Chrono}
use nextral.Scope.Keys.{forgotten_source, user_key}
use nextral.Memories.Records.{MemoryRecord}
use nextral.Graph.Records.{GraphEdge}
use nextral.Memories.Life.{validate, mark_accessed, blank_out}

pub record MemoryTables : Type 0 where
  pub memories : List MemoryRecord
  pub graph_edges : List GraphEdge
  pub lifecycle_state : List ((String × String) × Value)

abbrev pub MemoryKey : Type 0
MemoryKey = String × String × String

abbrev pub key_of : MemoryRecord → MemoryKey
key_of r = (r.tenant_id, r.user_id, r.id)

abbrev pub tombstone_of : MemoryTables → MemoryRecord → String → Option Value
tombstone_of s r source =
    get s.lifecycle_state (r.tenant_id, user_key forgotten_source r.user_id source)

-- `tombstone["redact"] == true || tombstone["status"] == "redacted"`
abbrev pub asks_redaction : Value → Bool
asks_redaction tombstone =
    (elim (bool_at tombstone "redact") [ none ↦ false | some b ↦ b ])
    || (elim (str_at tombstone "status") [ none ↦ false | some status ↦ status == "redacted" ])

unfoldable pub protect_once : MemoryRecord → Option Value → MemoryRecord
unfolding str_at bool_at
protect_once r none = r
protect_once r (some tombstone) =
    let hidden : MemoryRecord = record r {
      status = if r.status == active then soft_deleted else r.status;
    } in
    if asks_redaction tombstone then blank_out hidden else hidden

unfoldable pub protect_all : MemoryTables → MemoryRecord → List String → MemoryRecord
unfolding protect_once
protect_all s r [] = r
protect_all s r (source ∷ rest) = protect_all s (protect_once r (tombstone_of s r source)) rest

unfoldable pub protect_record : MemoryTables → MemoryRecord → MemoryRecord
unfolding protect_all
protect_record s r = protect_all s r r.source_message_ids

abbrev pub edge_without : MemoryRecord → GraphEdge → GraphEdge
edge_without r edge =
    if edge.tenant_id == r.tenant_id && edge.user_id == r.user_id
    then record edge { source_memory_ids = retain (λ id. not (id == r.id)) edge.source_memory_ids }
    else edge

unfoldable pub remove_graph_source : MemoryTables → MemoryRecord → MemoryTables
remove_graph_source s r = record s {
  graph_edges =
      retain (λ edge. not (is_empty edge.source_memory_ids)) (map (edge_without r) s.graph_edges);
}

-- The first record of the key is replaced; a new key is added at the end.
unfoldable pub put_memory : List MemoryRecord → MemoryRecord → List MemoryRecord
put_memory [] r = r ∷ []
put_memory (m ∷ ms) r = if key_of m == key_of r then r ∷ ms else m ∷ put_memory ms r

-- An inactive record of the key, or a forgotten source of the record.
abbrev pub is_forgotten : MemoryTables → MemoryRecord → Bool
is_forgotten s r =
    any (λ m. key_of m == key_of r && not (m.status == active)) s.memories
    || any (λ source. is_some (tombstone_of s r source)) r.source_message_ids

abbrev pub is_taken : MemoryTables → MemoryRecord → Bool
is_taken s r =
    any (λ m. m.id == r.id && m.tenant_id == r.tenant_id && not (m.user_id == r.user_id)) s.memories

unfoldable pub find_memory : MemoryTables → MemoryKey → Option MemoryRecord
find_memory s k = find? (λ m. key_of m == k) s.memories

unfoldable pub get_memory : MemoryTables → String → String → String → Option MemoryRecord
unfolding find_memory
get_memory s tenant user id = elim (find_memory s (tenant, user, id)) [
  | none ↦ none
  | some r ↦ some (protect_record s r)
]

abbrev owned_by : String → String → MemoryRecord → Bool
owned_by tenant user m = m.tenant_id == tenant && m.user_id == user

unfoldable pub get_active_memories :
    MemoryTables → String → String → List String → List MemoryRecord
unfolding protect_record
get_active_memories s tenant user ids =
    retain (λ m. m.status == active)
      (map (protect_record s)
        (retain (λ m. owned_by tenant user m && contains ids m.id) s.memories))

unfoldable pub list_memories :
    MemoryTables → String → String → List PrivacyLevel → Bool → List MemoryRecord
unfolding protect_record
list_memories s tenant user privacy_scope include_inactive =
    retain (λ m. include_inactive || m.status == active)
      (map (protect_record s)
        (retain (λ m. owned_by tenant user m && contains privacy_scope m.privacy_level) s.memories))

unfoldable pub count_memories : MemoryTables → String → String → Bool → ℕ
count_memories s tenant user include_inactive =
    length
      (retain (λ m. owned_by tenant user m && (include_inactive || m.status == active)) s.memories)

abbrev pub accessed : String → String → List String → String → MemoryRecord → MemoryRecord
accessed tenant user ids now m =
    if owned_by tenant user m && m.status == active && contains ids m.id
    then mark_accessed m now
    else m

-- `now` is the text of the present second.
unfoldable pub record_accesses :
    MemoryTables → String → String → List String → String → MemoryTables
unfolding mark_accessed
record_accesses s tenant user ids now = record s {
  memories = map (accessed tenant user ids now) s.memories;
}

module _ (chrono : Chrono) where
  unfoldable pub upsert_memory : MemoryTables → MemoryRecord → MemoryTables × CoreResult (Unit {0})
  unfolding remove_graph_source
  upsert_memory s r = elim (validate chrono r) [
    | err failure ↦ (s, err failure)
    | ok valid ↦
        if r.status == active && is_forgotten s r
        then (s, err (conflict "forgotten memory/source cannot be resurrected"))
        else if is_taken s r
        then (s, err (conflict "memory id is already in use by a different tenant/user scope"))
        else (record (remove_graph_source s r) { memories = put_memory s.memories r }, ok tt)
  ]

  unfoldable pub update_memory : MemoryTables → MemoryRecord → MemoryTables × CoreResult (Unit {0})
  unfolding upsert_memory get_memory
  update_memory s r =
      if is_some (get_memory s r.tenant_id r.user_id r.id)
      then upsert_memory s r
      else (s, err (not_found "memory record not found"))
