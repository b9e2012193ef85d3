-- ===== src/Examples/Memories.antt =====
-- Memories at concrete inputs: one that was forgotten and one whose source was redacted.
use nextral.Base.{
  ℕ, ◌↔◌, Among, ℕ, ◌≡◌, refl, ◌≢◌, ◌⊎◌, inl, inr, arith, String, Bool, true, false, not, ◌&&◌,
  Option, none, some, is_some, List, [], ◌∷◌, ◌++◌, any, all, find?, get, ◌<◌, ◌==◌, string_eq,
  pair_eq,
}
use nextral.Kinds.{private, active, soft_deleted, redacted, note, semantic, manual, status_eq}
use nextral.Contracts.{ok, is_ok}
use nextral.Json.{Value, object, field, end, bool}
use nextral.Timestamps.{Chrono}
use nextral.Memories.Records.{MemoryRecord}
use nextral.Memories.Life.{transition}
use nextral.Memories.Life.Order.{rank, is_emptied, transition_lem}
use nextral.Memories.Store.{
  MemoryTables, key_of, find_memory, get_memory, upsert_memory, tombstone_of,
}
use nextral.Memories.Store.Lookup.{upsert_memory_lem}
use nextral.Memories.Store.Tombstones.{
  is_active, is_blanked, wants_redaction, forgotten_source_protected,
}
use nextral.Memories.Store.Forgetting.{
  MemoryCall, upserts, updates, accesses, memory_run, forgotten_stays_forgotten,
}
use nextral.Lifecycle.Leases.{state_key, is_owner}
use nextral.Lifecycle.Fencing.{holds_some}
use nextral.Reminders.Table.{ReminderTables, commit_reminder_delivery, list_due_reminders}
use nextral.Timestamps.{timestamp_nanos}
use nextral.Reminders.Records.{ReminderRecord}
use nextral.Reminders.Table.Listing.{Waits, list_due_reminders-visible}
use nextral.Reminders.Table.Commits.{is_row, commit_reminder_delivery_lem}
use nextral.Examples.Reminders.{call_mother, claim}

abbrev pub clock : Chrono
clock = record { parse_from_rfc3339 = λ text. none; format_rfc3339 = λ seconds nanos. none }

abbrev pub deleted : MemoryRecord
deleted = record {
  id = "m1";
  tenant_id = "acme";
  user_id = "alice";
  session_id = none;
  content = "the door code";
  content_type = note;
  memory_type = semantic;
  source_type = manual;
  source_message_ids = "s1" ∷ [];
  importance_score = 0x3F000000;
  confidence_score = none;
  embedding_provider = none;
  embedding_model = none;
  embedding_dim = none;
  embedding = none;
  extraction_provider = none;
  extraction_model = none;
  entities = [];
  tags = "code" ∷ [];
  privacy_level = private;
  created_at = "1";
  updated_at = "1";
  last_accessed_at = none;
  access_count = 0;
  status = soft_deleted;
  schema_version = "1.0.0";
}

abbrev pub revived : MemoryRecord
revived = record deleted { status = active; source_message_ids = [] }

abbrev tombstone : Value
tombstone = object (field "redact" (bool true) end)

abbrev tables : MemoryTables
tables = record {
  memories = deleted ∷ [];
  graph_edges = [];
  lifecycle_state = (("acme", "forgotten-source/alice/s1"), tombstone) ∷ [];
}

abbrev calls : List MemoryCall
calls = upserts revived ∷ updates revived ∷ accesses "acme" "alice" ("m1" ∷ []) "9" ∷ []

deleted_there : find_memory tables ("acme", "alice", "m1") ≡ some deleted
unfolding find_memory
deleted_there = refl

forgotten_stays_forgotten_example :
    (m : MemoryRecord) × (get_memory (memory_run clock tables calls) "acme" "alice" "m1" ≡ some m)
    × (is_active m ≡ false)
forgotten_stays_forgotten_example =
    forgotten_stays_forgotten clock calls tables "acme" "alice" "m1" deleted deleted_there refl

-- The stored record is active, its source is not.
abbrev exposed : MemoryRecord
exposed = record deleted { status = active }

abbrev exposed_tables : MemoryTables
exposed_tables = record tables { memories = exposed ∷ [] }

exposed_there : find_memory exposed_tables ("acme", "alice", "m1") ≡ some exposed
unfolding find_memory
exposed_there = refl

exposed_hit :
    any (λ source. is_some (tombstone_of exposed_tables exposed source)) exposed.source_message_ids
    ≡ true
unfolding get nextral.Scope.Keys.user_key
exposed_hit = refl

forgotten_source_protected_example :
    (m : MemoryRecord) × (get_memory exposed_tables "acme" "alice" "m1" ≡ some m)
    × (is_active m ≡ false)
    × ((any
            (λ source. wants_redaction (tombstone_of exposed_tables exposed source))
            exposed.source_message_ids
          && not (is_blanked m))
        ≡ false)
forgotten_source_protected_example =
    forgotten_source_protected exposed_tables "acme" "alice" "m1" exposed exposed_there exposed_hit

upsert_memory_lem_example :
    (is_ok (upsert_memory clock exposed_tables deleted).1 ≡ true)
      × (find_memory (upsert_memory clock exposed_tables deleted).0 (key_of deleted) ≡ some deleted)
      × ((("acme", "bob", "m1") ≡ key_of deleted)
          ⊎ (find_memory (upsert_memory clock exposed_tables deleted).0 ("acme", "bob", "m1")
              ≡ find_memory exposed_tables ("acme", "bob", "m1")))
    ⊎ (is_ok (upsert_memory clock exposed_tables deleted).1 ≡ false)
      × ((upsert_memory clock exposed_tables deleted).0 ≡ exposed_tables)
upsert_memory_lem_example = upsert_memory_lem clock exposed_tables deleted ("acme", "bob", "m1")

deleted_accepted : is_ok (upsert_memory clock exposed_tables deleted).1 ≡ true
unfolding upsert_memory nextral.Memories.Life.validate nextral.Scope.validate_scope_component
    nextral.Base.is_blank nextral.Base.any_char nextral.Scope.validate_session
    nextral.Timestamps.timestamp_nanos nextral.Timestamps.Decimal.parse_u64
    nextral.Memories.Life.validate_score
deleted_accepted = refl

transition_lem_example :
    (is_ok (transition deleted redacted "admin" "request" "9").1 ≡ true)
      × (rank soft_deleted < rank redacted)
      × ((transition deleted redacted "admin" "request" "9").0.status ≡ redacted)
      × ((redacted == redacted
            && not (is_emptied (transition deleted redacted "admin" "request" "9").0))
          ≡ false)
    ⊎ (is_ok (transition deleted redacted "admin" "request" "9").1 ≡ false)
      × ((transition deleted redacted "admin" "request" "9").0 ≡ deleted)
transition_lem_example = transition_lem deleted redacted "admin" "request" "9"

-- The lease of the user, and a delivery that its holder commits.
abbrev reminder_tables : ReminderTables
reminder_tables = record {
  reminders = call_mother ∷ [];
  audit_events = [];
  tables = record {
    lifecycle_state = [];
    lifecycle_leases = [];
    lifecycle_fences =
        (("acme", "privacy/alice"), record { owner = "worker-1"; expiry = 300; fence = 1 }) ∷ [];
    lifecycle_jobs = [];
  };
}

commit_reminder_delivery_lem_example :
    let (t, outcome) =
      commit_reminder_delivery reminder_tables 100 claim "reminder/alice/r1" tombstone call_mother
        [] in
    let permitted =
      holds_some claim 100 (get reminder_tables.tables.lifecycle_fences (state_key claim))
      && claim.tenant_id == call_mother.tenant_id
      && is_owner claim.user_id call_mother.user_id in
    (permitted ≡ true)
      × (is_ok outcome ≡ true)
      × (find? (is_row "acme" "r1") t.reminders ≡ some call_mother)
      × (get t.tables.lifecycle_state ("acme", "reminder/alice/r1") ≡ some tombstone)
      × (t.audit_events ≡ reminder_tables.audit_events ++ [])
    ⊎ (permitted ≡ false) × (is_ok outcome ≡ false) × (t ≡ reminder_tables)
commit_reminder_delivery_lem_example =
    commit_reminder_delivery_lem reminder_tables 100 claim "reminder/alice/r1" tombstone call_mother
      []

mother_listed : list_due_reminders clock reminder_tables "acme" "alice" "3" ≡ ok (call_mother ∷ [])
unfolding list_due_reminders nextral.Timestamps.timestamp_nanos nextral.Timestamps.Decimal.parse_u64
    nextral.Reminders.Status.is_due_visible
mother_listed = refl

list_due_reminders-visible_example :
    (at : ℕ) × (timestamp_nanos clock "3" ≡ ok at)
    × ((x : ReminderRecord)
        → Among x (call_mother ∷ [])
          ↔ (Among x reminder_tables.reminders × Waits clock "acme" "alice" at x))
list_due_reminders-visible_example =
    list_due_reminders-visible clock reminder_tables "acme" "alice" "3" (call_mother ∷ [])
      mother_listed
