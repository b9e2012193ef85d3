-- ===== src/Memories/Store/Forgetting.antt =====
-- A memory that was forgotten stays forgotten, whatever is written afterwards.
use nextral.Base.{
  ◌≡◌, ◌∙◌, ap, refl, arith, Bool, true, false, not, ◌&&◌, ◌⊎◌, String, Option, none, some, is_some,
  List, [], ◌∷◌, any, find?, contains, Option-cases, Bool-cases, inl, inr, ◌==◌, string_eq, pair_eq,
  triple_eq, insert,
}
use mathlib.Core.Option
use nextral.Kinds.{active, status_eq}
use nextral.Json.{Value}
use nextral.Timestamps.{Chrono}
use nextral.Memories.Records.{MemoryRecord}
use nextral.Memories.Store.{
  MemoryTables, MemoryKey, key_of, accessed, find_memory, get_memory, upsert_memory, update_memory,
  record_accesses, protect_record,
}
use nextral.Memories.Store.Lookup.{find-upsert, find-access}
use nextral.Memories.Store.Tombstones.{is_active, all-inactive}

-- The calls that write memories, and the saving of a document such as a tombstone.
pub data MemoryCall : Type 0 where
  upserts : MemoryRecord → MemoryCall
  updates : MemoryRecord → MemoryCall
  accesses : String → String → List String → String → MemoryCall
  saves : String → String → Value → MemoryCall

unfoldable pub memory_step : Chrono → MemoryTables → MemoryCall → MemoryTables
memory_step chrono s (upserts r) = (upsert_memory chrono s r).0
memory_step chrono s (updates r) = (update_memory chrono s r).0
memory_step chrono s (accesses tenant user ids now) = record_accesses s tenant user ids now
memory_step chrono s (saves tenant key value) = record s {
  lifecycle_state = insert s.lifecycle_state (tenant, key) value;
}

unfoldable pub memory_run : Chrono → MemoryTables → List MemoryCall → MemoryTables
unfolding memory_step
memory_run chrono s [] = s
memory_run chrono s (c ∷ cs) = memory_run chrono (memory_step chrono s c) cs

-- The store has a record of the key, and it is not active.
abbrev is_gone : Option MemoryRecord → Bool
is_gone none = false
is_gone (some m) = not (is_active m)

gone-forgotten :
    (ms : List MemoryRecord) (k : MemoryKey)
    → is_gone (find? (λ m. key_of m == k) ms) ≡ true
    → any (λ m. key_of m == k && not (m.status == active)) ms ≡ true
gone-forgotten [] k h = absurd (ground arith)
gone-forgotten (m ∷ ms) k h = elim (Bool-cases (key_of m == k)) [
  | inl same ↦ ground (arith, h, same)
  | inr other ↦ ground (arith, gone-forgotten ms k, h, other)
]

gone-upsert :
    (chrono : Chrono) (s : MemoryTables) (r : MemoryRecord) (k : MemoryKey)
    → is_gone (find_memory s k) ≡ true
    → is_gone (find_memory (upsert_memory chrono s r).0 k) ≡ true
unfolding find_memory
gone-upsert chrono s r k h = elim (find-upsert chrono s r k) [
  | inl same ↦ rw same h
  | inr (mine, put, allowed) ↦
      let forgotten =
        gone-forgotten s.memories (key_of r) (ap (λ j. is_gone (find_memory s j)) mine ∙ h) in
      rw put (ground (arith, forgotten, allowed))
]

update-cases :
    (chrono : Chrono) (s : MemoryTables) (r : MemoryRecord)
    → ((update_memory chrono s r).0 ≡ (upsert_memory chrono s r).0)
      ⊎ ((update_memory chrono s r).0 ≡ s)
unfolding update_memory
update-cases chrono s r = elim (Bool-cases (is_some (get_memory s r.tenant_id r.user_id r.id))) [
  | inl known ↦ inl (rw known refl)
  | inr unknown ↦ inr (rw unknown refl)
]

accessed-inactive :
    (tenant user : String) (ids : List String) (now : String) (m : MemoryRecord)
    → is_active m ≡ false
    → accessed tenant user ids now m ≡ m
accessed-inactive tenant user ids now m h =
    let miss : (m.tenant_id == tenant
          && m.user_id == user
          && m.status == active
          && contains ids m.id)
        ≡ false =
      ground (arith, h) in
    rw miss refl

gone-access :
    (s : MemoryTables) (tenant user : String) (ids : List String) (now : String) (k : MemoryKey)
    → is_gone (find_memory s k) ≡ true
    → is_gone (find_memory (record_accesses s tenant user ids now) k) ≡ true
unfolding find_memory record_accesses
gone-access s tenant user ids now k h = elim (Option-cases (find_memory s k)) [
  | inl missing ↦ absurd (ground arith)
  | inr (m, found) ↦
      let same = accessed-inactive tenant user ids now m (ground arith) in
      ap is_gone (
        find-access tenant user ids now k s.memories
        ∙ ap (Option.map (accessed tenant user ids now)) found
        ∙ ap some same)
      ∙ ground arith
]

gone-step :
    (chrono : Chrono) (s : MemoryTables) (k : MemoryKey)
    → is_gone (find_memory s k) ≡ true
    → (c : MemoryCall) → is_gone (find_memory (memory_step chrono s c) k) ≡ true
unfolding memory_step
gone-step chrono s k h (upserts r) = gone-upsert chrono s r k h
gone-step chrono s k h (updates r) = elim (update-cases chrono s r) [
  | inl put ↦ ap (λ t. is_gone (find_memory t k)) put ∙ gone-upsert chrono s r k h
  | inr same ↦ ap (λ t. is_gone (find_memory t k)) same ∙ h
]
gone-step chrono s k h (accesses tenant user ids now) = gone-access s tenant user ids now k h
gone-step chrono s k h (saves tenant key value) = unfold find_memory in h

gone_run :
    (chrono : Chrono) (cs : List MemoryCall) (s : MemoryTables) (k : MemoryKey)
    → is_gone (find_memory s k) ≡ true
    → is_gone (find_memory (memory_run chrono s cs) k) ≡ true
unfolding memory_run
gone_run chrono [] s k h = h
gone_run chrono (c ∷ cs) s k h =
    gone_run chrono cs (memory_step chrono s c) k (gone-step chrono s k h c)

-- A memory that the store has and that is not active is not active after any calls: whatever is
-- written (upserts, updates, accesses and saved documents), the store goes on having the memory and
-- never gives it out as active.
pub forgotten_stays_forgotten :
    (chrono : Chrono) (cs : List MemoryCall) (s : MemoryTables) (tenant user id : String)
    (r : MemoryRecord)
    → find_memory s (tenant, user, id) ≡ some r
    → is_active r ≡ false
    → (m : MemoryRecord) × (get_memory (memory_run chrono s cs) tenant user id ≡ some m)
      × (is_active m ≡ false)
unfolding get_memory protect_record
forgotten_stays_forgotten chrono cs s tenant user id r found inactive =
    let after = memory_run chrono s cs in
    let gone : is_gone (find_memory after (tenant, user, id)) ≡ true =
      gone_run chrono cs s (tenant, user, id) (rw found (ground (arith, inactive))) in
    elim (Option-cases (find_memory after (tenant, user, id))) [
      | inl missing ↦ absurd (ground (arith, gone))
      | inr (m, there) ↦ (
        protect_record after m,
        rw (there, get_memory) refl,
        unfold protect_record in all-inactive after m.source_message_ids m (ground (arith, gone)),
      )
    ]
