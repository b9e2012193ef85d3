-- ===== src/Governance/Forgotten.antt =====
-- runtime/governance.rs over the store of the tests (TestStore): what a forget leaves of the memory.
use mathlib.Core.Path.{subst}
use nextral.Base.{
  ◌≡◌, refl, ap, ◌∙◌, sym, arith, inl, inr, ◌⊎◌, Bool, true, false, not, is_some, ◌&&◌, ◌||◌,
  String, Option, none, some, get, Bool-cases, Option-cases, ◌==◌, string_eq, pair_eq, triple_eq,
}
use nextral.Scope.Keys.{user_key, forget}
use nextral.Kinds.{MemoryStatus, redacted, status_eq}
use nextral.Contracts.{CoreResult, ok, err, ok_value, CoreResult-cases}
use nextral.Json.{Value}
use nextral.Timestamps.{now_timestamp}
use nextral.Audit.{AuditEvent, audit_replayed}
use nextral.Memories.Records.{MemoryRecord}
use nextral.Memories.Store.{
  MemoryTables, key_of, find_memory, get_memory, update_memory, protect_record,
}
use nextral.Memories.Store.Lookup.{upsert_memory_lem}
use nextral.Graph.Ingestion.{GraphTables, GraphLibraries, emit_audit, push_audit}
use nextral.Governance.Interface.{ForgetMemoryRequest, ForgetMemoryResponse, GovernanceLibraries}
use nextral.Governance.{is_live, forget_claimed}
use nextral.Governance.Outcomes.{IsHonest, IsHidden, Forgets}
use nextral.Governance.Erasure.{forget_claimed-Gone}
use nextral.Governance.Tables.{ForgetTables, Documents, cascade, lifecycle_forget}
use nextral.Governance.Cascades.{key-protected, status-protected, find-key, find-cascade}
use nextral.Governance.TestStore.{Surroundings, test_store}

some_value : {a b : MemoryRecord} → some a ≡ some b → a ≡ b
some_value h = cc

module _ (lib : GraphLibraries) (documents : Documents) (around : Surroundings)
    (libraries : GovernanceLibraries) (request : ForgetMemoryRequest) where
  abbrev pub memory_key : String × String × String
  memory_key = (request.tenant_id, request.user_id, request.memory_id)

  abbrev is_hidden : Option MemoryRecord → Bool
  is_hidden none = false
  is_hidden (some m) = not (is_live m.status) && (not request.redact || m.status == redacted)

  abbrev Gone : ForgetTables → Type 0
  Gone s = is_hidden (find_memory s.graph.tables memory_key) ≡ true

  found_key :
      (r : MemoryRecord) (s : ForgetTables)
      → ok (get_memory s.graph.tables request.tenant_id request.user_id request.memory_id)
        ≡ ok (some r)
      → key_of r ≡ memory_key
  unfolding get_memory find_memory protect_record
  found_key r s there = elim (Option-cases (find_memory s.graph.tables memory_key)) [
    | inl missing ↦ absurd (ground (arith, missing, there))
    | inr (m, found) ↦
        let same : some (protect_record s.graph.tables m) ≡ some r =
          rw (found, get_memory) at (ok_value there) in
        ap key_of (sym (some_value same))
        ∙ key-protected s.graph.tables m.source_message_ids m
        ∙ find-key s.graph.tables.memories memory_key m found
  ]

  redacted_status : (status : MemoryStatus) → (status == redacted) ≡ true → status ≡ redacted
  redacted_status redacted h = refl
  redacted_status _ h = cc

  hidden_record :
      (r : MemoryRecord)
      → IsHidden (test_store lib documents around) libraries request r
      → is_hidden (some r) ≡ true
  hidden_record r hidden = elim (Bool-cases request.redact) [
    | inl asked ↦
        let done : (r.status == redacted) ≡ true = rw (hidden.blanked asked) refl in
        rw (hidden.not_live, done) (ground (arith, asked))
    | inr plain ↦ rw (hidden.not_live, plain) refl
  ]

  updated :
      (r : MemoryRecord) (s : MemoryTables)
      → (update_memory lib.chrono s r).1 ≡ ok tt
      → find_memory (update_memory lib.chrono s r).0 (key_of r) ≡ some r
  unfolding update_memory
  updated r s done = elim (Bool-cases (is_some (get_memory s r.tenant_id r.user_id r.id))) [
    | inr unknown ↦ absurd (ground (arith, unknown, done))
    | inl known ↦ elim (upsert_memory_lem lib.chrono s r (key_of r)) [
      | inl (good, found, others) ↦ rw (known, update_memory) found
      | inr (bad, same) ↦ absurd (ground (arith, known, done, bad))
    ]
  ]

  stored-Gone :
      (r : MemoryRecord) (s t : ForgetTables)
      → IsHidden (test_store lib documents around) libraries request r
      → (test_store lib documents around).update_memory r s ≡ (t, ok tt)
      → Gone t
  stored-Gone r s t hidden went = subst Gone (ap (λ did. did.0) went) (
      ap is_hidden (
        ap (find_memory (update_memory lib.chrono s.graph.tables r).0) (sym hidden.named)
        ∙ updated r s.graph.tables (ap (λ did. did.1) went))
      ∙ hidden_record r hidden)

  push_tables :
      (event : AuditEvent) (g : GraphTables) (seen : CoreResult Bool)
      → (elim seen as (λ x. GraphTables × CoreResult (Unit {0})) [
        | err failure ↦ (g, err failure)
        | ok replayed ↦ push_audit lib replayed event g
      ]).0.tables
        ≡ g.tables
  push_tables event g (err failure) = refl
  push_tables event g (ok true) = refl
  push_tables event g (ok false) = refl

  audit_tables :
      (event : AuditEvent) (g : GraphTables) → (emit_audit lib event g).0.tables ≡ g.tables
  unfolding emit_audit
  audit_tables event g = push_tables event g (audit_replayed lib.from_str g.audit_events event)

  forgotten-Gone :
      (s : ForgetTables)
      → Gone s
      → Gone
          ((test_store lib documents around).lifecycle_forget request.tenant_id request.user_id
            request.memory_id request.redact s).0
  unfolding lifecycle_forget find_memory
  forgotten-Gone s gone = elim (Option-cases (find_memory s.graph.tables memory_key)) [
    | inl missing ↦ absurd (ground (arith, missing, gone))
    | inr (r, found) ↦
        let now = now_timestamp (around.clock s) in
        let ms = s.graph.tables.memories in
        let kept =
          find-cascade request.tenant_id request.user_id request.memory_id r.source_message_ids
            request.redact now ms in
        let still = ap is_hidden kept ∙ gone in
        elim (CoreResult-cases
          (cascade request.tenant_id request.user_id request.memory_id r.source_message_ids
            request.redact now ms).1) [
              | inr (failure, refused) ↦ rw (found, lifecycle_forget, refused) still
              | inl (derived, went) ↦ rw (found, lifecycle_forget, went) still
            ]
  ]

  test_store-Forgets : Forgets (test_store lib documents around) libraries request Gone
  test_store-Forgets = record {
    found_key = found_key;
    gone = stored-Gone;
    kept_save = λ tenant key value s gone. unfold find_memory in gone;
    kept_audit = λ event s gone.
        ap (λ tables. is_hidden (find_memory tables memory_key)) (audit_tables event s.graph)
        ∙ gone;
    kept_forget = forgotten-Gone;
  }

  -- A forget over the store of the tests that succeeds either gives back the response that was stored for
  -- it, which says "completed", and changes nothing; or leaves the memory in the store as neither active
  -- nor archived, redacted where that was asked, and its response says "completed" only if there are
  -- receipts, all of them acknowledged, and no error.
  pub forget_claimed_lem :
      (after : ForgetMemoryResponse) (s t : ForgetTables)
      → forget_claimed (test_store lib documents around) libraries request s ≡ (t, ok after)
      → ((value : Value) × (get s.graph.tables.lifecycle_state
              (request.tenant_id, user_key forget request.user_id request.memory_id)
            ≡ some value)
          × (libraries.from_value value ≡ ok after)
          × (after.status ≡ "completed")
          × (t ≡ s))
        ⊎ ((m : MemoryRecord) × (get_memory t.graph.tables request.tenant_id request.user_id
                request.memory_id
              ≡ some m)
            × (is_live m.status ≡ false)
            × (request.redact ≡ true → m.status ≡ redacted))
          × IsHonest (test_store lib documents around) libraries request after
  unfolding get_memory protect_record
  forget_claimed_lem after s t went =
      elim (forget_claimed-Gone (test_store lib documents around) libraries request Gone
        test_store-Forgets after s t went) [
          | inl (value, there, parsed, completed, same) ↦
              inl (value, ok_value there, parsed, completed, same)
          | inr (gone, honest) ↦ inr (
            elim (Option-cases (find_memory t.graph.tables memory_key)) [
              | inl missing ↦ absurd (ground (arith, missing, gone))
              | inr (m, found) ↦
                  let hidden : is_live m.status ≡ false = ground (arith, found, gone) in
                  let kept = status-protected t.graph.tables m.source_message_ids m hidden in
                  (
                    protect_record t.graph.tables m,
                    rw (found, get_memory) refl,
                    ap is_live kept ∙ hidden,
                    λ asked. kept ∙ redacted_status m.status (ground (arith, found, gone, asked)),
                  )
            ],
            honest,
          )
        ]
