-- ===== src/Governance/TestStore.antt =====
-- runtime/storage.rs and testkit/mod.rs: TestMemoryStore as the store that a forget works on.
use nextral.Base.{ℕ, String, get, [], insert, string_eq, pair_eq, triple_eq}
use nextral.Kinds.{status_eq}
use nextral.Contracts.{CoreResult, ok}
use nextral.Json.{Value}
use nextral.Timestamps.{now_timestamp}
use nextral.Memories.Records.{MemoryRecord}
use nextral.Memories.Store.{MemoryTables, get_memory, update_memory}
use nextral.Lifecycle.Records.{LifecycleTables}
use nextral.Lifecycle.Leases.{lifecycle_claim, lifecycle_release}
use nextral.Graph.Ingestion.{GraphLibraries, emit_audit}
use nextral.Governance.Interface.{GovernanceStore}
use nextral.Governance.Tables.{ForgetTables, Documents, receipt_ok, lifecycle_forget}

-- The store, with the clock and the identifiers of the process as its surroundings.
pub record Surroundings : Type 0 where
  pub clock : ForgetTables → ℕ
  pub worker_owner : ForgetTables → String
  pub lifecycle_verify_archive_sources : MemoryRecord → ForgetTables → CoreResult (Unit {0})

abbrev lease_tables : ForgetTables → LifecycleTables
lease_tables s = record {
  lifecycle_state = s.graph.tables.lifecycle_state;
  lifecycle_leases = s.graph.lifecycle_leases;
  lifecycle_fences = [];
  lifecycle_jobs = [];
}

abbrev with_leases : ForgetTables → LifecycleTables → ForgetTables
with_leases s t = record s { graph = record s.graph { lifecycle_leases = t.lifecycle_leases } }

abbrev with_tables : ForgetTables → MemoryTables → ForgetTables
with_tables s t = record s { graph = record s.graph { tables = t } }

abbrev save_document : ForgetTables → String → String → Value → ForgetTables
save_document s tenant key value = with_tables s (record s.graph.tables {
  lifecycle_state = insert s.graph.tables.lifecycle_state (tenant, key) value;
})

module _ (lib : GraphLibraries) (documents : Documents) (around : Surroundings) where
  abbrev pub test_store : GovernanceStore ForgetTables
  test_store = record {
    now_timestamp = λ s. now_timestamp (around.clock s);
    worker_owner = λ s. (s, ok (around.worker_owner s));
    lifecycle_claim = λ tenant key owner now lease s.
        let (t, granted) = lifecycle_claim (lease_tables s) tenant key owner now lease in
        (with_leases s t, ok granted);
    lifecycle_release = λ tenant key owner s.
        (with_leases s (lifecycle_release (lease_tables s) tenant key owner), ok tt);
    lifecycle_load = λ tenant key s. ok (get s.graph.tables.lifecycle_state (tenant, key));
    lifecycle_save = λ tenant key value s.
        (save_document s tenant key value, ok (receipt_ok "test_memory" "save" key));
    get_memory = λ tenant user id s. ok (get_memory s.graph.tables tenant user id);
    update_memory = λ r s.
        let (t, outcome) = update_memory lib.chrono s.graph.tables r in (with_tables s t, outcome);
    emit_audit = λ event s.
        let (g, outcome) = emit_audit lib event s.graph in (record s { graph = g }, outcome);
    lifecycle_verify_archive_sources = around.lifecycle_verify_archive_sources;
    lifecycle_forget = λ tenant user id redact s.
        lifecycle_forget documents (now_timestamp (around.clock s)) tenant user id redact s;
  }
