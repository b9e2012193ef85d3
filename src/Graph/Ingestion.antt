-- ===== src/Graph/Ingestion.antt =====
-- testkit/mod.rs, TestMemoryStore: a memory committed with its evidence and its audit event.
use nextral.Base.{
  ℕ, Bool, false, not, String, none, some, List, [], ◌∷◌, ◌++◌, get, ltb, ◌==◌, string_eq, pair_eq,
  if◌then◌else◌,
}
use nextral.Kinds.{active, status_eq}
use nextral.Contracts.{CoreResult, ok, err, conflict, not_found, refuse, ok_or, ◌>>=◌ as chain}
use nextral.Actions.{Action, ◌>>=◌, ◌>>◌, lift, reads, for_each}
use nextral.Json.{Value}
use nextral.Timestamps.{Chrono}
use nextral.Scope.Keys.{privacy_key}
use nextral.Audit.{AuditEvent, audit_replayed}
use nextral.Memories.Records.{MemoryRecord}
use nextral.Memories.Store.{MemoryTables, get_memory, upsert_memory, remove_graph_source}
use nextral.Lifecycle.Records.{LeaseEntry}
use nextral.Graph.Records.{GraphNode, GraphEdge}
use nextral.Graph.{Unicode, validate_source_graph}
use nextral.Graph.Merging.{merge_node, merge_edge}

pub record GraphTables : Type 0 where
  pub tables : MemoryTables
  pub graph_nodes : List GraphNode
  pub audit_events : List AuditEvent
  pub lifecycle_leases : List ((String × String) × LeaseEntry)

-- Libraries: chrono, std's tables of Unicode, serde_json's parser, and the hash of a record that
-- `source_fingerprint` takes.
pub record GraphLibraries : Type 0 where
  pub chrono : Chrono
  pub unicode : Unicode
  pub from_str : String → CoreResult Value
  pub source_fingerprint : MemoryRecord → CoreResult String

module _ (lib : GraphLibraries) where
  -- The record is active and its source fingerprint is the one of the replay.
  unfoldable pub check_source : MemoryRecord → MemoryRecord → CoreResult (Unit {0})
  check_source current r =
      if not (current.status == active)
      then err (conflict "canonical graph source changed")
      else chain (lib.source_fingerprint current) λ stored.
        chain (lib.source_fingerprint r)
          λ replayed. refuse (not (stored == replayed)) (conflict "canonical graph source changed")

  abbrev pub is_leased : ℕ → MemoryRecord → GraphTables → Bool
  is_leased now r s = elim (get s.lifecycle_leases (r.tenant_id, privacy_key r.user_id)) [
    | none ↦ false
    | some lease ↦ ltb now lease.until
  ]

  abbrev pub push_audit : Bool → AuditEvent → Action GraphTables (Unit {0})
  push_audit replayed event s =
      (if replayed then s else record s { audit_events = s.audit_events ++ (event ∷ []) }, ok tt)

  unfoldable pub emit_audit : AuditEvent → Action GraphTables (Unit {0})
  unfolding audit_replayed
  emit_audit event = do
    replayed ← reads (λ s. audit_replayed lib.from_str s.audit_events event)
    push_audit replayed event

  abbrev pub add_node : GraphNode → Action GraphTables (Unit {0})
  add_node node s =
      let (nodes, outcome) = merge_node lib.unicode s.graph_nodes node in
      (record s { graph_nodes = nodes }, outcome)

  abbrev pub add_edge : GraphEdge → Action GraphTables (Unit {0})
  add_edge edge s =
      let (edges, outcome) = merge_edge s.tables.graph_edges edge in
      (record s { tables = record s.tables { graph_edges = edges } }, outcome)

  abbrev pub store_memory : MemoryRecord → Action GraphTables (Unit {0})
  store_memory r s =
      let (tables, outcome) = upsert_memory lib.chrono s.tables r in
      (record s { tables = tables }, outcome)

  abbrev pub merge_all : List GraphNode → List GraphEdge → Action GraphTables (Unit {0})
  merge_all nodes edges = do for_each add_node nodes; for_each add_edge edges

  unfoldable pub commit_ingestion :
      MemoryRecord → List GraphNode → List GraphEdge → AuditEvent → Action GraphTables (List String)
  unfolding audit_replayed for_each
  commit_ingestion r nodes edges audit = do
    replayed ← reads (λ s. audit_replayed lib.from_str s.audit_events audit)
    lift (validate_source_graph lib.unicode r.tenant_id r.user_id r.id nodes edges)
    store_memory r
    merge_all nodes edges
    push_audit replayed audit
    lift (ok ("test_memory" ∷ "test_graph" ∷ "test_audit" ∷ []))

  abbrev drop_evidence : MemoryRecord → Action GraphTables (Unit {0})
  drop_evidence r s = (record s { tables = remove_graph_source s.tables r }, ok tt)

  -- `now` is the present second.
  unfoldable pub commit_graph_replay :
      ℕ
      → MemoryRecord
      → List GraphNode
      → List GraphEdge
      → AuditEvent
      → Action GraphTables (List String)
  unfolding check_source for_each
  commit_graph_replay now r nodes edges audit = do
    replayed ← reads (λ s. audit_replayed lib.from_str s.audit_events audit)
    lift (validate_source_graph lib.unicode r.tenant_id r.user_id r.id nodes edges)
    current ← reads (λ s.
        ok_or (get_memory s.tables r.tenant_id r.user_id r.id)
          (not_found "canonical graph source missing"))
    lift (check_source current r)
    reads (λ s. refuse (is_leased now r s) (conflict "source lifecycle is leased"))
    drop_evidence r
    merge_all nodes edges
    push_audit replayed audit
    lift (ok ("test_graph:source:replaced" ∷ "test_audit" ∷ []))
