-- ===== src/Graph/Histories.antt =====
-- What holds of the graph after every history of commits.
use nextral.Base.{
  ℕ, ◌≡◌, ap, ◌∙◌, arith, inl, inr, Bool, true, ◌||◌, List, [], ◌∷◌, any, all, string_eq,
}
use nextral.Contracts.{ok, is_ok, CoreResult-cases}
use nextral.Timestamps.{Chrono}
use nextral.Audit.{AuditEvent, audit_replayed}
use nextral.Memories.Records.{MemoryRecord}
use nextral.Memories.Store.{MemoryTables, upsert_memory, remove_graph_source}
use nextral.Graph.Records.{GraphNode, GraphEdge}
use nextral.Graph.Ingestion.{
  GraphTables, GraphLibraries, emit_audit, store_memory, commit_ingestion, commit_graph_replay,
}
use nextral.Graph.Merging.{same_edge}
use nextral.Graph.Commits.{put_nodes, source_graph-valid, committed, checked, commit_ingestion_lem}
use nextral.Graph.Replays.{commit_graph_replay_lem}
use nextral.Graph.Keys.{is_canonical}
use nextral.Graph.Grounding.{
  is_grounded, canonical-put_nodes, has_key-all, grounded-put_edges, grounded-without,
  grounded-put_nodes,
}
use nextral.Graph.Evidence.{cites_memory, cites-without, cites-put_edges}

-- The calls that write the graph, the memories or the audit events.
pub data GraphCall : Type 0 where
  ingests : MemoryRecord → List GraphNode → List GraphEdge → AuditEvent → GraphCall
  replays : ℕ → MemoryRecord → List GraphNode → List GraphEdge → AuditEvent → GraphCall
  stores : MemoryRecord → GraphCall
  emits : AuditEvent → GraphCall

module _ (lib : GraphLibraries) where
  unfoldable pub graph_step : GraphTables → GraphCall → GraphTables
  unfolding commit_ingestion commit_graph_replay emit_audit
  graph_step s (ingests r nodes edges audit) = (commit_ingestion lib r nodes edges audit s).0
  graph_step s (replays now r nodes edges audit) =
      (commit_graph_replay lib now r nodes edges audit s).0
  graph_step s (stores r) = (store_memory lib r s).0
  graph_step s (emits audit) = (emit_audit lib audit s).0

  unfoldable pub graph_run : List GraphCall → GraphTables → GraphTables
  unfolding graph_step
  graph_run [] s = s
  graph_run (call ∷ calls) s = graph_run calls (graph_step s call)

-- Every node has the key of its label and canonical name, and every edge joins two nodes that are there.
pub record IsGrounded (s : GraphTables) : Type 0 where
  pub canonical : all is_canonical s.graph_nodes ≡ true
  pub grounded : all (is_grounded s.graph_nodes) s.tables.graph_edges ≡ true

stored-grounded :
    (chrono : Chrono) (nodes : List GraphNode) (tables : MemoryTables) (r : MemoryRecord)
    → all (is_grounded nodes) tables.graph_edges ≡ true
    → all (is_grounded nodes) (upsert_memory chrono tables r).0.graph_edges ≡ true
unfolding upsert_memory remove_graph_source
stored-grounded chrono nodes tables r h =
    ground (arith, grounded-without r nodes tables.graph_edges h)

stored-edges :
    (chrono : Chrono) (tables : MemoryTables) (r : MemoryRecord)
    → is_ok (upsert_memory chrono tables r).1 ≡ true
    → (upsert_memory chrono tables r).0.graph_edges ≡ (remove_graph_source tables r).graph_edges
unfolding upsert_memory
stored-edges chrono tables r good = ground arith

module _ (lib : GraphLibraries) (s : GraphTables) (r : MemoryRecord) (nodes : List GraphNode)
    (edges : List GraphEdge) (audit : AuditEvent) where
  committed-IsGrounded :
      (tables : MemoryTables) (replayed : Bool)
      → checked lib s r nodes edges audit ≡ ok tt
      → all is_canonical s.graph_nodes ≡ true
      → all (is_grounded s.graph_nodes) tables.graph_edges ≡ true
      → IsGrounded (committed s tables nodes edges replayed audit)
  committed-IsGrounded tables replayed valid canonical grounded =
      let (valid_nodes, valid_edges) =
        source_graph-valid lib.unicode r.tenant_id r.user_id r.id nodes edges valid in
      record {
        canonical =
            canonical-put_nodes lib.unicode r.tenant_id r.user_id r.id s.graph_nodes nodes
              valid_nodes canonical;
        grounded =
            grounded-put_edges lib.unicode r.tenant_id r.user_id r.id nodes
              (put_nodes s.graph_nodes nodes) tables.graph_edges edges
              (λ key.
                has_key-all lib.unicode r.tenant_id r.user_id r.id s.graph_nodes nodes key
                  valid_nodes canonical)
              valid_edges (grounded-put_nodes s.graph_nodes nodes tables.graph_edges grounded);
      }

  ingested-IsGrounded : IsGrounded s → IsGrounded (commit_ingestion lib r nodes edges audit s).0
  ingested-IsGrounded h = elim (commit_ingestion_lem lib s r nodes edges audit) [
    | inl (failure, same) ↦ rw same h
    | inr (valid, stored, replayed, seen, done) ↦ rw done (
        committed-IsGrounded (upsert_memory lib.chrono s.tables r).0 replayed valid h.canonical
          (stored-grounded lib.chrono s.graph_nodes s.tables r h.grounded))
  ]

  replayed-IsGrounded :
      (now : ℕ) → IsGrounded s → IsGrounded (commit_graph_replay lib now r nodes edges audit s).0
  unfolding remove_graph_source
  replayed-IsGrounded now h = elim (commit_graph_replay_lem lib s r nodes edges audit now) [
    | inl (failure, same) ↦ rw same h
    | inr (valid, current, replayable, replayed, seen, done) ↦ rw done (
        committed-IsGrounded (remove_graph_source s.tables r) replayed valid h.canonical
          (grounded-without r s.graph_nodes s.tables.graph_edges h.grounded))
  ]

  -- After a commit of a memory with its evidence succeeds, the relationships of its scope that cite it are
  -- those of the edges that were committed, whatever it gave as evidence before.
  pub commit_ingestion_evidence :
      (relationship : GraphEdge)
      → is_ok (commit_ingestion lib r nodes edges audit s).1 ≡ true
      → relationship.tenant_id ≡ r.tenant_id
      → relationship.user_id ≡ r.user_id
      → any
          (cites_memory r.id relationship)
          (commit_ingestion lib r nodes edges audit s).0.tables.graph_edges
        ≡ any (λ edge. same_edge edge relationship) edges
  unfolding remove_graph_source
  commit_ingestion_evidence relationship good tenant user =
      elim (commit_ingestion_lem lib s r nodes edges audit) [
        | inl (failure, same) ↦ absurd (ground (arith, ap (λ did. is_ok did.1) same))
        | inr (valid, stored, replayed, seen, done) ↦
            let (valid_nodes, valid_edges) =
              source_graph-valid lib.unicode r.tenant_id r.user_id r.id nodes edges valid in
            rw done (
              cites-put_edges r relationship lib.unicode nodes
                (upsert_memory lib.chrono s.tables r).0.graph_edges edges valid_edges
              ∙ ap (λ cited. cited || any (λ edge. same_edge edge relationship) edges)
                  (ap (any (cites_memory r.id relationship))
                      (stored-edges lib.chrono s.tables r stored)
                    ∙ cites-without r relationship s.tables.graph_edges tenant user))
      ]

module _ (lib : GraphLibraries) where
  step-IsGrounded :
      (s : GraphTables) (call : GraphCall) → IsGrounded s → IsGrounded (graph_step lib s call)
  unfolding graph_step emit_audit
  step-IsGrounded s (ingests r nodes edges audit) h =
      ingested-IsGrounded lib s r nodes edges audit h
  step-IsGrounded s (replays now r nodes edges audit) h =
      replayed-IsGrounded lib s r nodes edges audit now h
  step-IsGrounded s (stores r) h = record {
    canonical = h.canonical;
    grounded = stored-grounded lib.chrono s.graph_nodes s.tables r h.grounded;
  }
  step-IsGrounded s (emits audit) h =
      elim (CoreResult-cases (audit_replayed lib.from_str s.audit_events audit)) [
        | inr (failure, refused) ↦ record {
          canonical = ground (arith, h.canonical);
          grounded = ground (arith, h.grounded);
        }
        | inl (replayed, seen) ↦ record {
          canonical = ground (arith, h.canonical);
          grounded = ground (arith, h.grounded);
        }
      ]

  -- A graph in which every edge joins two nodes of its scope, and every node has the key of its label
  -- and canonical name, stays one through every history of ingestions, replays, stored memories and
  -- audit events, those that fail included.
  pub graph_run-IsGrounded :
      (calls : List GraphCall) (s : GraphTables) → IsGrounded s → IsGrounded (graph_run lib calls s)
  unfolding graph_run
  graph_run-IsGrounded [] s h = h
  graph_run-IsGrounded (call ∷ calls) s h =
      graph_run-IsGrounded calls (graph_step lib s call) (step-IsGrounded s call h)
