-- ===== src/Graph/Runtime.antt =====
-- runtime/graphify.rs, graphify_memory, over the store of the tests: the evidence of a stored memory is
-- taken from it again and replaces what it gave before.
use nextral.Base.{
  ℕ, String, Option, none, some, List, map, length, ltb, ◌==◌, string_eq, if◌then◌else◌,
}
use nextral.Kinds.{active, status_eq}
use nextral.Contracts.{CoreResult, ok, err, invalid_input, not_found, refuse, ok_or, ◌>>=◌, ◌>>◌}
use nextral.Actions.{Action}
use nextral.Scope.{validate_scope_component}
use nextral.Audit.{AuditEvent, audit_event, graphify_merged}
use nextral.Memories.Records.{MemoryRecord}
use nextral.Memories.Store.{get_memory}
use nextral.Graph.Records.{GraphNode, GraphEdge, GraphHint}
use nextral.Graph.Extraction.{GraphifyOutput, graphify_record}
use nextral.Graph.Ingestion.{GraphTables, GraphLibraries, commit_graph_replay}

pub record GraphReplayOutput : Type 0 where
  pub graph : GraphifyOutput
  pub status : String
  pub write_receipts : List String

-- Stable evidence times: the nodes and the edges carry the time of the record.
abbrev pub stamp_node : MemoryRecord → GraphNode → GraphNode
stamp_node r node = record node { created_at = r.updated_at }

abbrev pub stamp_edge : MemoryRecord → GraphEdge → GraphEdge
stamp_edge r edge = record edge { created_at = r.updated_at; last_confirmed_at = r.updated_at }

abbrev pub stamped : MemoryRecord → GraphifyOutput → GraphifyOutput
stamped r output = record output {
  nodes = map (stamp_node r) output.nodes;
  relationships = map (stamp_edge r) output.relationships;
}

abbrev if_active : Option MemoryRecord → Option MemoryRecord
if_active none = none
if_active (some r) = if r.status == active then some r else none

-- `owner` is what `worker_owner` gives, `now` the present second and `now_text` its text.
module _ (lib : GraphLibraries) (deterministic_id : List String → String) (now : ℕ)
    (now_text owner : String) where
  abbrev pub replay_event : String → String → String → GraphifyOutput → AuditEvent
  replay_event tenant user id output =
      record (audit_event owner tenant user graphify_merged "memory" (some id)
        "canonical graph replay" now_text) { user_id = some user; trace_id = some output.trace_id }

  -- What the stored memory and the hints give, before anything is written.
  unfoldable pub read_evidence :
      String
      → String
      → String
      → List GraphHint
      → GraphTables
      → CoreResult (MemoryRecord × GraphifyOutput)
  read_evidence tenant user id hints s = do
    validate_scope_component tenant "tenant_id"
    validate_scope_component user "user_id"
    validate_scope_component id "memory_id"
    refuse (ltb 256 (length hints)) (invalid_input "graph replay accepts at most 256 hints")
    r ←
        ok_or (if_active (get_memory s.tables tenant user id))
          (not_found "active canonical memory not found")
    refuse (ltb 256 (length r.entities))
        (invalid_input "graph replay accepts at most 256 canonical entities")
    output ← graphify_record lib.unicode now_text deterministic_id r hints
    ok (r, stamped r output)

  abbrev pub accepted : GraphifyOutput → List String → GraphReplayOutput
  accepted output receipts = record {
    graph = output;
    status = "accepted";
    write_receipts = receipts;
  }

  abbrev pub commit_output :
      String
      → String
      → String
      → MemoryRecord
      → GraphifyOutput
      → Action GraphTables GraphReplayOutput
  commit_output tenant user id r output s =
      let (t, outcome) =
        commit_graph_replay lib now r output.nodes output.relationships
          (replay_event tenant user id output) s in
      (t, outcome >>= λ receipts. ok (accepted output receipts))

  unfoldable pub graphify_memory :
      String → String → String → List GraphHint → Action GraphTables GraphReplayOutput
  unfolding read_evidence commit_graph_replay audit_event
  graphify_memory tenant user id hints s = elim (read_evidence tenant user id hints s) [
    | err failure ↦ (s, err failure)
    | ok found ↦ commit_output tenant user id found.0 found.1 s
  ]
