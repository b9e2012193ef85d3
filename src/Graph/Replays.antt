-- ===== src/Graph/Replays.antt =====
-- A replay of the evidence of a memory happens as a whole or not at all.
use nextral.Base.{
  ◌≡◌, arith, ◌⊎◌, inl, inr, ℕ, Bool, false, String, some, Option-cases, List, [], ◌∷◌, Bool-cases,
  string_eq, str_iff,
}
use nextral.Kinds.{active, status_eq}
use nextral.Contracts.{CoreError, conflict, not_found, ok, err, CoreResult-cases}
use nextral.Audit.{AuditEvent}
use nextral.Memories.Records.{MemoryRecord}
use nextral.Memories.Store.{get_memory, remove_graph_source}
use nextral.Graph.Records.{GraphNode, GraphEdge}
use nextral.Graph.Ingestion.{
  GraphTables, GraphLibraries, check_source, is_leased, commit_graph_replay,
}
use nextral.Graph.Commits.{
  put_nodes, source_graph-valid, add_nodes_lem, add_edges_lem, committed, checked, replay,
}

check_source_lem :
    (lib : GraphLibraries) (current r : MemoryRecord)
    → check_source lib current r ≡ ok tt
    → (current.status ≡ active)
      × (print : String) × (lib.source_fingerprint current ≡ ok print)
      × (lib.source_fingerprint r ≡ ok print)
unfolding check_source
check_source_lem lib current r h = elim (CoreResult-cases (lib.source_fingerprint current)) [
  | inr (failure, refused) ↦ absurd (ground arith)
  | inl (mine, stored) ↦ elim (CoreResult-cases (lib.source_fingerprint r)) [
    | inr (failure, refused) ↦ absurd (ground arith)
    | inl (other, replayed) ↦ (
      (status_eq.same_iff current.status active).0 (ground arith),
      mine,
      stored,
      ground (arith, str_iff mine other),
    )
  ]
]

module _ (lib : GraphLibraries) (s : GraphTables) (r : MemoryRecord) (nodes : List GraphNode)
    (edges : List GraphEdge) (audit : AuditEvent) where
  module _ (now : ℕ) where
    -- What a replay asks of the memory that is stored: it is active, with the fingerprint of the record
    -- that was replayed, and its user's lifecycle is not leased.
    pub record Replayable (current : MemoryRecord) : Type 0 where
      pub stored : get_memory s.tables r.tenant_id r.user_id r.id ≡ some current
      pub is_active : current.status ≡ active
      pub print : String
      pub same_print :
          (lib.source_fingerprint current ≡ ok print) × (lib.source_fingerprint r ≡ ok print)
      pub not_leased : is_leased lib now r s ≡ false

    -- The state that the replay leaves.
    abbrev pub replaced : Bool → GraphTables
    replaced replayed = committed s (remove_graph_source s.tables r) nodes edges replayed audit

    pub commit_graph_replay-succeeds :
        (current : MemoryRecord) (replayed : Bool)
        → replay lib s r nodes edges audit ≡ ok replayed
        → checked lib s r nodes edges audit ≡ ok tt
        → get_memory s.tables r.tenant_id r.user_id r.id ≡ some current
        → check_source lib current r ≡ ok tt
        → is_leased lib now r s ≡ false
        → commit_graph_replay lib now r nodes edges audit s
          ≡ (replaced replayed, ok ("test_graph:source:replaced" ∷ "test_audit" ∷ []))
    unfolding commit_graph_replay remove_graph_source
    commit_graph_replay-succeeds current replayed seen valid found agreed free =
        let (valid_nodes, valid_edges) =
          source_graph-valid lib.unicode r.tenant_id r.user_id r.id nodes edges valid in
        let kept : GraphTables = record s { tables = remove_graph_source s.tables r } in
        let noted : GraphTables = record kept { graph_nodes = put_nodes s.graph_nodes nodes } in
        let nodes_in = add_nodes_lem lib r.tenant_id r.user_id r.id nodes kept valid_nodes in
        let edges_in = add_edges_lem lib r.tenant_id r.user_id r.id nodes edges noted valid_edges in
        ground (arith, nodes_in, edges_in)

    -- A replay of a memory's evidence fails and changes nothing, or succeeds: the evidence is valid and
    -- replaces the old, the memory is one that may be replayed and stays as it is, and the event is
    -- recorded unless it was.
    pub commit_graph_replay_lem :
        ((failure : CoreError) × (commit_graph_replay lib now r nodes edges audit s
            ≡ (s, err failure)))
        ⊎ (checked lib s r nodes edges audit ≡ ok tt)
          × (current : MemoryRecord) × Replayable current
          × (replayed : Bool) × (replay lib s r nodes edges audit ≡ ok replayed)
          × (commit_graph_replay lib now r nodes edges audit s ≡ (
            committed s (remove_graph_source s.tables r) nodes edges replayed audit,
            ok ("test_graph:source:replaced" ∷ "test_audit" ∷ []),
          ))
    unfolding commit_graph_replay remove_graph_source
    commit_graph_replay_lem = elim (CoreResult-cases (replay lib s r nodes edges audit)) [
      | inr (failure, refused) ↦ inl (failure, ground arith)
      | inl (replayed, seen) ↦ elim (CoreResult-cases (checked lib s r nodes edges audit)) [
        | inr (failure, refused) ↦ inl (failure, ground arith)
        | inl (done, valid) ↦ elim (Option-cases (get_memory s.tables r.tenant_id r.user_id r.id)) [
          | inl missing ↦ inl (not_found "canonical graph source missing", ground arith)
          | inr (current, found) ↦ elim (CoreResult-cases (check_source lib current r)) [
            | inr (failure, refused) ↦ inl (failure, ground arith)
            | inl (same, agreed) ↦ elim (Bool-cases (is_leased lib now r s)) [
              | inl leased ↦ inl (conflict "source lifecycle is leased", ground arith)
              | inr free ↦
                  let (alive, print, mine, other) = check_source_lem lib current r agreed in
                  inr (
                    valid,
                    current,
                    record {
                      stored = found;
                      is_active = alive;
                      print = print;
                      same_print = (mine, other);
                      not_leased = free;
                    },
                    replayed,
                    seen,
                    commit_graph_replay-succeeds current replayed seen valid found agreed free,
                  )
            ]
          ]
        ]
      ]
    ]
