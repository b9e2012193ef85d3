-- ===== src/Lib.antt =====
-- Nextral is a memory runtime: memories, reminders and scheduled jobs of tenants and users, kept in
-- several stores behind one interface. This library models the parts of it that decide, and leaves the
-- backends, which carry the decisions out, aside.
--
-- The parts and their files (paths from the root of the repository):
--
--   Contracts   src/contracts/mod.rs: CoreError, CoreResult.
--   Kinds       src/domain/memory.rs: the enumerations of memory records.
--   Topology    src/topology.rs: the profile of each memory type (StoreRole, WriteLane, ReadPath).
--   Planner     src/planner.rs: operation_plan and the steps of each operation.
--   Scope       src/store.rs: validate_scope_component; src/runtime/lifecycle.rs: validate_identity.
--   Timestamps  src/runtime/lifecycle.rs: timestamp_nanos, canonical_timestamp and the like.
--   Json        serde_json's Value, as far as the runtime reads it.
--   Lifecycle   src/runtime/lifecycle.rs and the implementation of LifecycleStore for
--               TestMemoryStore in src/runtime/storage.rs: leases with fences, guarded writes and
--               the queue of scheduled jobs.
--   Audit       src/domain/audit.rs: AuditEvent and same_payload.
--   Memories    src/domain/memory.rs: MemoryRecord, its validation and transitions (Life), and the
--               memories of TestMemoryStore in src/testkit/mod.rs (Store).
--   Reminders   src/domain/reminder.rs: the status of a reminder (Status); src/runtime/reminders.rs:
--               attempts and outcomes (Delivery), quiet hours (QuietHours), whether a due reminder
--               may be delivered (Verdict) and its delivery over any store (Execution, with the
--               store as the record of Interface); src/testkit/mod.rs: the reminders of
--               TestMemoryStore (Table).
--   Graph       src/domain/graph.rs: nodes, edges and their validation (Graph itself), what
--               graphify_record takes from a memory (Extraction) and find_contradictions
--               (Contradictions); src/testkit/mod.rs: the merges (Merging), the traversal of
--               graph_memory_ids (Traversal) and commit_ingestion and commit_graph_replay (Ingestion);
--               src/runtime/graphify.rs: graphify_memory over that store (Runtime).
--   Governance  src/runtime/governance.rs: forget_memory and retain_memory over any store (Interface);
--               src/runtime/storage.rs: lifecycle_forget of TestMemoryStore (Tables) and the store that
--               a forget works on (TestStore).
--   Jobs        src/runtime/prospective.rs: enqueue_lifecycle_job (Jobs itself) and
--               execute_lifecycle_jobs (Execution) over any store (Interface), which calls
--               Governance.retain_memory.
--   Actions     code that changes a store and may fail: an action takes the store and returns the new
--               one with a CoreResult, also where it fails.
--   Sessions    src/domain/session.rs and src/testkit/mod.rs: SessionMessage, append_session_message
--               and session_tail.
--   Base        shared names: tests, lists, tables that stand for hash maps, texts.
--   Examples    the theorems at concrete inputs, and runs.
--
-- State and calls. What works over any store (Reminders.Execution, Governance, Jobs) takes the store's
-- calls as a record of operations on a state S, and its theorems hold for all of them unless they name
-- a law. The store of the tests is modelled by its tables: a store is a record of them, and an
-- operation takes the record and returns the new one with its result; a refused operation returns the
-- record that it was given. The clock that the operations of the source read is an argument. Workers
-- interleave their calls: a history is a list of calls, each with its own clock.
--
-- Numbers. A u64 is a natural number; the sums `now + lease_seconds` and `fence + 1` are taken modulo
-- 2^64, which is what a release build does. Where a theorem needs that a counter does not wrap, it
-- says how many calls there is room for.
--
-- Libraries. What the code takes from chrono, chrono_tz, serde_json and sha2 is a parameter, a record
-- of functions, and so are std's tables of Unicode (the lower and upper case of texts and characters),
-- the parser that reads a JSON text, deterministic_id and source_fingerprint, which hash, and
-- consolidate_session, an operation of the store that Jobs runs on. So is what the store of the tests
-- does to a JSON document that refers to a forgotten memory (lifecycle_state_references and
-- scrub_lifecycle_state) and its check of archive sources. The laws that a theorem needs of
-- them are its hypotheses (Timestamps.Instants.Reads, which holds for years of four digits).
--
-- The attempts of a job and of a forget are u32 counters that saturate. The bits of an f32 stand for a
-- confidence, and total_cmp is written out on them.
--
-- Loops. A traversal of the graph takes at most ten rounds, as the source allows, and the list of keys
-- that a round starts from is what its set holds. The other loops run over lists and are structural,
-- and the search for the end of the quiet hours counts down the 1560 minutes that the source allows
-- it. Decimal printing runs on fuel, twenty digits, and a u64 has no more.
--
-- Not modelled: the adapters of the databases, the servers, bindings and packaging, and what computes
-- with floating-point numbers (scoring, retrieval ranking, evaluation). A score that is only compared
-- is kept as its 32 bits. Of the domain, the scheduling of reminders, consolidation, extraction by a
-- provider, context assembly, experiments and the configuration and ticks of the worker are not
-- modelled, nor are metrics.
mod Base
pub mod Contracts
pub mod Actions
pub mod Kinds
pub mod Topology
pub mod Planner
pub mod Scope
pub mod Timestamps
pub mod Json
pub mod Lifecycle
pub mod Audit
pub mod Memories
pub mod Reminders
pub mod Sessions
pub mod Examples
pub mod Graph
pub mod Governance
pub mod Jobs
