-- ===== src/Memories.antt =====
-- domain/memory.rs and the memories of testkit/mod.rs: records, their life, and the store's rules
-- about forgotten records.
pub mod Records
pub mod Life
pub mod Store
