-- ===== src/Examples.antt =====
-- The theorems at concrete inputs, and runs of the definitions.
mod Plans
mod Times
mod Leases
mod Jobs
mod Reminders
mod Memories
mod Sessions
mod Graphs
mod Extraction
mod Workers
mod Forgets
