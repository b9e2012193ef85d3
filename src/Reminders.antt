-- ===== src/Reminders.antt =====
-- domain/reminder.rs and runtime/reminders.rs: reminders, their life, and how the due ones are
-- delivered.
pub mod Records
pub mod Status
pub mod Delivery
pub mod QuietHours
pub mod Interface
pub mod Verdict
pub mod Execution
pub mod Table
