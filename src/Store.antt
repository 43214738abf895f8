-- ===== src/Store.antt =====
-- src/store.ts: the durable store. `Rows` holds its tables, `Queries` its private selections and
-- updates, and each other module one group of its operations.
pub mod Rows
pub mod Queries
pub mod Lookup
pub mod Gate
pub mod Tasks
pub mod Runs
pub mod Reports
pub mod Evidence
pub mod Control
pub mod Invariant
pub mod System
mod Tests
