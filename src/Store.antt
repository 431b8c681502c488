-- ===== src/Store.antt =====
-- samsarix_chat_engine/store.py: one module for each group of operations, over the shared tables.
pub mod Tables
pub mod Results
pub mod Outcomes
pub mod Audit
pub mod Outbox
pub mod Cascade
pub mod Invariant
pub mod Rooms
pub mod Members
pub mod Retention
pub mod Messages
pub mod Reactions
pub mod Pins
pub mod Paging
pub mod Reads
pub mod Examples
