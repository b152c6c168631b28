-- ===== src/Store.antt =====
-- app/store.py: the transactions of the durable execution.
pub mod Tables
pub mod Events
pub mod Enqueue
pub mod Claim
pub mod Progress
pub mod Finish
pub mod Machine
pub mod Writes
pub mod Refines
pub mod History
pub mod Leases
