-- ===== src/Store/Refines.antt =====
-- Each transaction of app/store.py is a sequence of writes: the tables refine the state machine.
pub mod Commit
pub mod Worker
pub mod Claim
pub mod Renewal
