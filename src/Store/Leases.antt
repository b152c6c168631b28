-- ===== src/Store/Leases.antt =====
-- Who may write a Run, and what the writes of app/store.py amount to.
pub mod Claims
pub mod Owners
pub mod Outcomes
pub mod Progress
