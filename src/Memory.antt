-- ===== src/Memory.antt =====
-- app/memory.py: the memories of a user across sessions.
pub mod Texts
pub mod Rows
pub mod Candidates
pub mod Backend
pub mod Service
pub mod Recall
pub mod Writes
pub mod Merges
pub mod Collection
pub mod Extraction
pub mod Actions
pub mod Offers
pub mod Pages
pub mod Held
pub mod Live
pub mod Ranked
pub mod Recalled
