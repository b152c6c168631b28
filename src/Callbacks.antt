-- ===== src/Callbacks.antt =====
-- app/callbacks.py: what the agent's calls of models and tools write, and when they are refused.
pub mod Outputs
pub mod Handlers
pub mod Agent
pub mod Snapshots
pub mod Limits
pub mod Cancellation
pub mod Transactions
pub mod Fenced
