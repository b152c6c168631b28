-- ===== src/Examples.antt =====
-- Runs of the theorems on small data.
mod Samples
mod Histories
mod Claims
mod Results
mod Contexts
mod Attempts
mod Agents
mod ListedStore
mod Memories
mod Accounts
