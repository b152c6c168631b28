-- ===== src/Context.antt =====
-- app/context.py: the history, the summary and the memories that a Run's prompt is built from.
pub mod Tokens
pub mod Summary
pub mod Budget
pub mod Prepare
pub mod Truncation
pub mod Selection
pub mod Cursor
