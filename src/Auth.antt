-- ===== src/Auth.antt =====
-- app/auth.py: accounts and the sessions of their browsers.
pub mod Emails
pub mod Service
pub mod Writes
pub mod Methods
pub mod Sessions
pub mod Logins
