-- ===== src/Setting.antt =====
-- setting/: users, their memberships in tenants, roles, and the tokens of their sessions.
pub mod Accounts
pub mod Sessions
pub mod Members
pub mod Users
pub mod Passwords
