-- ===== src/Tests.antt =====
-- Runs of the definitions at small inputs, over servers in memory.
pub mod Queries
pub mod Workflows
pub mod Accounts
pub mod Memory
pub mod Publishing
pub mod Copilot
pub mod Editing
pub mod Checking
pub mod Rows
pub mod Executing
pub mod Functions
pub mod Retrying
