-- ===== src/Function.antt =====
-- function/: actions, their executions and confirmation, global functions and workflows.
pub mod Safety
pub mod Executions
pub mod Actions
pub mod Params
pub mod NativeCrud
pub mod Registry
pub mod Services
pub mod Service
pub mod Workflow
pub mod Globals
pub mod Capabilities
