-- ===== src/Copilot.antt =====
-- copilot: the sessions of the assistant, and the language models that it may use.
pub mod Models
pub mod Sessions
