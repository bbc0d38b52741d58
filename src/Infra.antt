-- ===== src/Infra.antt =====
-- infra: error codes, the handler monad, and the two servers that the services stand on
pub mod Errors
pub mod Exec
pub mod Falls
pub mod Redis
pub mod Table
