-- ===== src/Ontology/Validators.antt =====
-- ontology/validators: the checks that run before an entity is written or deleted
pub mod Immutable
pub mod Dependency
pub mod Contract
pub mod Cascade
pub mod Cycle
