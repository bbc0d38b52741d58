-- ===== src/Ontology.antt =====
-- ontology: the versioned catalogue of types over the graph database
pub mod Graph
pub mod Lock
pub mod Repository
pub mod Validators
pub mod Serialize
pub mod World
pub mod Snapshots
pub mod Keeps
pub mod Service
pub mod Retry
