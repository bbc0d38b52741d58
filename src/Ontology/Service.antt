-- ===== src/Ontology/Service.antt =====
-- ontology/service.py
pub mod Drafts
pub mod Publish
pub mod Types
