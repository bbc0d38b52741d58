-- ===== src/Data.antt =====
-- data/: reads of the business rows and their write-back.
pub mod RowLock
pub mod EditLog
pub mod Merge
pub mod Masking
pub mod Schema
pub mod Virtual
pub mod Query
pub mod Queries
