-- ===== src/Lineage.antt =====
-- lineage/: the records of pipeline runs.
pub mod RunMetadata
