-- ===== src/Domain.antt =====
-- domain/: the instance record, tuning presets and snapshot records.
pub mod Preset
pub mod Instance
pub mod Snapshot
