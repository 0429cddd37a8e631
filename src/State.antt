-- ===== src/State.antt =====
-- state/: the files under the state root, loaded and saved whole.
pub mod Store
pub mod Updates
pub mod Conf
pub mod Same
