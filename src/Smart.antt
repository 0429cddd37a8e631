-- ===== src/Smart.antt =====
-- smart/: the SMART health of the host's drives.
pub mod Types
pub mod Worst
pub mod Check
pub mod Cache
