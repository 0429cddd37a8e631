-- ===== src/Disk.antt =====
-- disk/: how full the file systems are that the program uses.
pub mod Health
pub mod Percent
pub mod Worst
