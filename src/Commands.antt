-- ===== src/Commands.antt =====
-- commands/: the operations on instances.
pub mod Destroy
pub mod Snapshot
pub mod Snapshots
pub mod Dump
pub mod Host
pub mod Create
pub mod Rotate
pub mod Resize
pub mod Reconfigure
pub mod Clone
pub mod Restore
pub mod Upgrade
pub mod Kept
pub mod HostPort
pub mod Made
