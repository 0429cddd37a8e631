-- ===== src/Tui.antt =====
-- tui/: the dashboard's state machine.
pub mod TextField
pub mod Types
pub mod App
pub mod Ops
pub mod Main
