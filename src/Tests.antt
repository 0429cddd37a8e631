-- ===== src/Tests.antt =====
-- Concrete runs: each applies a theorem at an input on which the code does something.
mod Fixtures
mod Commands
mod Health
mod Dashboard
mod Making
mod Dumps
mod Listing
