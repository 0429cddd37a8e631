-- ===== src/Docker.antt =====
-- docker/engine.rs and the code that talks to containers.
pub mod Engine
pub mod Wait
pub mod Image
pub mod Entrypoints
pub mod Cleanup
