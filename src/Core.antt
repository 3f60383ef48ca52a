-- ===== src/Core.antt =====
-- packages/core: the protocol library, one module to a source file.
pub mod Errors
pub mod Json
pub mod Schema
pub mod Libraries
pub mod Claims
pub mod Lifecycle
pub mod Resolution
pub mod Network
pub mod Documents
