-- ===== src/Indexer.antt =====
-- apps/indexer: the indexer that projects validated ledgers into the database.
pub mod Types
pub mod Continuity
pub mod Status
pub mod Mutations
pub mod Registration
pub mod Projection
pub mod ReplayTarget
pub mod Repository
pub mod Sources
pub mod Worker
pub mod Fencing
