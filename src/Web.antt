-- ===== src/Web.antt =====
-- apps/web/server: what the API server decides before it answers.
pub mod IndexerStatus
pub mod RateLimit
