-- ===== src/Sdk.antt =====
-- packages/sdk: what a client does with XCS transactions.
pub mod Submission
