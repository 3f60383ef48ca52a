-- ===== src/Tests.antt =====
-- Runs of the model at concrete inputs, and the theorems at inputs that meet their hypotheses.
mod Schema
mod Claims
mod Resolution
mod Texts
pub mod Fencing
pub mod Ledgers
mod Registration
mod Projection
pub mod Repository
mod Sources
mod Web
mod Submission
mod Worker
