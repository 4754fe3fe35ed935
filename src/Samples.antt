-- ===== src/Samples.antt =====
-- Concrete inputs of the simulation engine, for the examples.
pub mod Fixed
pub mod Signup
pub mod Records
pub mod Flow
pub mod Evidence
pub mod Observed
pub mod Aggregated
