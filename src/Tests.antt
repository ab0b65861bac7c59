-- ===== src/Tests.antt =====
-- Runs of the models on small inputs, and instances of the theorems.
pub mod Fixtures
pub mod Propagated
pub mod Sampling
pub mod Buffered
pub mod Posted
pub mod Carried
pub mod Configured
pub mod Traced
