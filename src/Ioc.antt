-- ===== src/Ioc.antt =====
-- Verification of indicators (backend/apps/agentic/ioc).
pub mod Normalize
pub mod Injection
pub mod References
pub mod Sources
pub mod Verify
pub mod Batch
pub mod Tests
