-- ===== src/Correlation.antt =====
-- Case clustering (backend/apps/agentic/correlation): linking Cases that share entities.
pub mod Signals
pub mod Scoring
