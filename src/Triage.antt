-- ===== src/Triage.antt =====
-- Triage (backend/apps/agentic/triage): suppression, and the assessment of a Case.
pub mod Suppression
pub mod Assessment
pub mod Asset
pub mod Analysis
pub mod Completeness
pub mod Tests
pub mod AnalysisTests
