-- ===== src/Hunting.antt =====
-- Hunt plans (backend/apps/agentic/hunting).
pub mod Plan
pub mod Execute
pub mod Conclude
pub mod Loop
pub mod EdrGuard
pub mod Backends
pub mod Run
pub mod Tests
