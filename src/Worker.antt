-- ===== src/Worker.antt =====
-- The background workers (backend/apps/common/worker_runner.py, worker_health.py).
pub mod Runner
pub mod Health
pub mod Tests
