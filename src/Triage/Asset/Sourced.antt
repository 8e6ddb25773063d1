-- ===== src/Triage/Asset/Sourced.antt =====
-- Where the asset context of backend/apps/agentic/triage/asset.py comes from.
