-- ===== src/Llm.antt =====
-- Calls of language models (backend/integrations/llm): the input budget and the failover.
pub mod Budget
pub mod Failover
pub mod Extraction
pub mod Structured
pub mod Tests
