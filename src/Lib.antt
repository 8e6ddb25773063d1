-- ===== src/Lib.antt =====
-- SOC One: a model of the decision logic of the backend (backend/), with the theorems about it.
--
-- Which file models which part:
-- - Base: shared names, tests on numbers, list functions, and the abstract floats (Base/Float).
-- - Cases/Relationships: the links between Cases, `validate_relationship` and the requests of the
--   serializer (backend/apps/cases/services.py, serializers.py, models.py).
-- - Correlation/Signals, Correlation/Scoring: edge scores, the union-find and the connected
--   components of the Case clustering (backend/apps/agentic/correlation/scoring.py).
-- - Notifications/Outbox, Filters, Emit: events, filters, quiet hours and the queueing side
--   (backend/apps/notifications/models.py, events.py, service.py).
-- - Notifications/Delivery: claiming, grouping and sending (backend/apps/notifications/delivery.py);
--   its child modules hold the lemmas on grouping, on the marks and on a whole iteration.
-- - Llm/Budget: what of a payload fits a model's window (backend/integrations/llm/budget.py).
-- - Llm/Failover: candidates, failover and cooldown (backend/integrations/llm/llmapi.py). The shared
--   cache and the call of a model are arguments; the theorems on the cooldown ask of the cache that a
--   stored key is found until it expires, within which the calls lie.
-- - Llm/Extraction, Llm/Structured: the search for a JSON object in an answer and the attempts of a
--   structured call (backend/integrations/llm/extraction.py, structured.py).
-- - Hunting/Plan, Execute, Conclude: the mode of a hunt plan, the ceilings on its queries, the guarded
--   execution of a query and the conclusion (backend/apps/agentic/hunting/service.py). The searches
--   behind their guards are an argument.
-- - Hunting/Backends: the audited search of QRadar and Trellix and the hourly limit on plans
--   (backend/apps/agentic/hunting/service.py).
-- - Hunting/Loop, Run: the loops of a run and the generation of a plan, over the modules above
--   (backend/apps/agentic/hunting/service.py).
-- - Hunting/EdrGuard: the guard of a search of the endpoints, and which searches count as writes
--   (backend/integrations/edr/trellix_guard.py).
-- - Triage/Suppression: the suppressions that are looked up before any model is asked
--   (backend/apps/agentic/triage/suppression.py).
-- - Triage/Assessment, Analysis, Asset, Completeness: the stored assessment of a report, the run of an
--   analysis, the context of an asset and what of a Case's context is missing, on top of Ioc
--   (backend/apps/agentic/triage/assessment.py, asset.py, completeness.py,
--   backend/apps/agentic/analysis/analysis.py).
-- - Worker/Runner, Health: the loop of the background workers, and the record and display of their health
--   (backend/apps/common/worker_runner.py, worker_health.py). The loop runs over a list of what its
--   iterations do.
-- - Ioc/Normalize, Injection, References, Sources, Verify, Batch: the verification of an indicator, from its
--   classification to the stored row (backend/apps/agentic/ioc/normalize.py, injection.py, service.py).
--   The sources and the model are an argument; the state keeps what has been asked of them.
--
-- Conventions. Ids of database rows are numbers; a table is a list of its rows. Time is an argument
-- of each call. Floats are an abstract record of operations;
-- confidences are hundredths. Strings are compared whole; `str.title` is that of ASCII text. The
-- digest in a deduplication key is an argument, and so are the rendered text of a message, already
-- cut to its field's length, and the answer of the service that sends it.
--
-- Not modelled: rendering of texts, requests to services, forms, views, the command line and the
-- frontend; of the agents, the facts and the texts of a Case's context, the storage of its
-- clusters and the guard of the AQL queries.
--
-- Fuel. The climb through the parents of a Case has one round more than the table has rows, and
-- `find` one more than its index. The loop that halves a list has the length it starts from, which
-- halving brings to 0 in fewer rounds. The iterations of a hypothesis in a
-- hunt plan are as many as the configuration allows, and at least one.
pub mod Base
pub mod Cases
pub mod Correlation
pub mod Notifications
pub mod Llm
pub mod Hunting
pub mod Triage
pub mod Worker
pub mod Ioc
