-- ===== src/Runner.antt =====
-- backend/internal/runner: executing the cases of a test run. Assertion judges one response,
-- Executor sends one request, Orchestrator runs the cases of a run, in turn or in parallel, and
-- Events brings the events of a run to its subscribers.
pub mod JsonPath
pub mod Assertion
pub mod Executor
pub mod Orchestrator
pub mod Events
