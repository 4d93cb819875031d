-- ===== src/Lib.antt =====
-- Verification of the backend of the Sentinel API platform: the mock server, the test runner, the
-- projects with their APIs, mock rules, test cases and runs, the contracts, the AI features, the
-- authentication, and the mapping of errors to responses.
--
-- The parts, and the files that model them (Go paths from the repository's root):
--
-- * Mock models backend/internal/mock. Mock.Matcher is matcher.go: `decode_field_spec`,
--   `validate_match_json`, `score_rule` and `pick_best` are decodeFieldSpec, ValidateMatchJSON,
--   scoreRule and PickBest. Mock.VarBag is varbag.go over the commands of Redis, Mock.Extractor is
--   extractor.go, and Mock.Engine is the handler Serve of engine.go: it finds the project, loads
--   its rules and APIs, filters the candidates, asks the matcher, runs the extractor on the bag,
--   substitutes the variables in the body and records the hit. Each step takes the state of the
--   stores and returns it.
-- * Runner models backend/internal/runner. Runner.JsonPath is jsonPathLookup and Runner.Assertion
--   the rest of assertion.go, Runner.Executor is Execute of executor.go, and Runner.Orchestrator
--   is runner.go: `run_sequential` is runSequential, and Orchestrator.Pool gives runParallel as a
--   step relation, in which the main goroutine takes a case, waits for a slot and starts a
--   goroutine, and each goroutine goes through the three parts of execOne: `send`, `save` and
--   `count`. `Runs` is Run in either mode. Runner.Events is sse.go, whose goroutine is `react`.
-- * Projects models the project service of backend/internal/service/project_service.go, over the
--   two stores that are its interfaces, RequireProjectRole of backend/internal/middleware/rbac.go,
--   the handlers of backend/internal/api/project.go, and the two repositories that fill the
--   stores; Projects.Access puts service and middleware together.
-- * Apis and Rules model the inventory of APIs and the mock rules of a project, each with its
--   service (backend/internal/service/api_service.go and mock_rule_service.go), its repository
--   over gorm's table, and its handlers (backend/internal/api/api.go and mock_rule.go).
--   `require_editor` is the check of the caller that both services make, and Rules.Repo.RuleMap is
--   the abstract view of the rules: a map from ids to rules.
-- * Testing models the services of test cases and of test runs and their handlers
--   (backend/internal/service/test_case_service.go and test_run_service.go,
--   backend/internal/api/test_case.go and test_run.go). Start spawns what Runner models.
--   Testing.Handlers.Stream is the loop of Stream with the goroutine that fills its channel, `run`
--   being any sequence of their steps. Testing.Repo has the rows of cases, runs, results and mock
--   hits.
-- * Ai models backend/internal/ai and backend/internal/service/ai_service.go: the guard of the
--   budgets, the cache of answers, the engine's call of a provider, and the service.
-- * Auth models the authentication service of backend/internal/service/auth_service.go, the
--   refresh tokens of backend/internal/repository/refresh_token_repo.go, the users' repository,
--   and the handlers of backend/internal/api/auth.go with the cookies that they write.
-- * Gate models the middleware auth.go, csrf.go and cookie.go of backend/internal/middleware, and
--   backend/internal/pkg/jwt.
-- * Contract models backend/internal/contract: Differ is Diff, Parser the extraction of APIs from
--   a document, and Specs the comparison of two documents.
-- * Settings models `validate` of backend/internal/pkg/config and backend/internal/pkg/pagination.
-- * Dashboard models the statistics of backend/internal/service/dashboard_service.go.
-- * Http has what all handlers share: a request, a reply, and the guards on the caller and the
--   body; Gorm has the calls on a table that the repositories make, and what they rely on.
-- * Errs models backend/internal/pkg/errs, and Errs.Mapper models WriteError of
--   backend/internal/middleware/error_mapper.go with the envelope of backend/internal/pkg/httpx.
-- * Model has the rows of backend/internal/model that these parts read.
-- * Prelude has the names and lemmas that all share, Effects the calls that return an error and
--   keep state, and Json the decoded values, HTTP headers, and what is a parameter of Go's
--   standard library.
--
-- Parameters. The JSON reader and printer, regular expressions, the conversion of a float64 to an
-- int and the canonical spelling of header names are the record `Std`. gjson, gojsonschema,
-- net/http, kin-openapi, the Redis client, gorm's table, bcrypt, SHA-256, the signing of tokens,
-- strings.ToLower and ToUpper, the ids, gin's binding of bodies, golang-jwt, encoding/json on rows,
-- the stores, the hook, the publisher, the clock and the context are arguments of
-- the definitions that use them; the laws that Redis documents are the record `RedisLaws`, which
-- Mock.VarBag.Memory fills with a store in memory, and the laws of gorm's table are the
-- records `IsTable` and `DeletesRows`.
--
-- Conventions. A Go map is an association list in the order in which the code visits it. A decoded
-- document keeps the values that the code keeps as raw messages in decoded form. Texts of
-- third-party errors, indices in error texts, times and durations are left out. An int that can be
-- negative is a ℤ; counters are natural numbers, since a run has fewer cases than an int can
-- count. A Go run-time panic is a value: `panics` in the path lookup, `none` in `assert`,
-- `execute` and `exec_one`.
--
-- Fuel. `tokens_from` scans a template on fuel, the number of its characters; each match or
-- character uses one unit at most, so that the number is enough. Every other loop is by recursion
-- on a list.
--
-- Not modelled: the repositories of usage and audit rows, which are SQL sums and inserts; logging,
-- CORS, request ids and the audit middleware; the loading of the configuration, the migrations,
-- and the wiring of backend/cmd/server/main.go, of which the modules name the parts that they put
-- together. Costs are whole hundred-millionths of a dollar, without the rounding of float64 sums.
-- gin's chain of handlers is not modelled: each middleware and each handler is a function of its
-- own. Of the step relation, the calls inside `send`, `save` and `count` are not interleaved with
-- each other, and a data race on the run's status with the counters' lock is not modelled.
pub mod Prelude
pub mod Errs
pub mod Effects
pub mod Json
pub mod Model
pub mod Mock
pub mod Runner
pub mod Projects
pub mod Auth
pub mod Contract
pub mod Http
pub mod Dashboard
pub mod Settings
pub mod Testing
pub mod Gate
pub mod Ai
pub mod Gorm
pub mod Apis
pub mod Rules
