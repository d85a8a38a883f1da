-- ===== src/Lib.antt =====
-- washing: an inventory of machines that collects metrics and says which machines to resize.
--
-- The program is a FastAPI service, Celery workers and an MCP server over one SQL database.
-- Provisioners list machines, providers sample their cpu, ram and disk, a use case turns the
-- samples into an optimization for each machine, and signal handlers keep a row for each task
-- that a worker runs. The development models the logic between the libraries: SQLAlchemy's
-- tables are lists of records, a use case is a function from the committed tables to the tables
-- after it, and an exception is a value.
--
-- Files and sources:
--   Prelude       tests, lists, texts (a str is its code points), integers and floats
--   Domain        internal/domain/applications.py and machines.py: the normalisers
--   Security      internal/infra/security/sanitization.py: error codes and the allowlist
--   Queue/Context internal/infra/queue/task_tracking.py and task_names.py: what the handlers read
--                 from a message (`build_task_tracking_headers`, `resolve_resource_context`)
--   Queue/Tracking the handlers (`record_task_publish`, `record_task_start`,
--                 `record_task_finish`, `record_task_failure`, `record_task_retry`) with the rows
--                 of celery_task_executions; `receive` is the table of receivers
--   Db            internal/infra/db/models.py: the rows the use cases read and write
--   UseCases/Optimizations internal/usecases/optimizations.py: `evaluate_scope`,
--                 `aggregate_optimization`, `build_optimization_snapshot`, and
--                 `refresh_machine_optimization`
--   UseCases/Clock, UseCases/Publishing the cutoffs, and the loop that publishes until the broker
--                 refuses
--   UseCases/Maintenance internal/usecases/maintenance.py: the three purges
--   UseCases/Scheduler internal/usecases/scheduler.py: `is_due`, `dispatch_due_jobs`
--   UseCases/Applications internal/usecases/applications.py: the batch size and the dispatch (Defs),
--                 the projection and the sync of one application (Sync)
--   UseCases/Metrics internal/usecases/metrics.py: scopes, samples and dispatchers (Defs),
--                 `run_provider_machine_collection` (Collection)
--   Config        internal/infra/config/settings.py: the validators of the settings
--   Connectors    internal/infra/connectors/base.py and registry.py: records and lookups;
--                 provisioners/mock.py: the names and paths of presets (Presets)
--   Auth          internal/infra/auth/settings.py and oidc.py: the settings, the roles in the claims
--                 of a token (Claims), the provider's documents and their caches (Oidc/Documents),
--                 the authorization of a request (Oidc/Requests), the OpenAPI scheme (Swagger)
--   Api/Gate      app/api/main.py: the role a request needs, and the middleware that asks for it
--   Api/Store, Api/Providers, Api/Provisioners, Api/Platforms, Api/Runs app/api/routes/: common.py,
--                 machines/providers.py, machines/provisioners.py, their mock twins, platforms.py
--   Api/Pages     `paginate_query`, app/api/deps.py, and the lists of connectors
--   Api/Views     the typed read models of the connectors
--   Api/Requests  those requests as one type, and the tables that a sequence of them leaves
--   Api/Consistency the links between providers and provisioners under them
--   Contracts     internal/contracts/http/resources.py: the views of rows that hold errors
--   Tests         a run of each result on concrete data
--
-- How the parts meet: the handlers store what Security lets through and link a row to its
-- resource by Queue/Context; the use cases store error codes of Security and rows of Db that
-- Domain has normalised. Each handler takes the rows that other workers insert between its
-- query and its commit, and a history is the list of the signals in the order of their commits.
--
-- Parameters: Python's Unicode tables and `int` (`Strings`), double arithmetic (`FloatOps`),
-- the clock (a reading for each call), the answers of connectors, of the broker and of the OIDC
-- provider, and PyJWT (`World`). What a theorem needs of them is a hypothesis. No loop has
-- fuel: each walks a list or the depth of a value. Numbers: moments are microseconds and days
-- are ordinals, both in ℕ; resource ids are integers. Python's integers do not overflow, and
-- the columns' width is not modelled.
--
-- Not modelled: the inventory use case, the lists of platforms, the routes that show one row,
-- those of applications and machines, most contracts, the MCP server, the records of the mock
-- connectors, metrics exported to Prometheus, process entry points and migrations; two workers
-- that update one row at once, where the later commit wins, but for an attach that loses a
-- race; other sessions' commits between the two transactions of a dispatcher.
pub mod Prelude
pub mod Domain
pub mod Security
pub mod Queue
pub mod Db
pub mod Config
pub mod Contracts
pub mod Auth
pub mod Api
pub mod Connectors
pub mod UseCases
mod Tests
