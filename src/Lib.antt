-- ===== src/Lib.antt =====
-- A model of the backend of StubGraph, a code intelligence service: an API and its ARQ workers over a
-- database, a Redis server and a message broker (backend/app).
--
-- The parts and their files. Names follow the source without the suffix `_async` and the leading
-- underscore; a helper that stands for a stretch of a function says so above it.
-- - Errors: the exception classes of backend/app/errors.py, and results of code that may raise.
-- - Text: `str` as a list of code points, with the methods that the program calls; Text.Chunks has
--   `_chunk_text` of backend/app/utils.py.
-- - Rbac: backend/app/rbac.py.
-- - Orgs: backend/app/services/org_service.py over the tables of organisations and memberships. A
--   transaction is a function that returns the new tables or raises; `begin` undoes a raising one.
-- - Listings: the two listings of org_service.py.
-- - Jobs: the rows of `taskjob` (backend/app/models.py) and `_create_job_async`. `Others` holds what
--   other sessions commit at the points where a session waits.
-- - Inflight: the Redis set of heavy tasks of backend/app/services/task_queue.py, with its Lua script, which
--   may have run where its call raises.
-- - Queue: the submissions of that file. `Env` says how the broker, Redis and the other sessions behave
--   during one submission; `System` is the table, the set and what has reached the broker.
-- - Lifecycle: `_set_job_status_async` of backend/app/task_handlers.py and the clean-up of completed jobs.
-- - Patches: `_apply_file_patch` of backend/app/patches.py, on the hunks that `unidiff` reads;
--   Patches.Apply has `apply_unified_diff`, from the files of a diff to the files below the root.
-- - Auth: backend/app/auth.py and the sessions and API keys of backend/app/services/auth_service.py;
--   Auth.Accounts has its users, Auth.Passwords its password hashes.
-- - Policy: backend/app/policy.py over the tables of Orgs and Auth. Its `Env` holds the settings, the
--   digest of a token, and what other sessions do where a request waits.
-- - RateLimit: backend/app/infra/rate_limit.py, with the counters and the script cache of Redis.
-- - Braces: backend/app/parsing_utils.py; Braces.Grammar has the grammar it is compared with.
-- - Usage: backend/app/services/usage_service.py and entitlements_service.py, over the rows of `orgusage`
--   and `orgentitlement`.
-- - Cache: backend/app/infra/cache.py, over the entries in Redis.
-- - CpuRuntime: `run_cpu_io_async` of backend/app/infra/cpu_runtime.py, as the steps that its tasks take
--   between two awaits, in any order.
-- - PathPatterns: the skeletons of routes in backend/app/api_map.py, and `patterns_compatible`.
-- - Snapshots: the extraction of archives in backend/app/snapshots.py. A folder is the list of its files in
--   the order in which they were written, each with the path that the library writes it at.
-- - Storage: the patch blobs of backend/app/storage.py, in a folder or in S3; a reading from the folder
--   translates line ends.
-- - ProjectTree: the pages of the entries of a folder, in backend/app/services/project_service.py.
-- - Projects: the deletion of a project (backend/app/services/project_service.py) and of a run
--   (backend/app/services/task_service.py), with the blobs that they take from the storage.
-- - Graph: the metrics of backend/app/graph.py, in full and (Graph.Incremental) after a few files changed.
-- - Scan: the scan of given files in backend/app/scan.py, and the indexing of a mutation
--   (backend/app/services/file_mutation_service.py), which calls it and then the metrics of Graph. A
--   `Moment` is what one attempt meets: the disk when files are looked at, read and verified, and what
--   other sessions commit before it has the lock.
-- - Imports: the import of an uploaded archive, over backend/app/snapshots.py,
--   backend/app/services/project_service.py and backend/app/task_handlers.py. An `Env` is one delivery of
--   its task, with all that fails in it.
-- - Tasks: the other handlers of backend/app/task_handlers.py. The bodies of the scan of a project, the
--   docs and the runs are parameters.
-- - PatchRuns: the application of the patch of a run in backend/app/services/task_service.py, which calls
--   Patches.Apply, Scan and Graph.
-- - Tests: concrete data, and the theorems applied to it.
--
-- Timestamps, ids and hash digests are numbers. Reads and writes of one transaction are not interleaved
-- with others, but for the points that `Others` names: the source takes row locks there. Messages of
-- exceptions are constructors and their context dictionaries are dropped. Loops run over lists, but for
-- three. The fuel of Text.Chunks is the length of the text, and that of `iter_chunks` in Graph the length
-- of the list: each turn takes one element at least. The walk over a component in Graph gets a turn for
-- each end of an edge and two more, which Graph.Component shows to be enough.
--
-- Not modelled: HTTP routing, the docs, the runs, the indexers, the scan of a whole project with its
-- embeddings and its cache of parses, the search, the LLM orchestration, the staging of uploads,
-- configuration, logging and the frontend. `unidiff`, SQL, Redis, archives and `networkx` are read
-- through what the program relies on.
pub mod Prelude
pub mod Text
pub mod Errors
pub mod RateLimit
pub mod Rbac
pub mod Orgs
pub mod Jobs
pub mod Auth
pub mod Braces
pub mod Inflight
pub mod Lifecycle
pub mod Queue
pub mod Listings
pub mod Patches
pub mod Policy
pub mod Tests
pub mod Usage
pub mod Cache
pub mod CpuRuntime
pub mod PathPatterns
pub mod ProjectTree
pub mod Projects
pub mod Scan
pub mod Imports
pub mod Tasks
pub mod PatchRuns
pub mod Snapshots
pub mod Storage
pub mod Graph
