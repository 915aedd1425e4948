-- ===== src/Lib.antt =====
-- BiBLE Atlas server: asynchronous tasks, search, and the import of memories and skills.
--
-- Base: what the other files share: Boolean tests on the native numbers, lists, text, integers
-- (Base.Int), dictionaries as association lists in insertion order (Base.Dict), JSON-like Python
-- values (Base.Value, floats as their bits) and results of functions that may raise (Base.Result).
--
-- Errors (bible/common/errors.py, ErrorInfo of bible/common/schemas.py): error codes, HTTP status,
-- the retry flag, `DomainError`.
--
-- Task (bible/features/async_task): Task.Repository is `AsyncTaskRepository` of repository.py, one
-- function per method, with the readings of the clock as arguments; the lock makes each call one step, and a
-- sequence of calls is `Task.Repository.Runs.run`. Task.Redis is `RedisAsyncTaskRepository` of
-- redis_repository.py over a `Backend`: the client, `json` and the time format, with the laws of
-- their documentation (a value that was set is read back, decoding undoes encoding). An expired key
-- is a state in which the client finds nothing. `update_status` stands there as a whole and as the two
-- phases between which another client may act. Task.Service is `AsyncTaskService` of service.py over
-- the repository and the messages sent to a broker that may refuse them. Task.Dispatch is
-- `AsyncTaskDispatcher` of dispatcher.py and the Celery task of tasks/dispatch_task.py; the outcome
-- of a handler is an argument, one constructor for each except clause.
--
-- Search (bible/features/search): Search.Profile and Search.Compiler are `QueryProfileCompiler` of
-- common/query_profile_compiler.py: the first takes the part of a search type out of a profile and
-- checks it, the second makes the query. Search.Hits is common/hit_mapper.py and the mapper of the
-- knowledge-base searcher. Search.Searcher is the request that the searchers of
-- knowledge_base_search and memory_search make, with the embedding tool and the database as
-- parameters, and Search.Service the services, with a `Domain` for what differs: Search.Service.Domains
-- has those of knowledge bases, memories and skills. Search.Skill is search_skill.py of
-- skill_search/searcher: the SKILL form of a profile, its adaptation to the form of the compiler, and
-- the request. Search.Http is errors.py, the HTTP answer to a failed search, and Search.Api the three
-- endpoints of bible/api/search: their checks, the service and the answer; a weight is a float after
-- pydantic has read it, and its bounds are tests on its bits, which
-- NaN is taken not to pass.
--
-- Upload (bible/features/upload): an import goes from the preflight (Upload.Preflight,
-- preflight/validators.py) through the queue to `UploadTaskExecutor` (Upload.Executor,
-- upload_task_executor.py) and its service (Upload.Service, memory_upload_service.py and
-- skill_upload_service.py). The service chooses a parser script, has it checked (Upload.Guard,
-- parser_runtime/ast_guard.py), runs it in a process (Upload.Sandbox, parser_runtime/sandbox_runner.py),
-- checks its result (Upload.Service.Stage) and stores it (Upload.Store with Upload.Files, Upload.Plan,
-- Upload.Vector and Upload.Binding: store_memory.py and store_skill.py). Upload.Memory and
-- Upload.Skill are the parsers that run in that process: memory_parser and skill_parser. A step of an
-- import is an `Upload.Trace`: its result, or what it raised, and the calls that it made on files,
-- database and process, in their order. What these answer is a parameter (`Upload.World`, `Host`):
-- functions of the call, so that an answer does not depend on earlier calls. It is assumed that the
-- chunks of a parser's result and the uploaded files are dictionaries, and that references, names and
-- paths of plans and manifests are texts. Upload.Sweep is the removal of old workspaces of
-- store_memory.py and workspace_sweeper.py, in whole seconds.
--
-- Database (bible/infrastructure/database): Database.Lookup, .Binding, .Tasks, .Bulk (with .Chunked),
-- .Vector and .Content are the methods of opensearch/writer.py, and of elasticsearch/writer.py where it
-- has the same; what differs takes the `Engine`. Database.Dsl is how each prepares a search body. An
-- operation is a `Database.Step`: from the state of the database to a result, or an exception, and the
-- state that is left. The client is the record `Database.Client.Client`, with laws for the documented
-- behaviour of the calls that the writers make: a document that is got is there, a creation needs that
-- there is none, a script makes its assignments on a document that is there, and an action of a bulk
-- write succeeds or is among its errors; where the engine is reachable, a document that is there is got
-- and a script on it runs. A Painless script stands as the assignments of its text, whose
-- keys are taken to be identifiers. Database.Memory is a client with these laws. Database.Postgres is
-- postgres/writer.py over a pool that runs statements, each the SQL of the source with its arguments.
-- Logging is left out, and so are the refresh policy and the timeout of a call. The imports of Upload
-- see a writer through `Upload.World`.
--
-- FileSystem (bible/infrastructure/file_system): FileSystem.Segment has the names and paths of _utils.py
-- and FileSystem.Hash its reading loop; FileSystem.Object is minio.py and s3.py, over the client of an
-- object store, `ObjectClient`, with the documented behaviour of its calls where the service is reachable.
-- The digests of hashlib are a parameter too. The day in a path is an argument, and a read of the
-- uploaded stream does not raise. The imports of Upload see a gateway through `Upload.World`.
--
-- Python's integers are unbounded, and so are the model's. Two definitions run on fuel: the windows of
-- `Database.Chunked`, with a round for each document, which is enough since each takes one at least, and
-- the chunks of `FileSystem.Hash`, with a round for each byte and one for the end; the others recur on a
-- list, a text, a tree or a value. Exceptions are values of the `Exception` types.
-- Texts of messages stand as constructors with the parts that vary where the source formats them.
--
-- Not modelled: the staging of uploaded bytes, the thread that sweeps workspaces, the routes of the uploads and
-- of the control API, the local gateway for files, the clients for embedding, the factory of the database writers,
-- configuration, logging, the worker's start-up, the test mode, and the clients in Go and TypeScript.
-- `list_by_type` of the Redis repository, which scans keys, is left out too.
pub mod Base
pub mod Errors
pub mod Task
pub mod Search
pub mod Upload
pub mod Database
pub mod FileSystem
