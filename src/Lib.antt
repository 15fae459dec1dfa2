-- ===== src/Lib.antt =====
-- ochestrate: an agent platform. A request is planned into steps (app/agents), whose tools run behind
-- a hub (app/tools), with memory (app/memory) and a token budget (app/context) around it; long
-- requests are tasks of a worker (app/workers), and users hold tokens of the service in app/auth.
-- The network, files, Redis and the tables of SQLAlchemy are parameters; the repositories are modelled
-- in memory mode and over those tables.
--
-- Base, Text, Dict: native numbers, lists, Python's `str` as a list of code points, and `dict` as an
--   association list in insertion order.
-- Schemas: app/schemas/api.py. `Any` is the data type `Value`; floats are counted in hundredths.
-- Context: app/context. The budget of tokens, truncation and summaries.
-- Prompts: app/prompts/assembly.py. The prompt and its budget.
-- Memory: app/memory. A session's `deque` is a list that drops from the left; times are seconds.
-- Rag: app/rag over app/storage/repositories/knowledge_repo.py. Chunks of a text, and the search of
--   them in memory and in the database.
-- Models: app/models. The choice of a provider, and the fallback.
-- Tasks: app/workers/task_worker.py over app/storage/repositories/task_repo.py. A turn of
--   `_worker_loop` is `work_begin` up to the call of the orchestrator and `work_finish` after it,
--   since other coroutines run between them; Tasks.Reachable has the interleavings as a relation.
--   Tasks.Database is the repository's database mode, Tasks.Queue is app/workers/queue_backend.py, and
--   Tasks.Audit is app/observability/audit.py over that repository.
-- Auth: app/auth/service.py over app/storage/repositories/auth_repo.py. PyJWT, hashlib, the clock and
--   `uuid4` are the fields of `Library` and arguments. Auth.Database is the database mode.
-- Tools: app/tools. The hub with its metrics and audit events, the security policy, and the tools for
--   the database, the web, files and the office. Tools act on a world `W`; a raised exception is a
--   value of `ToolError`. What a name resolves to, and what a path is, is read from the world.
--   Tools.Policy is the loading of the security policy.
-- Agents: app/agents/planner.py, executor.py and reviewer.py, the executor over the tool hub.
-- Skills: app/skills. The directory of the skill center is a dict of file names.
-- Learning: app/learning over app/storage/repositories/feedback_repo.py.
-- Orchestration: app/orchestration/service.py, the run of a request through the agents, with
--   LangGraph or without. Orchestration.StateGraph says what is relied on of LangGraph.
-- Storage: app/storage. Storage.Table is what a table of the database does for a session of
--   SQLAlchemy, with its laws, and Storage.Lists a table that has them. The laws speak
--   of rows whose texts have room in their columns, as `fits_user`, `fits_token`, `fits_task`,
--   `fits_event`, `fits_feedback` and `fits_chunk` say, and of a database that compares texts
--   exactly. Storage.Schema is app/storage/models.py with alembic/versions.
-- Wiring: app/core/config.py and app/core/dependencies.py, the settings, the construction of the
--   container, the services that it chooses and its tools.
-- Api: app/api/v1 with app/middleware/auth_context.py and app/auth/deps.py; the handlers of tasks,
--   users, skills, the agent, feedback, knowledge and the webhook stand behind `require_auth_context`.
--
-- Functions of the interpreter that are not written out (`str.lower`, the text of a value, `int` of a
-- text, SHA-1, MD5, PBKDF2) are parameters. Recursion is structural but for `slices` of Rag, whose
-- bound is the length of the text, which is enough, and `safe_get` of Tools.Web, whose bound is that
-- of the source, `max_redirects + 1` requests. The files named Tests apply each theorem to concrete
-- inputs.
--
-- Not modelled: how YAML files and the environment are parsed, secondary indexes and defaults of the
-- columns, collations that ignore letter case, the clients of MySQL and Milvus, which only call their libraries, and the set-up of
-- FastAPI and of logging.
pub mod Base
pub mod Text
pub mod Dict
pub mod Schemas
pub mod Context
pub mod Prompts
pub mod Memory
pub mod Rag
pub mod Models
pub mod Tasks
pub mod Auth
pub mod Tools
pub mod Agents
pub mod Skills
pub mod Learning
pub mod Orchestration
pub mod Storage
pub mod Wiring
pub mod Api
