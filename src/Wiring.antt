-- ===== src/Wiring.antt =====
-- app/core/dependencies.py: which services the container builds, and the tools that it registers.
-- SQLAlchemy's engine, the probe of a socket and the client of Redis are parameters.
pub mod Config
pub mod Registered
pub mod Container
pub mod Startup
mod Tests
use ochestrate.Base.{
  ℕ, Bool, true, false, Option, none, some, List, [], ◌∷◌, ◌==◌, ◌||◌, any, if◌then◌else◌,
}
use ochestrate.Text.{Text, text_eq, codes, is_empty, strip}
use ochestrate.Tools.Hub.{Result, ok, raised, failure, ToolError, ToolHub, register}
use ochestrate.Tools.Database
use ochestrate.Tools.Database.{DatabasePolicy, database_tool}
use ochestrate.Tools.Security.{Network, WebPolicy}
use ochestrate.Tools.Web
use ochestrate.Tools.Web.{web_fetch_tool}
use ochestrate.Tools.Web.Search.{Page, web_search_tool}
use ochestrate.Tools.Files.Disk.{FileSystem}
use ochestrate.Tools.Files.{FilePolicy, file_tool}
use ochestrate.Tools.Office.{send_email_tool, create_calendar_event_tool}

-- the fields of `Settings` that the choices read; the host and the port are those that `urlparse`
-- finds in `redis_url`
pub record Settings : Type 0 where
  pub env : Option Text
  pub task_queue_backend : Option Text
  pub redis_host : Option Text
  pub redis_port : Option ℕ

pub data QueueBackend : Type 0 where
  in_memory_queue redis_queue : QueueBackend

-- `value or default`
abbrev pub or_default : Text → Option Text → Text
or_default default none = default
or_default default (some []) = default
or_default default (some (c ∷ cs)) = c ∷ cs

-- `parsed.port or 6379`
abbrev pub port_or_default : Option ℕ → ℕ
port_or_default none = 6379
port_or_default (some ℕ.zero) = 6379
port_or_default (some (ℕ.suc n)) = ℕ.suc n

module _ (lower : Text → Text) (settings : Settings) where
  -- `ServiceContainer._is_prod_env`
  unfoldable pub is_prod_env : Bool
  is_prod_env =
      let env = lower (strip (or_default [] settings.env)) in
      (codes "prod" == env) || (codes "production" == env)

  -- `ServiceContainer._build_mysql_engine`, by how the connection and its probe went
  unfoldable pub build_mysql_engine {ℓ} : {E : Type ℓ} → Result E → Result (Option E)
  build_mysql_engine (ok engine) = ok (some engine)
  build_mysql_engine (raised e) =
      if is_prod_env then raised (failure (codes "mysql unavailable in prod")) else ok none

  -- `ServiceContainer._is_redis_reachable`
  unfoldable pub is_redis_reachable : (Text → ℕ → Bool) → Bool
  is_redis_reachable connects = elim settings.redis_host [
    | none ↦ false
    | some host ↦
        if is_empty host then false else connects host (port_or_default settings.redis_port)
  ]

  unfoldable pub client_or_fall_back : Result (Unit {0}) → Result QueueBackend
  client_or_fall_back (ok done) = ok redis_queue
  client_or_fall_back (raised e) =
      if is_prod_env
      then raised (failure (codes "redis backend init failed in prod"))
      else ok in_memory_queue

  -- `ServiceContainer._build_queue_backend`
  unfoldable pub build_queue_backend : (Text → ℕ → Bool) → Result (Unit {0}) → Result QueueBackend
  unfolding client_or_fall_back
  build_queue_backend connects client =
      if lower (strip (or_default (codes "memory") settings.task_queue_backend)) == codes "redis"
      then (if is_redis_reachable connects
          then client_or_fall_back client
          else if is_prod_env
          then raised (failure (codes "redis backend required in prod but redis is unreachable"))
          else ok in_memory_queue)
      else ok in_memory_queue

-- what the tools of a container work with
pub record Toolbox (W : Type 0) : Type 0 where
  pub files : FileSystem W
  pub file_policy : FilePolicy
  pub network : Network W
  pub library : Web.Library W
  pub page : Page
  pub web_policy : WebPolicy
  pub database : Database.Runtime W
  pub database_policy : DatabasePolicy

-- `ServiceContainer._register_tools`
unfoldable pub register_tools : {W : Type 0} → Toolbox W → ToolHub W → ToolHub W
register_tools t h = register (database_tool t.database t.database_policy) (
    register (web_search_tool t.network t.library t.page t.web_policy) (
      register (web_fetch_tool t.network t.library t.web_policy) (
        register (file_tool t.files t.file_policy)
          (register create_calendar_event_tool (register send_email_tool h)))))
