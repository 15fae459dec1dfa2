-- ===== src/Wiring/Container.antt =====
-- `ServiceContainer.__init__` of app/core/dependencies.py: the objects of the application and what each
-- is built with. A repository is given by the engine that its sessions use, or by none in memory
-- mode; objects without a state of their own are the functions of the other modules. The knowledge
-- store of the orchestrator is the one without a repository, which answers as one over it in memory.
use ochestrate.Base.{ℕ, Bool, Option, some, []}
use ochestrate.Text.{Text}
use ochestrate.Tools.Hub.{Result, ok, ToolHub}
use ochestrate.Tools.Raising.{◌>>=◌}
use ochestrate.Tools.Database
use ochestrate.Tools.Security.{Network}
use ochestrate.Tools.Web
use ochestrate.Tools.Web.Search.{Page}
use ochestrate.Tools.Files.Disk.{FileSystem}
use ochestrate.Tools.Policy.{PolicyFile, ToolSecurityConfig}
use ochestrate.Tools.Policy
use ochestrate.Auth.Service.Data
use ochestrate.Models.{ModelRouter}
use ochestrate.Models.Loading.{RoutingSource}
use ochestrate.Models.Loading
use ochestrate.Orchestration.Data.{Orchestrator}
use ochestrate.Wiring.Config.{AppSettings}
use ochestrate.Wiring.{
  Settings, QueueBackend, build_mysql_engine, build_queue_backend, Toolbox, register_tools,
}

-- what the libraries and the surroundings give to the construction
pub record Surroundings (W E : Type 0) : Type 0 where
  pub lower : Text → Text
  -- host and port of `urlparse`
  pub host_and_port : Text → Option Text × Option ℕ
  -- the engine of the data source name once its probe has succeeded, and the connection of a socket
  pub connect_mysql : Text → Result E
  pub connects : Text → ℕ → Bool
  -- the client of a URL and a queue name
  pub redis_client : Text → Text → Result (Unit {0})
  pub files : FileSystem W
  pub network : Network W
  pub library : Web.Library W
  pub page : Page
  pub database : Text → Database.Runtime W
  pub read_policy : Text → W → Option PolicyFile
  pub read_routing : Text → W → RoutingSource

-- `ServiceContainer`
pub record Container (W E : Type 0) : Type 0 where
  pub mysql_engine : Option E
  pub task_repository : Option E
  pub audit_sink : Option E
  pub auth_repository : Option E
  pub feedback_repository : Option E
  pub knowledge_repository : Option E
  pub auth_service : Data.Settings
  pub jwt_secret : Text
  pub jwt_algorithm : Text
  pub tool_security : ToolSecurityConfig
  pub orchestrator : Orchestrator W
  pub queue_backend : QueueBackend
  pub poll_interval_seconds : ℕ

-- the fields that the choice of the services reads
abbrev pub choices : (Text → Option Text × Option ℕ) → AppSettings → Settings
choices host_and_port settings = record {
  env = some settings.env;
  task_queue_backend = some settings.task_queue_backend;
  redis_host = (host_and_port settings.redis_url).0;
  redis_port = (host_and_port settings.redis_url).1;
}

module _ {W E : Type 0} (s : Surroundings W E) (settings : AppSettings) (w : W) where
  -- `self.tool_security`
  unfoldable pub security : ToolSecurityConfig
  security = Policy.from_file s.files (s.read_policy settings.tool_security_path w) w

  -- what `_register_tools` builds its tools with
  abbrev pub toolbox : ToolSecurityConfig → Toolbox W
  toolbox policy = record {
    files = s.files;
    file_policy = policy.files;
    network = s.network;
    library = s.library;
    page = s.page;
    web_policy = policy.web;
    database = s.database settings.mysql_dsn;
    database_policy = policy.database;
  }

  -- `ToolHub(metrics=..., audit=...)` before the tools are registered
  abbrev pub bare_hub : ToolHub W
  bare_hub = record { registry = []; cache = []; metrics = []; audit = []; world = w }

  -- `OrchestratorService(...)` with the services that are its own
  unfoldable pub build_orchestrator : ModelRouter → Orchestrator W
  unfolding security
  build_orchestrator router = record {
    hub = register_tools (toolbox security) bare_hub;
    memory = record {
      short = record { max_turns = settings.short_memory_turns; sessions = [] };
      long = record { default_ttl_days = settings.long_memory_default_ttl_days; records = [] };
    };
    store = [];
    router = router;
    context = record { max_tokens = settings.max_context_tokens };
    prompt_tokens = settings.max_context_tokens;
    max_skill_items = settings.prompt_skill_max_items;
  }

  -- the container, once everything that may raise has been built
  unfoldable pub container_of : Option E → ModelRouter → QueueBackend → Container W E
  unfolding build_orchestrator security
  container_of engine router queue_backend = record {
    mysql_engine = engine;
    task_repository = engine;
    audit_sink = engine;
    auth_repository = engine;
    feedback_repository = engine;
    knowledge_repository = engine;
    auth_service = record {
      access_ttl = settings.access_token_ttl_minutes;
      refresh_ttl = settings.refresh_token_ttl_days;
    };
    jwt_secret = settings.jwt_secret;
    jwt_algorithm = settings.jwt_algorithm;
    tool_security = security;
    orchestrator = build_orchestrator router;
    queue_backend = queue_backend;
    poll_interval_seconds = settings.worker_poll_interval_seconds;
  }

  -- `ServiceContainer.__init__`: MySQL first, then the routing file, and the queue at the end
  unfoldable pub construct : Result (Container W E)
  unfolding container_of
  construct =
      build_mysql_engine s.lower (choices s.host_and_port settings)
        (s.connect_mysql settings.mysql_dsn)
      >>= λ engine. Loading.from_file (s.read_routing settings.model_routing_path w) >>= λ router.
          build_queue_backend s.lower (choices s.host_and_port settings) s.connects
            (s.redis_client settings.redis_url settings.redis_queue_name)
          >>= λ queue_backend. ok (container_of engine router queue_backend)
