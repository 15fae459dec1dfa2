-- ===== src/Wiring/Tests.antt =====
-- On app/core/dependencies.py: a container over a world in which nothing happens.
use ochestrate.Base.{◌≡◌, refl, true, none, some, [], ◌∷◌, ℕ, All, text_beq}
use ochestrate.Text.{text_eq, codes, strip}
use ochestrate.Tools.Hub.{ok, ToolHub}
use ochestrate.Tools.Policy.Tests.{nothing, disk}
use ochestrate.Agents.Planner.{plan}
use ochestrate.Orchestration.Tests.{database, strict, deletion}
use ochestrate.Wiring.{
  Settings, redis_queue, client_or_fall_back, is_redis_reachable, is_prod_env, build_mysql_engine,
  build_queue_backend, Toolbox,
}
use ochestrate.Models.{ModelRouter, built_in_clients}
use ochestrate.Models.Loading.{routing_keys, from_file}
use ochestrate.Wiring.Config.{AppSettings, default_settings}
use ochestrate.Wiring.Container.{Surroundings, Container, container_of, construct}
use ochestrate.Wiring.Startup.{StandsOn, construct-StandsOn}
use ochestrate.Wiring.Registered.{IsRunnable}

abbrev toolbox : Toolbox ℕ
toolbox = record {
  files = disk;
  file_policy = record { allowed_directories = []; max_file_size_mb = 10 };
  network = record {
    lower = λ t. t;
    urlparse = λ t. nothing;
    ip_address = λ t. none;
    getaddrinfo = λ t w. nothing;
  };
  library = record {
    get = λ url w. (nothing, w);
    get_following = λ url w. (nothing, w);
    text = λ resp w. (nothing, w);
    set_content = λ text resp. nothing;
    urljoin = λ current location. nothing;
    int = λ t. none;
    show_value = λ v. [];
    html_title = λ t. none;
    html_text = λ t. t;
  };
  page = record { select_results = λ t. []; quote_plus = λ t. t; unquote = λ t. t };
  web_policy = record {
    allowed_domains = [];
    allowed_schemes = none;
    block_private_networks = true;
    max_fetch_chars = 8000;
    max_redirects = 3;
    search_provider = codes "duckduckgo";
    search_result_limit = 5;
  };
  database = database;
  database_policy = strict;
}

abbrev bare : ToolHub ℕ
bare = record { registry = []; cache = []; metrics = []; audit = []; world = 0 }

abbrev settings : Settings
settings = record {
  env = some (codes "prod");
  task_queue_backend = some (codes "redis");
  redis_host = some (codes "localhost");
  redis_port = none;
}

in_production : is_prod_env (λ t. t) settings ≡ true
unfolding is_prod_env text_beq strip
in_production = refl

abbrev surroundings : Surroundings ℕ ℕ
surroundings = record {
  lower = λ t. t;
  host_and_port = λ url. (some (codes "localhost"), none);
  connect_mysql = λ dsn. ok 7;
  connects = λ host port. true;
  redis_client = λ url name. ok tt;
  files = disk;
  network = toolbox.network;
  library = toolbox.library;
  page = toolbox.page;
  database = λ dsn. database;
  read_policy = λ path w. none;
  read_routing = λ path w.
      routing_keys
        (record { rules = none; default_provider = none; providers = none; fallback_order = none });
}

abbrev production : AppSettings
production = record (default_settings (codes "/root")) { env = codes "prod" }

abbrev router : ModelRouter
router = record {
  default_provider = codes "cloud";
  provider_configs = [];
  rules = [];
  fallback_order = codes "cloud" ∷ [];
  clients = built_in_clients;
}

abbrev started : Container ℕ ℕ
started = container_of surroundings production 0 (some 7) router redis_queue

construct-StandsOn_example :
    ((engine : ℕ) × (ok 7 ≡ ok engine) × StandsOn engine started)
    × (started.queue_backend ≡ redis_queue)
    × All (IsRunnable started.orchestrator.hub) (plan (λ t. t) (deletion true))
unfolding text_beq strip is_prod_env build_mysql_engine build_queue_backend client_or_fall_back
    is_redis_reachable construct default_settings from_file
construct-StandsOn_example =
    construct-StandsOn surroundings production 0 started (deletion true) refl refl refl
