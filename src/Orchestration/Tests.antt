-- ===== src/Orchestration/Tests.antt =====
-- On app/orchestration/service.py: a service with a database, and a request to delete from it.
use ochestrate.Base.{
  ℕ, suc, ◌≡◌, refl, ap, Bool, true, false, Option, none, some, [], ◌∷◌, text_beq,
}
use ochestrate.Text.{Text, text_eq, codes, strip}
use ochestrate.Dict.{lookup}
use ochestrate.Schemas.{Value, end, UnifiedRequest, ToolPayload, low, qa, auto, Action, failed}
use ochestrate.Models.{built_in_clients}
use ochestrate.Tools.Hub.{ok}
use ochestrate.Tools.Database
use ochestrate.Tools.Database.{DatabasePolicy, database_tool, is_write_sql, keyword}
use ochestrate.Orchestration.Data.{Runtime, Orchestrator, State}
use ochestrate.Orchestration.{run}
use ochestrate.Orchestration.StateGraph.{LangGraph, Follows, walk}
use ochestrate.Orchestration.Agreement.{run-graph}
use ochestrate.Orchestration.Refusals.{Unconfirmed, run-Unconfirmed}

abbrev pub runtime : Runtime
runtime = record {
  lower = λ t. t;
  show_roles = λ roles. [];
  executor = record { show_value = λ v. []; show_params = λ p. []; sha1 = λ t. t };
  template = none;
}

abbrev pub uuid : ℕ → Text
uuid n = n ∷ []

abbrev pub database : Database.Runtime ℕ
database = record {
  show_value = λ v. [];
  lower = λ t. t;
  query = λ sql w. (ok [], w);
  execute = λ sql w. (ok [], suc w);
}

abbrev pub strict : DatabasePolicy
strict = record {
  db_write_protection_enabled = true;
  db_confirm_field = codes "confirm_write";
  db_require_tenant_scope = true;
}

abbrev pub service : Orchestrator ℕ
service = record {
  hub = record {
    registry = (codes "database_tool", database_tool database strict) ∷ [];
    cache = [];
    metrics = [];
    audit = [];
    world = 0;
  };
  memory = record {
    short = record { max_turns = 2; sessions = [] };
    long = record { default_ttl_days = 30; records = [] };
  };
  store = [];
  router = record {
    default_provider = codes "cloud";
    provider_configs = [];
    rules = [];
    fallback_order = [];
    clients = built_in_clients;
  };
  context = record { max_tokens = 3 };
  prompt_tokens = 3;
  max_skill_items = 5;
}

abbrev pub payload : ToolPayload
payload = record {
  operation = codes "execute";
  resource_type = codes "sql";
  resource_path = none;
  url = none;
  sql = some (codes "DELETE FROM t");
  options = end;
  content = Value.null;
}

-- a deletion that nobody confirms, executed at once or not
abbrev pub deletion : Bool → UnifiedRequest
deletion auto_execute = record {
  tenant_id = some (codes "acme");
  user_id = some (codes "ann");
  session_id = codes "s1";
  task_type = qa;
  input = codes "clean up";
  context_refs = [];
  policy = record {
    sensitivity = low;
    max_cost_usd = 100;
    auto_execute = auto_execute;
    require_human_review = false;
    timeout_seconds = 60;
    confirm_write = false;
  };
  metadata = [];
  tool_payload = some payload;
  tool_overrides = [];
  skill_context_mode = auto;
}

-- a LangGraph that walks the graph, and stays where it is when the walk does not end
abbrev or_self {ℓ} : {S : Type ℓ} → S → Option S → S
or_self s none = s
or_self s (some s') = s'

abbrev walking : LangGraph (State × Orchestrator ℕ)
walking = record {
  end_symbol = codes "__end__";
  invoke = λ g s. or_self s (walk (codes "__end__") g 25 g.entry s);
}

walking-Follows : Follows walking
walking-Follows g s s' e = ap (or_self s) e

run-graph_example :
    run runtime uuid 7 [] (some walking) (deletion true) service
    ≡ run runtime uuid 7 [] none (deletion true) service
run-graph_example = run-graph runtime uuid 7 [] walking (deletion true) service walking-Follows refl

unconfirmed :
    Unconfirmed runtime uuid 7 []
      (deletion true)
      service
      database
      strict
      payload
      (codes "DELETE FROM t")
unfolding lookup text_beq is_write_sql keyword strip
unconfirmed = record {
  asked = refl;
  for_sql = refl;
  with_sql = refl;
  writes = refl;
  executes = refl;
  not_by_policy = refl;
  not_by_override = refl;
  registered = refl;
  protected = refl;
  by_field = refl;
}

run-Unconfirmed_example :
    let (response, o') = run runtime uuid 7 [] none (deletion true) service in
    (action : Action) × (response.actions ≡ action ∷ [])
    × (action.status ≡ failed)
    × (o'.hub.world ≡ 0)
run-Unconfirmed_example =
    run-Unconfirmed runtime uuid 7 [] (deletion true) service database strict payload
      (codes "DELETE FROM t") unconfirmed
