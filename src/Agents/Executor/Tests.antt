-- ===== src/Agents/Executor/Tests.antt =====
-- On app/agents/executor.py: a hub with a database, and a plan that deletes from it.
use ochestrate.Base.{ℕ, suc, true, false, List, [], ◌∷◌}
use ochestrate.Text.{Text, text_eq, codes}
use ochestrate.Schemas.{Value, Params, ExecutionPolicy, low}
use ochestrate.Tools.Hub.{ToolHub, ok}
use ochestrate.Tools.Database.{DatabasePolicy, database_tool, is_write_sql, keyword}
use ochestrate.Tools.Database
use ochestrate.Agents.Planner.{Step, validate_permissions, tool}
use ochestrate.Agents.Executor.{Runtime, Caller}

abbrev runtime : Runtime
runtime = record { show_value = λ v. []; show_params = λ p. []; sha1 = λ t. t }

abbrev caller : Caller
caller = record {
  user_role = Value.str (codes "employee");
  trace_id = codes "t";
  tenant_id = codes "acme";
  user_id = codes "ann";
}

abbrev cautious : ExecutionPolicy
cautious = record {
  sensitivity = low;
  max_cost_usd = 100;
  auto_execute = true;
  require_human_review = false;
  timeout_seconds = 60;
  confirm_write = false;
}

abbrev database : Database.Runtime ℕ
database = record {
  show_value = λ v. [];
  lower = λ t. t;
  query = λ sql w. (ok [], w);
  execute = λ sql w. (ok [], suc w);
}

abbrev strict : DatabasePolicy
strict = record {
  db_write_protection_enabled = true;
  db_confirm_field = codes "confirm_write";
  db_require_tenant_scope = true;
}

abbrev hub : ToolHub ℕ
hub = record {
  registry = (codes "database_tool", database_tool database strict) ∷ [];
  cache = [];
  metrics = [];
  audit = [];
  world = 0;
}

abbrev deletion : Params
deletion =
    (codes "operation", Value.str (codes "execute"))
    ∷ (codes "sql", Value.str (codes "DELETE FROM t"))
    ∷ []

abbrev steps : List (Text × Step)
steps =
    (codes "e1", validate_permissions) ∷ (codes "e2", tool (codes "database_tool") deletion) ∷ []
