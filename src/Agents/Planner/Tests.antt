-- ===== src/Agents/Planner/Tests.antt =====
-- On app/agents/planner.py: a request for SQL.
use ochestrate.Base.{none, some, [], true, false}
use ochestrate.Text.{codes}
use ochestrate.Schemas.{Value, end, UnifiedRequest, low, qa, auto}

abbrev request : UnifiedRequest
request = record {
  tenant_id = none;
  user_id = none;
  session_id = codes "s1";
  task_type = qa;
  input = codes "hello";
  context_refs = [];
  policy = record {
    sensitivity = low;
    max_cost_usd = 100;
    auto_execute = true;
    require_human_review = false;
    timeout_seconds = 60;
    confirm_write = false;
  };
  metadata = [];
  tool_payload = some (record {
    operation = codes "execute";
    resource_type = codes "sql";
    resource_path = none;
    url = none;
    sql = some (codes "DELETE FROM t");
    options = end;
    content = Value.null;
  });
  tool_overrides = [];
  skill_context_mode = auto;
}
