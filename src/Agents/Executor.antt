-- ===== src/Agents/Executor.antt =====
-- app/agents/executor.py. The text of a value, the text of a dict of parameters and SHA-1 are the
-- interpreter's and hashlib's, hence parameters. A step comes with the identifier that its audit
-- event gets from `uuid4`.
pub mod Refusals
mod Tests
use ochestrate.Base.{
  ℕ, Bool, true, false, Option, none, some, List, [], ◌∷◌, ◌++◌, ◌==◌, if◌then◌else◌,
}
use ochestrate.Text.{Text, text_eq, codes}
use ochestrate.Dict.{Dict, lookup, set_default, update}
use ochestrate.Schemas.{
  Value, Params, ExecutionPolicy, Action, ActionStatus, success, skipped, failed,
}
use ochestrate.Tools.Hub.{
  ToolHub, ToolCall, ToolInvokeResult, Result, ok, raised, ToolError, permission, failure, invoke,
}
use ochestrate.Agents.Planner.{Step, validate_permissions, respond, tool}

pub record Runtime : Type 0 where
  pub show_value : Value → Text
  pub show_params : Params → Text
  pub sha1 : Text → Text

-- who asks, and for which request
pub record Caller : Type 0 where
  pub user_role : Value
  pub trace_id : Text
  pub tenant_id : Text
  pub user_id : Text

unfoldable pub success_action : Text → ToolInvokeResult → Action
success_action tool_name result = record {
  tool_name = tool_name;
  status = success;
  output = result.output;
  error_code = none;
  audit_ref = some result.audit_ref;
  policy_applied = result.policy_applied;
}

unfoldable pub failed_action : Text → ToolError → Action
failed_action tool_name (permission message) = record {
  tool_name = tool_name;
  status = failed;
  output = (codes "error", Value.str message) ∷ [];
  error_code = some (codes "POLICY_DENIED");
  audit_ref = none;
  policy_applied = (codes "permission", Value.str (codes "denied")) ∷ [];
}
failed_action tool_name (failure message) = record {
  tool_name = tool_name;
  status = failed;
  output = (codes "error", Value.str message) ∷ [];
  error_code = some (codes "TOOL_EXECUTION_ERROR");
  audit_ref = none;
  policy_applied = [];
}

abbrev pub policy_gate : Action
policy_gate = record {
  tool_name = codes "policy_gate";
  status = skipped;
  output = (codes "reason", Value.str (codes "auto_execute_disabled")) ∷ [];
  error_code = none;
  audit_ref = none;
  policy_applied = (codes "auto_execute", Value.bool false) ∷ [];
}

abbrev pub or_empty : Option Params → Params
or_empty none = []
or_empty (some params) = params

unfoldable pub action_of : Text → Result ToolInvokeResult → Action
unfolding success_action failed_action
action_of tool_name (ok result) = success_action tool_name result
action_of tool_name (raised e) = failed_action tool_name e

module _ (rt : Runtime) where
  abbrev pub confirm_key : Option Value → Text
  confirm_key none = codes "confirm_write"
  confirm_key (some (Value.str t)) = t
  confirm_key (some v) = rt.show_value v

  -- the parameters of the step, with those of the request over them, and for the database the
  -- policy's confirmation unless one is given
  unfoldable pub prepared : ExecutionPolicy → Dict Text Params → Text → Params → Params
  prepared policy tool_overrides tool_name step_params =
      let params = update step_params (or_empty (lookup tool_name tool_overrides)) in
      if tool_name == codes "database_tool"
      then set_default (confirm_key (lookup (codes "confirm_field") params))
          (Value.bool policy.confirm_write) params
      else params

  abbrev pub raw_key : Text → Text → Params → Text
  raw_key trace_id tool_name params =
      trace_id ++ (codes ":" ++ (tool_name ++ (codes ":" ++ rt.show_params params)))

  abbrev pub tool_call : Caller → Text → Params → ToolCall
  tool_call caller tool_name params = record {
    tool_name = tool_name;
    user_role = caller.user_role;
    idempotency_key = rt.sha1 (raw_key caller.trace_id tool_name params);
    trace_id = caller.trace_id;
    tenant_id = caller.tenant_id;
    user_id = caller.user_id;
    params = params;
  }

  module _ {W : Type 0} (caller : Caller) (policy : ExecutionPolicy)
      (tool_overrides : Dict Text Params) where
    -- one round of the loop for a step that names a tool
    unfoldable pub call_tool : Text → Text → Params → ToolHub W → Action × ToolHub W
    unfolding prepared action_of
    call_tool event_id tool_name step_params h =
        let (outcome, h') =
          invoke event_id
            (tool_call caller tool_name (prepared policy tool_overrides tool_name step_params)) h in
        (action_of tool_name outcome, h')

    unfoldable pub run_steps : List (Text × Step) → ToolHub W → List Action × ToolHub W
    unfolding call_tool
    run_steps [] h = ([], h)
    run_steps ((event_id, validate_permissions) ∷ steps) h = run_steps steps h
    run_steps ((event_id, respond instruction) ∷ steps) h = run_steps steps h
    run_steps ((event_id, tool tool_name params) ∷ steps) h =
        let (action, h') = call_tool event_id tool_name params h in
        let (actions, h'') = run_steps steps h' in (action ∷ actions, h'')

    -- `ExecutorAgent.execute`
    unfoldable pub execute : List (Text × Step) → ToolHub W → List Action × ToolHub W
    unfolding run_steps
    execute steps h = if policy.auto_execute then run_steps steps h else (policy_gate ∷ [], h)
