-- ===== src/Agents/Executor/Refusals.antt =====
-- On app/agents/executor.py: what an execution reports, and what it never does.
use ochestrate.Base.{
  ◌≡◌, refl, ap, ap₂, ◌∙◌, Bool, true, false, Option, none, some, List, [], ◌∷◌, map, ◌==◌,
  text_beq,
}
use ochestrate.Text.{Text, text_eq, codes, strip}
use ochestrate.Dict.{
  Dict, lookup, update, set_default, lookup-set_default_other, lookup-set_default_new,
}
use ochestrate.Schemas.{Value, Params, ExecutionPolicy, Action, failed}
use ochestrate.Tools.Hub.{
  Tool, ToolHub, ToolCall, ToolInvokeResult, Result, ok, raised, ToolError, permission, failure,
  invoke, invoke_found, check_role, run_uncached, record_run, cached_for, with_context, role_in,
}
use ochestrate.Tools.Database.{
  Runtime, DatabasePolicy, database_tool, run_sql, sql_of, is_write_sql,
}
use ochestrate.Tools.Values.{truthy_found, text_or_empty}
use ochestrate.Tools.Database.Guards.{run_sql-unconfirmed}
use ochestrate.Agents.Planner.{Step, validate_permissions, respond, tool}
use ochestrate.Agents.Executor

-- the tools that a plan names, in its order
unfoldable pub tools_of : List (Text × Step) → List Text
tools_of [] = []
tools_of ((event_id, validate_permissions) ∷ steps) = tools_of steps
tools_of ((event_id, respond instruction) ∷ steps) = tools_of steps
tools_of ((event_id, tool tool_name params) ∷ steps) = tool_name ∷ tools_of steps

abbrev pub named : Action → Text
named action = action.tool_name

action_of-tool_name :
    (t : Text) (r : Result ToolInvokeResult) → (Executor.action_of t r).tool_name ≡ t
unfolding Executor.action_of Executor.success_action Executor.failed_action
action_of-tool_name t (ok result) = refl
action_of-tool_name t (raised (permission m)) = refl
action_of-tool_name t (raised (failure m)) = refl

failed_status : (t : Text) (e : ToolError) → (Executor.failed_action t e).status ≡ failed
unfolding Executor.failed_action
failed_status t (permission m) = refl
failed_status t (failure m) = refl

-- An action that failed, beside a hub whose world is as it was.
pub record Refused {W : Type 0} (w : W) (r : Action × ToolHub W) : Type 0 where
  pub reported : r.0.status ≡ failed
  pub unchanged : r.1.world ≡ w

module _ {W : Type 0} (rt : Executor.Runtime) (caller : Executor.Caller) (policy : ExecutionPolicy)
    (tool_overrides : Dict Text Params) where
  run_steps-tools_of :
      (steps : List (Text × Step)) (h : ToolHub W)
      → map named (Executor.run_steps rt caller policy tool_overrides steps h).0 ≡ tools_of steps
  unfolding Executor.run_steps Executor.call_tool tools_of
  run_steps-tools_of [] h = refl
  run_steps-tools_of ((event_id, validate_permissions) ∷ steps) h = run_steps-tools_of steps h
  run_steps-tools_of ((event_id, respond instruction) ∷ steps) h = run_steps-tools_of steps h
  run_steps-tools_of ((event_id, tool tool_name params) ∷ steps) h =
      ap₂ (λ x xs. x ∷ xs) (action_of-tool_name tool_name _) (run_steps-tools_of steps _)

  -- With automatic execution on, an execution reports one action for each tool of the plan, in the
  -- plan's order, whatever the tools do.
  pub execute-tools_of :
      (steps : List (Text × Step)) (h : ToolHub W)
      → policy.auto_execute ≡ true
      → map named (Executor.execute rt caller policy tool_overrides steps h).0 ≡ tools_of steps
  unfolding Executor.execute
  execute-tools_of steps h on = rw (on) (run_steps-tools_of steps h)

  module _ (db : Runtime W) (guard : DatabasePolicy) (event_id : Text) (h : ToolHub W) where
    check_role-Refused :
        (call : ToolCall) (allowed : Bool)
        → (e : ToolError) × (run_sql db guard (with_context call) h.world ≡ (raised e, h.world))
        → Refused h.world (
          Executor.action_of
              (codes "database_tool")
              (check_role event_id (database_tool db guard) call allowed h).0,
          (check_role event_id (database_tool db guard) call allowed h).1,
        )
    unfolding check_role run_uncached record_run cached_for Executor.action_of
    check_role-Refused call false refusal = record {
      reported =
          failed_status (codes "database_tool") (permission (codes "role cannot invoke tool"));
      unchanged = refl;
    }
    check_role-Refused call true (e, refused) =
        rw (refused)
          (record { reported = failed_status (codes "database_tool") e; unchanged = refl })

    invoke-Refused :
        (call : ToolCall) (o : Option (Tool W))
        → o ≡ some (database_tool db guard)
        → (e : ToolError) × (run_sql db guard (with_context call) h.world ≡ (raised e, h.world))
        → Refused h.world (
          Executor.action_of (codes "database_tool") (invoke_found event_id call o h).0,
          (invoke_found event_id call o h).1,
        )
    unfolding invoke_found
    invoke-Refused call o found refusal =
        rw (found, invoke_found)
          (check_role-Refused call (role_in call.user_role (database_tool db guard).required_roles)
            refusal)

    -- the parameters of a step and the request's over them
    abbrev pub merged : Params → Params
    merged step_params =
        update step_params (Executor.or_empty (lookup (codes "database_tool") tool_overrides))

    prepared-merged :
        (step_params : Params)
        → lookup (codes "confirm_field") (merged step_params) ≡ none
        → Executor.prepared rt policy tool_overrides (codes "database_tool") step_params
          ≡ set_default
              (codes "confirm_write")
              (Value.bool policy.confirm_write)
              (merged step_params)
    unfolding Executor.prepared text_beq
    prepared-merged step_params no_field =
        ap
          (λ o.
            set_default (Executor.confirm_key rt o) (Value.bool policy.confirm_write)
              (merged step_params))
          no_field

    lookup-with_context :
        (key : Text) (call : ToolCall)
        → (codes "_tenant_id" == key) ≡ false
        → (codes "_user_id" == key) ≡ false
        → (codes "_user_role" == key) ≡ false
        → lookup key (with_context call) ≡ lookup key call.params
    unfolding with_context
    lookup-with_context key call t u r =
        lookup-set_default_other (codes "_user_role") key _ _ r
        ∙ lookup-set_default_other (codes "_user_id") key _ _ u
        ∙ lookup-set_default_other (codes "_tenant_id") key _ _ t

    abbrev pub call_of : Params → ToolCall
    call_of step_params =
        Executor.tool_call rt caller (codes "database_tool")
          (Executor.prepared rt policy tool_overrides (codes "database_tool") step_params)

    sql_kept :
        (step_params : Params)
        → lookup (codes "confirm_field") (merged step_params) ≡ none
        → lookup (codes "sql") (with_context (call_of step_params))
          ≡ lookup (codes "sql") (merged step_params)
    unfolding text_beq
    sql_kept step_params no_field =
        lookup-with_context (codes "sql") (call_of step_params) refl refl refl
        ∙ ap (lookup (codes "sql")) (prepared-merged step_params no_field)
        ∙ lookup-set_default_other (codes "confirm_write") (codes "sql")
            (Value.bool policy.confirm_write) (merged step_params) refl

    not_confirmed :
        (step_params : Params)
        → lookup (codes "confirm_field") (merged step_params) ≡ none
        → lookup (codes "confirm_write") (merged step_params) ≡ none
        → lookup (codes "confirm_write") (with_context (call_of step_params))
          ≡ some (Value.bool policy.confirm_write)
    unfolding text_beq
    not_confirmed step_params no_field no_confirm =
        lookup-with_context (codes "confirm_write") (call_of step_params) refl refl refl
        ∙ ap (lookup (codes "confirm_write")) (prepared-merged step_params no_field)
        ∙ lookup-set_default_new (codes "confirm_write") (Value.bool policy.confirm_write)
            (merged step_params) no_confirm

    -- A step of the database tool whose SQL counts as a write fails and leaves the database alone,
    -- if writes are protected by the field `confirm_write`, the policy of the request does not
    -- confirm, and neither the step nor the request's overrides give that field or name another.
    pub call_tool-Refused :
        (step_params : Params)
        → lookup (codes "database_tool") h.registry ≡ some (database_tool db guard)
        → guard.db_write_protection_enabled ≡ true
        → guard.db_confirm_field ≡ codes "confirm_write"
        → policy.confirm_write ≡ false
        → lookup (codes "confirm_field") (merged step_params) ≡ none
        → lookup (codes "confirm_write") (merged step_params) ≡ none
        → is_write_sql (sql_of db (merged step_params)) ≡ true
        → Refused h.world (
            Executor.call_tool rt caller policy tool_overrides event_id
              (codes "database_tool")
              step_params
              h)
    unfolding Executor.call_tool invoke
    call_tool-Refused step_params found on field unconfirmed no_field no_confirm write =
        let call = call_of step_params in
        invoke-Refused call (lookup (codes "database_tool") h.registry) found (
          run_sql-unconfirmed db guard (with_context call) h.world on
            (ap (λ o. is_write_sql (strip (text_or_empty db.show_value o)))
                (sql_kept step_params no_field)
              ∙ write)
            (ap (λ f. truthy_found (lookup f (with_context call))) field
              ∙ ap truthy_found (not_confirmed step_params no_field no_confirm)
              ∙ unconfirmed))
