-- ===== src/Orchestration/Refusals.antt =====
-- On app/orchestration/service.py: what a run cannot do to the world of the tools.
use ochestrate.Base.{ℕ, ◌≡◌, ◌∙◌, refl, ap, true, false, none, some, List, [], ◌∷◌, text_beq}
use ochestrate.Text.{Text, text_eq, codes, strip}
use ochestrate.Dict.{lookup, update}
use ochestrate.Prompts.{SkillContextItem}
use ochestrate.Schemas.{Params, UnifiedRequest, ToolPayload, Action, failed}
use ochestrate.Tools.Hub.{ToolHub}
use ochestrate.Tools.Database
use ochestrate.Tools.Database.{DatabasePolicy, database_tool, is_write_sql, sql_of}
use ochestrate.Tools.Values.{text_or_empty, text_or_empty_str}
use ochestrate.Agents.Planner.{
  validate_permissions, tool, plan, plan_or, step_from_payload, payload_params, is_among, optional,
}
use ochestrate.Agents.Executor
use ochestrate.Agents.Executor.{execute, run_steps, policy_gate}
use ochestrate.Agents.Executor.Refusals.{Refused, call_tool-Refused}
use ochestrate.Orchestration.Data.{Runtime, Orchestrator, initial, numbered, caller_of}
use ochestrate.Orchestration.{run_without_graph, run_flow, run, conclude}

module _ (rt : Runtime) {W : Type 0} (uuid : ℕ → Text) (now : ℕ) (skills : List SkillContextItem)
    (request : UnifiedRequest) (o : Orchestrator W) where
  -- Without LangGraph and with automatic execution off, a run reports the policy gate, skipped, and
  -- leaves the world of the tools alone.
  run-gated :
      request.policy.auto_execute ≡ false
      → let (response, o') = run rt uuid now skills none request o in
        (response.actions ≡ policy_gate ∷ []) × (o'.hub.world ≡ o.hub.world)
  unfolding run run_flow run_without_graph conclude initial execute
  run-gated off = rw off (refl, refl)

  abbrev pub sql_params : ToolPayload → Params
  sql_params payload = payload_params rt.lower payload

  plan_sql :
      (payload : ToolPayload)
      → request.tool_payload ≡ some payload
      → rt.lower payload.resource_type ≡ codes "sql"
      → plan rt.lower request
        ≡ validate_permissions ∷ tool (codes "database_tool") (sql_params payload) ∷ []
  unfolding plan plan_or step_from_payload is_among text_beq
  plan_sql payload asked sql = rw (asked, step_from_payload) (rw (sql) refl)

  -- The SQL of the request asks for the database tool, whose writes are protected by the field
  -- `confirm_write`, and nothing in the request confirms.
  pub record Unconfirmed (db : Database.Runtime W) (guard : DatabasePolicy) (payload : ToolPayload)
      (sql : Text) : Type 0 where
    pub asked : request.tool_payload ≡ some payload
    pub for_sql : rt.lower payload.resource_type ≡ codes "sql"
    pub with_sql : payload.sql ≡ some sql
    pub writes : is_write_sql (strip sql) ≡ true
    pub executes : request.policy.auto_execute ≡ true
    pub not_by_policy : request.policy.confirm_write ≡ false
    pub not_by_override : lookup (codes "database_tool") request.tool_overrides ≡ none
    pub registered : lookup (codes "database_tool") o.hub.registry ≡ some (database_tool db guard)
    pub protected : guard.db_write_protection_enabled ≡ true
    pub by_field : guard.db_confirm_field ≡ codes "confirm_write"

  module _ (db : Database.Runtime W) (guard : DatabasePolicy) (payload : ToolPayload) (sql : Text)
      (h : ToolHub W) (registered : h.registry ≡ o.hub.registry)
      (u : Unconfirmed db guard payload sql) where
    no_override :
        update
          (sql_params payload)
          (Executor.or_empty (lookup (codes "database_tool") request.tool_overrides))
        ≡ sql_params payload
    unfolding update
    no_override = ap (λ x. update (sql_params payload) (Executor.or_empty x)) u.not_by_override

    not_given :
        (key : Text)
        → lookup key (sql_params payload) ≡ none
        → lookup key (
            update
              (sql_params payload)
              (Executor.or_empty (lookup (codes "database_tool") request.tool_overrides)))
          ≡ none
    not_given key absent = ap (lookup key) no_override ∙ absent

    writes_too :
        is_write_sql (
          sql_of db (
            update
              (sql_params payload)
              (Executor.or_empty (lookup (codes "database_tool") request.tool_overrides))))
        ≡ true
    unfolding lookup text_beq
    writes_too =
        ap (λ p. is_write_sql (sql_of db p)) no_override
        ∙ ap (λ x. is_write_sql (strip (text_or_empty db.show_value (some (optional x)))))
            u.with_sql
        ∙ ap (λ t. is_write_sql (strip t)) (text_or_empty_str db.show_value sql)
        ∙ u.writes

    call-Refused :
        (event_id trace_id : Text)
        → Refused h.world (
            Executor.call_tool rt.executor
              (caller_of request trace_id)
              request.policy
              request.tool_overrides
              event_id
              (codes "database_tool")
              (sql_params payload)
              h)
    unfolding lookup text_beq
    call-Refused event_id trace_id =
        call_tool-Refused rt.executor (caller_of request trace_id) request.policy
          request.tool_overrides db guard event_id h (sql_params payload)
          (ap (lookup (codes "database_tool")) registered ∙ u.registered) u.protected u.by_field
          u.not_by_policy (not_given (codes "confirm_field") refl)
          (not_given (codes "confirm_write") refl) writes_too

  -- Without LangGraph, with automatic execution on, and where the database tool is registered and
  -- protects writes by the field `confirm_write`: a run for a request whose payload is SQL that
  -- counts as a write, and whose policy does not confirm and which overrides nothing of that tool,
  -- reports one action, which failed, and leaves the database alone.
  pub run-Unconfirmed :
      (db : Database.Runtime W) (guard : DatabasePolicy) (payload : ToolPayload) (sql : Text)
      → Unconfirmed db guard payload sql
      → let (response, o') = run rt uuid now skills none request o in
        (action : Action) × (response.actions ≡ action ∷ [])
        × (action.status ≡ failed)
        × (o'.hub.world ≡ o.hub.world)
  unfolding run run_flow run_without_graph conclude initial execute run_steps numbered
  run-Unconfirmed db guard payload sql u =
      rw (plan_sql payload u.asked u.for_sql, u.executes)
        (let refused = call-Refused db guard payload sql _ refl u (uuid 2) (uuid 0) in
          (_, refl, refused.reported, refused.unchanged))
