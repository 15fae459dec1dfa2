-- ===== src/Tools/Hub.antt =====
-- app/tools/hub.py, with the records of app/tools/base.py, the counters of
-- app/observability/metrics.py and the events of app/observability/audit.py. What the tools act on
-- is a world `W`, and the identifiers of the audit events come from `uuid4`.
pub mod Access
pub mod Idempotency
mod Tests
use ochestrate.Base.{
  ℕ, ◌+◌, Bool, true, false, Option, none, some, List, [], ◌∷◌, ◌++◌, map, ◌==◌, any, if◌then◌else◌,
}
use ochestrate.Text.{Text, text_eq, codes}
use ochestrate.Dict.{Dict, lookup, insert, set_default, update}
use ochestrate.Schemas.{Value, Params, Fields}

-- `PermissionError`, or another exception; with its text.
pub data ToolError : Type 0 where
  permission : Text → ToolError
  failure : Text → ToolError

pub data Result {ℓ} (A : Type ℓ) : Type ℓ where
  ok : A → Result A
  raised : ToolError → Result A

-- `Tool`: a run returns an output or raises, and leaves the world changed either way.
pub record Tool (W : Type 0) : Type 0 where
  pub name : Text
  pub description : Text
  pub required_roles : List Text
  pub idempotent : Bool
  pub run : Params → W → Result Params × W

pub record ToolCall : Type 0 where
  pub tool_name : Text
  pub user_role : Value
  pub idempotency_key : Text
  pub trace_id : Text
  pub tenant_id : Text
  pub user_id : Text
  pub params : Params

pub record ToolInvokeResult : Type 0 where
  pub output : Params
  pub audit_ref : Text
  pub policy_applied : Params
  pub cache_hit : Bool

pub record AuditEvent : Type 0 where
  pub event_id : Text
  pub event_type : Text
  pub payload : Params

abbrev pub Metrics : Type 0
Metrics = Dict Text ℕ

or_zero : Option ℕ → ℕ
or_zero none = 0
or_zero (some n) = n

-- `MetricsRegistry.inc`
unfoldable pub inc : Text → ℕ → Metrics → Metrics
unfolding or_zero
inc metric_name value metrics =
    insert metric_name (or_zero (lookup metric_name metrics) + value) metrics

-- `ToolHub`, with the counters, the audit log and the world that it acts on
pub record ToolHub (W : Type 0) : Type 0 where
  pub registry : Dict Text (Tool W)
  pub cache : Dict Text ToolInvokeResult
  pub metrics : Metrics
  pub audit : List AuditEvent
  pub world : W

-- `role in roles`: a value that is no text is in no list of texts.
unfoldable pub role_in : Value → List Text → Bool
role_in (Value.str t) roles = any (λ r. r == t) roles
role_in Value.null roles = false
role_in (Value.bool b) roles = false
role_in (Value.num n) roles = false
role_in (Value.arr vs) roles = false
role_in (Value.obj fs) roles = false

abbrev pub to_fields : Params → Fields
to_fields [] = Fields.end
to_fields ((k, v) ∷ p) = Fields.field k v (to_fields p)

-- the parameters with the caller's identity behind them
unfoldable pub with_context : ToolCall → Params
with_context call = set_default (codes "_user_role") call.user_role (
    set_default (codes "_user_id") (Value.str call.user_id)
      (set_default (codes "_tenant_id") (Value.str call.tenant_id) call.params))

abbrev pub event : Text → ToolCall → Params → AuditEvent
event event_id call params = record {
  event_id = event_id;
  event_type = codes "tool_invoke";
  payload =
      (codes "trace_id", Value.str call.trace_id)
      ∷ (codes "tenant_id", Value.str call.tenant_id)
      ∷ (codes "user_id", Value.str call.user_id)
      ∷ (codes "tool_name", Value.str call.tool_name)
      ∷ (codes "user_role", call.user_role)
      ∷ (codes "idempotency_key", Value.str call.idempotency_key)
      ∷ (codes "params", Value.obj (to_fields params))
      ∷ [];
}

-- the result that a run gives, as it is stored and returned
abbrev pub fresh_result : Text → Params → ToolInvokeResult
fresh_result audit_ref output = record {
  output = output;
  audit_ref = audit_ref;
  policy_applied =
      (codes "role_checked", Value.bool true)
      ∷ (codes "idempotency_cache_hit", Value.bool false)
      ∷ [];
  cache_hit = false;
}

-- the answer from the cache
unfoldable pub from_cache : ToolInvokeResult → ToolInvokeResult
from_cache cached = record {
  output = cached.output;
  audit_ref = cached.audit_ref;
  policy_applied = insert (codes "idempotency_cache_hit") (Value.bool true) cached.policy_applied;
  cache_hit = true;
}

module _ {W : Type 0} where
  -- `ToolHub.register`
  unfoldable pub register : Tool W → ToolHub W → ToolHub W
  register tool h = record h { registry = insert tool.name tool h.registry }

  -- what follows the run of the tool
  unfoldable pub record_run :
      Text → Tool W → ToolCall → Result Params × W → ToolHub W → Result ToolInvokeResult × ToolHub W
  record_run event_id tool call (raised e, w) h = (raised e, record h { world = w })
  record_run event_id tool call (ok output, w) h =
      let result = fresh_result event_id output in
      (
        ok result,
        record h {
          metrics = inc (codes "tool.success") 1 h.metrics;
          audit = h.audit ++ event event_id call (with_context call) ∷ [];
          cache = if tool.idempotent then insert call.idempotency_key result h.cache else h.cache;
          world = w;
        },
      )

  -- the cache is asked for idempotent tools only
  unfoldable pub cached_for : Tool W → ToolCall → ToolHub W → Option ToolInvokeResult
  cached_for tool call h = if tool.idempotent then lookup call.idempotency_key h.cache else none

  unfoldable pub run_uncached :
      Text
      → Tool W
      → ToolCall
      → Option ToolInvokeResult
      → ToolHub W
      → Result ToolInvokeResult × ToolHub W
  unfolding record_run
  run_uncached event_id tool call (some cached) h = (
    ok (from_cache cached),
    record h { metrics = inc (codes "tool.idempotency_hit") 1 h.metrics },
  )
  run_uncached event_id tool call none h =
      record_run event_id tool call (tool.run (with_context call) h.world) h

  unfoldable pub check_role :
      Text → Tool W → ToolCall → Bool → ToolHub W → Result ToolInvokeResult × ToolHub W
  unfolding run_uncached
  check_role event_id tool call false h = (
    raised (permission (codes "role cannot invoke tool")),
    record h { metrics = inc (codes "tool.permission_denied") 1 h.metrics },
  )
  check_role event_id tool call true h = run_uncached event_id tool call (cached_for tool call h) h

  unfoldable pub invoke_found :
      Text → ToolCall → Option (Tool W) → ToolHub W → Result ToolInvokeResult × ToolHub W
  unfolding check_role
  invoke_found event_id call none h = (raised (failure (codes "tool is not registered")), h)
  invoke_found event_id call (some tool) h =
      check_role event_id tool call (role_in call.user_role tool.required_roles) h

  -- `ToolHub.invoke`, with the identifier of the audit event; the texts of the errors leave out the
  -- names of the role and of the tool.
  unfoldable pub invoke : Text → ToolCall → ToolHub W → Result ToolInvokeResult × ToolHub W
  unfolding invoke_found
  invoke event_id call h = invoke_found event_id call (lookup call.tool_name h.registry) h
