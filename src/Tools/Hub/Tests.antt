-- ===== src/Tools/Hub/Tests.antt =====
-- On app/tools/hub.py: a hub with one idempotent tool that counts its runs, to which the theorems
-- are applied.
use ochestrate.Base.{ℕ, suc, ◌≡◌, ◌≢◌, refl, arith, true, [], ◌∷◌, text_beq}
use ochestrate.Text.{Text, text_eq, codes}
use ochestrate.Dict.{lookup}
use ochestrate.Schemas.{Value}
use ochestrate.Tools.Hub.{
  Tool, ToolCall, ToolHub, ok, role_in, invoke, invoke_found, check_role, run_uncached, record_run,
  cached_for, inc,
}
use ochestrate.Tools.Hub.Access.{Runs, invoke_acts}
use ochestrate.Tools.Hub.Idempotency.{invoke_again}

abbrev counter : Tool ℕ
counter = record {
  name = codes "counter";
  description = [];
  required_roles = codes "manager" ∷ [];
  idempotent = true;
  run = λ params w. (ok [], suc w);
}

abbrev call_as : Text → ToolCall
call_as role = record {
  tool_name = codes "counter";
  user_role = Value.str role;
  idempotency_key = codes "k";
  trace_id = codes "t";
  tenant_id = codes "acme";
  user_id = codes "ann";
  params = [];
}

abbrev hub : ToolHub ℕ
hub = record {
  registry = (codes "counter", counter) ∷ [];
  cache = [];
  metrics = [];
  audit = [];
  world = 0;
}

changed : (invoke (codes "e1") (call_as (codes "manager")) hub).1.world ≢ 0
unfolding invoke invoke_found check_role run_uncached record_run cached_for lookup text_beq role_in
changed e = absurd (omega (arith, e))

invoke_acts_example : (tool : Tool ℕ) × Runs (codes "e1") (call_as (codes "manager")) hub tool
invoke_acts_example = invoke_acts (codes "e1") (call_as (codes "manager")) hub changed

counter-Runs : Runs (codes "e1") (call_as (codes "manager")) hub counter
unfolding lookup text_beq role_in cached_for
counter-Runs = record { found = refl; allowed = refl; uncached = refl }

invoke_again_example :
    let h' = (invoke (codes "e1") (call_as (codes "manager")) hub).1 in
    invoke (codes "e2") (call_as (codes "manager")) h' ≡ (
      ok (record {
        output = [];
        audit_ref = codes "e1";
        policy_applied =
            (codes "role_checked", Value.bool true)
            ∷ (codes "idempotency_cache_hit", Value.bool true)
            ∷ [];
        cache_hit = true;
      }),
      record h' { metrics = inc (codes "tool.idempotency_hit") 1 h'.metrics },
    )
unfolding text_beq role_in
invoke_again_example =
    invoke_again (codes "e1") (call_as (codes "manager")) hub counter counter-Runs refl [] 1 refl
      (codes "e2") (call_as (codes "manager")) refl refl refl
