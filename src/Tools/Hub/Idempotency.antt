-- ===== src/Tools/Hub/Idempotency.antt =====
-- On app/tools/hub.py: an idempotent tool runs once for a key.
use ochestrate.Base.{◌≡◌, ap, ◌∙◌, true, some, [], ◌∷◌, text_beq}
use ochestrate.Text.{Text, text_eq, codes}
use ochestrate.Dict.{lookup, insert, lookup-insert_self}
use ochestrate.Schemas.{Value, Params}
use ochestrate.Tools.Hub.{
  Tool, ToolCall, ToolHub, ok, role_in, invoke, invoke_found, check_role, run_uncached, record_run,
  with_context, cached_for, inc, from_cache, fresh_result,
}
use ochestrate.Tools.Hub.Access.{Runs}

module _ {W : Type 0} (event_id : Text) (call : ToolCall) (h : ToolHub W) (tool : Tool W)
    (runs : Runs event_id call h tool) where
  ran :
      invoke event_id call h
      ≡ record_run event_id tool call (tool.run (with_context call) h.world) h
  unfolding invoke
  ran =
      ap (λ o. invoke_found event_id call o h) runs.found
      ∙ ap (λ b. check_role event_id tool call b h) runs.allowed
      ∙ ap (λ o. run_uncached event_id tool call o h) runs.uncached

  module _ (idempotent : tool.idempotent ≡ true) (output : Params) (w : W)
      (returned : tool.run (with_context call) h.world ≡ (ok output, w)) (other_id : Text)
      (again : ToolCall) (same_tool : again.tool_name ≡ call.tool_name)
      (same_key : again.idempotency_key ≡ call.idempotency_key)
      (allowed : role_in again.user_role tool.required_roles ≡ true) where
    stored : ToolHub W
    stored = (record_run event_id tool call (ok output, w) h).1

    stored_lem : (invoke event_id call h).1 ≡ stored
    unfolding stored
    stored_lem = ap (λ r. r.1) (ran ∙ ap (λ r. record_run event_id tool call r h) returned)

    registry_stored : lookup again.tool_name stored.registry ≡ some tool
    unfolding stored record_run
    registry_stored = ap (λ k. lookup k h.registry) same_tool ∙ runs.found

    cached_stored : cached_for tool again stored ≡ some (fresh_result event_id output)
    unfolding stored record_run cached_for
    cached_stored = rw (idempotent, same_key, lookup-insert_self)

    -- After a call in which an idempotent tool ran and returned an output, a call of that tool with
    -- the same key, by a role that the tool lists, is answered with that output, the identifier of
    -- the first call's audit event, and the marks of a hit in the cache; and it is only counted:
    -- the tool does not run again, and nothing is added to the audit log.
    pub invoke_again :
        let h' = (invoke event_id call h).1 in
        invoke other_id again h' ≡ (
          ok (record {
            output = output;
            audit_ref = event_id;
            policy_applied =
                (codes "role_checked", Value.bool true)
                ∷ (codes "idempotency_cache_hit", Value.bool true)
                ∷ [];
            cache_hit = true;
          }),
          record h' { metrics = inc (codes "tool.idempotency_hit") 1 h'.metrics },
        )
    unfolding invoke from_cache insert text_beq
    invoke_again = rw (stored_lem) (
        ap (λ o. invoke_found other_id again o stored) registry_stored
        ∙ ap (λ b. check_role other_id tool again b stored) allowed
        ∙ ap (λ o. run_uncached other_id tool again o stored) cached_stored)
