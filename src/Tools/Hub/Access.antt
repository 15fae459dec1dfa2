-- ===== src/Tools/Hub/Access.antt =====
-- On app/tools/hub.py: only an allowed role gets a tool to run.
use ochestrate.Base.{◌≡◌, ◌≢◌, refl, ap, ◌∙◌, Bool, true, false, Option, none, some}
use ochestrate.Text.{Text, text_eq, codes}
use ochestrate.Dict.{lookup}
use ochestrate.Tools.Hub.{
  Tool, ToolCall, ToolHub, ToolInvokeResult, raised, permission, role_in, invoke, invoke_found,
  check_role, run_uncached, cached_for, inc,
}

module _ {W : Type 0} (event_id : Text) (call : ToolCall) (h : ToolHub W) where
  -- A call by a role that the tool does not list is refused as forbidden, and only counted: the
  -- world, the cache and the audit log stay as they are.
  pub invoke_forbidden :
      (tool : Tool W)
      → lookup call.tool_name h.registry ≡ some tool
      → role_in call.user_role tool.required_roles ≡ false
      → invoke event_id call h ≡ (
        raised (permission (codes "role cannot invoke tool")),
        record h { metrics = inc (codes "tool.permission_denied") 1 h.metrics },
      )
  unfolding invoke
  invoke_forbidden tool found forbidden =
      ap (λ o. invoke_found event_id call o h) found
      ∙ ap (λ b. check_role event_id tool call b h) forbidden

  -- The conditions under which a call runs its tool.
  pub record Runs (tool : Tool W) : Type 0 where
    pub found : lookup call.tool_name h.registry ≡ some tool
    pub allowed : role_in call.user_role tool.required_roles ≡ true
    pub uncached : cached_for tool call h ≡ none

  world_by_cache :
      (tool : Tool W) (o : Option ToolInvokeResult)
      → (run_uncached event_id tool call o h).1.world ≢ h.world
      → o ≡ none
  unfolding run_uncached
  world_by_cache tool none changed = refl
  world_by_cache tool (some cached) changed = absurd (changed refl)

  world_by_role :
      (tool : Tool W) (b : Bool)
      → (check_role event_id tool call b h).1.world ≢ h.world
      → (b ≡ true) × (cached_for tool call h ≡ none)
  unfolding check_role
  world_by_role tool true changed = (refl, world_by_cache tool (cached_for tool call h) changed)
  world_by_role tool false changed = absurd (changed refl)

  world_by_tool :
      (o : Option (Tool W))
      → lookup call.tool_name h.registry ≡ o
      → (invoke_found event_id call o h).1.world ≢ h.world
      → (tool : Tool W) × Runs tool
  unfolding invoke_found
  world_by_tool none e changed = absurd (changed refl)
  world_by_tool (some tool) e changed =
      let (allowed, uncached) =
        world_by_role tool (role_in call.user_role tool.required_roles) changed in
      (tool, record { found = e; allowed = allowed; uncached = uncached })

  -- A call that changes the world is of a registered tool that lists the caller's role, and whose
  -- result was not in the cache.
  pub invoke_acts : (invoke event_id call h).1.world ≢ h.world → (tool : Tool W) × Runs tool
  unfolding invoke
  invoke_acts changed = world_by_tool (lookup call.tool_name h.registry) refl changed
