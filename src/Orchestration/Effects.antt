-- ===== src/Orchestration/Effects.antt =====
-- On app/orchestration/service.py: what a run leaves behind, and what it cannot do.
use ochestrate.Base.{ℕ, ◌≡◌, refl, none, List}
use ochestrate.Text.{Text, text_eq}
use ochestrate.Dict.{lookup-insert_self}
use ochestrate.Prompts.{SkillContextItem}
use ochestrate.Schemas.{UnifiedRequest}
use ochestrate.Memory.{push_bounded, window, add_turn, read_short, write_short, write_long}
use ochestrate.Memory.Sessions.{NoColon, read_short-write_short_ne}
use ochestrate.Orchestration.Data.{Runtime, Orchestrator, initial, or_blank, turn_text}
use ochestrate.Orchestration.{run_without_graph, run_flow, run, conclude}

module _ (rt : Runtime) {W : Type 0} (uuid : ℕ → Text) (now : ℕ) (skills : List SkillContextItem)
    (request : UnifiedRequest) (o : Orchestrator W) where
  -- What is remembered after the serial run: the session has the turn of the request at its end.
  pub run-read_short :
      let (response, o') = run rt uuid now skills none request o in
      let tenant_id = or_blank request.tenant_id in
      let user_id = or_blank request.user_id in
      read_short tenant_id user_id request.session_id o'.memory
      ≡ push_bounded o.memory.short.max_turns
          (read_short tenant_id user_id request.session_id o.memory)
          (turn_text request response.answer)
  unfolding run run_flow run_without_graph conclude initial read_short write_short write_long window
      add_turn
  run-read_short = rw lookup-insert_self refl

  -- Every other session, for identifiers of users and sessions without colons, is as it was.
  pub run-read_short_ne :
      (t u s : Text)
      → NoColon (or_blank request.user_id)
      → NoColon request.session_id
      → NoColon u
      → NoColon s
      → ¬ (
          (or_blank request.tenant_id ≡ t)
          × (or_blank request.user_id ≡ u)
          × (request.session_id ≡ s))
      → read_short t u s (run rt uuid now skills none request o).1.memory
        ≡ read_short t u s o.memory
  unfolding run run_flow run_without_graph conclude initial write_long read_short
  run-read_short_ne t u s hu hs hu' hs' ne =
      unfold read_short in
      read_short-write_short_ne (or_blank request.tenant_id) (or_blank request.user_id)
        request.session_id t u s _ o.memory hu hs hu' hs' ne
