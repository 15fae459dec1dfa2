-- ===== src/Orchestration.antt =====
-- app/orchestration/service.py: `OrchestratorService` over the planner, the retriever, the executor,
-- the model router, the reviewer and the memory. The counters and the audit log are those of the
-- tool hub, with which the container shares them. The skills of the moment are an argument; the
-- identifiers that `uuid4` draws are a sequence, of which the first is the trace's.
pub mod Data
pub mod StateGraph
pub mod Agreement
pub mod Effects
pub mod Refusals
pub mod Tests
use ochestrate.Base.{
  ℕ, zero, suc, ◌+◌, Bool, true, false, Option, none, some, List, [], ◌∷◌, ◌++◌, map, length, take,
  ltb, if◌then◌else◌,
}
use ochestrate.Text.{Text, text_eq, codes, join}
use ochestrate.Dict.{lookup}
use ochestrate.Schemas.{
  Value, Params, UnifiedRequest, UnifiedResponse, Citation, Action, TaskType, qa, automation,
  analysis, Sensitivity, low, medium, high,
}
use ochestrate.Context.{ContextManager, Sections, build_context}
use ochestrate.Prompts
use ochestrate.Prompts.{SkillContextItem, Rendering, assemble, list_capabilities}
use ochestrate.Memory.{MemoryService, read_short, read_long, write_short, write_long}
use ochestrate.Rag.{KnowledgeStore, retrieve_for}
use ochestrate.Models.{ModelRouter, generate}
use ochestrate.Tools.Hub.{ToolHub, inc}
use ochestrate.Agents.Planner.{Step, plan}
use ochestrate.Agents.Executor
use ochestrate.Agents.Executor.{execute}
use ochestrate.Agents.Reviewer.{review}
use ochestrate.Orchestration.StateGraph.{Graph, LangGraph}
use ochestrate.Orchestration.Data.{
  Runtime, Orchestrator, State, or_blank, role_or_employee, task_type_text, sensitivity_text,
  snippet_of, numbered, initial, caller_of, turn_text,
}

module _ (rt : Runtime) {W : Type 0} (uuid : ℕ → Text) (now : ℕ)
    (skills : List SkillContextItem) where
  -- `OrchestratorService._compose_prompt`
  unfoldable pub compose_prompt : UnifiedRequest → List Citation → Orchestrator W → Text
  compose_prompt request citations o =
      let tenant_id = or_blank request.tenant_id in
      let user_id = or_blank request.user_id in
      let short_ctx =
        join (codes "\n") (read_short tenant_id user_id request.session_id o.memory) in
      let long_ctx =
        join (codes "\n") (read_long rt.lower now tenant_id user_id request.input 5 o.memory) in
      let evidence = join (codes "\n") (map snippet_of citations) in
      let prompt = assemble rt.show_roles o.prompt_tokens rt.template (record {
        system_policy = codes "Enterprise assistant with high-accuracy and citation requirements.";
        task = request.input;
        evidence = evidence;
        short_memory = short_ctx;
        long_memory = long_ctx;
        tools = list_capabilities o.hub;
        skills = skills;
        max_skill_items = o.max_skill_items;
        skill_context_mode = request.skill_context_mode;
      }) in
      build_context o.context (record {
        system_policy = codes "Use the assembled prompt content as the task context.";
        task_context = prompt;
        retrieval_evidence = evidence;
        short_memory = short_ctx;
        long_memory = long_ctx;
      })

  abbrev pub execute_plan : UnifiedRequest → Text → List Step → ToolHub W → List Action × ToolHub W
  execute_plan request trace_id steps h =
      execute rt.executor (caller_of request trace_id) request.policy request.tool_overrides
        (numbered uuid 1 steps) h

  abbrev pub generate_for : UnifiedRequest → List Citation → Orchestrator W → Text × Bool
  generate_for request citations o =
      generate (compose_prompt request citations o) (task_type_text request.task_type)
        (sensitivity_text request.policy.sensitivity) o.router

  -- the four nodes of `_build_graph`
  unfoldable pub planner_node : State × Orchestrator W → State × Orchestrator W
  planner_node (s, o) = (record s { planner_steps = plan rt.lower s.request }, o)

  unfoldable pub retriever_node : State × Orchestrator W → State × Orchestrator W
  retriever_node (s, o) = (record s { citations = retrieve_for rt.lower s.request o.store }, o)

  unfoldable pub executor_node : State × Orchestrator W → State × Orchestrator W
  executor_node (s, o) =
      let (actions, h) = execute_plan s.request s.trace_id s.planner_steps o.hub in
      (record s { actions = actions }, record o { hub = h })

  unfoldable pub reviewer_node : State × Orchestrator W → State × Orchestrator W
  reviewer_node (s, o) =
      let (answer, fallback) = generate_for s.request s.citations o in
      let (reviewed_answer, confidence) = review answer s.citations (length s.actions) in
      (
        record s {
          answer = reviewed_answer;
          confidence = confidence;
          fallback_triggered = fallback;
        },
        o,
      )

  -- `OrchestratorService._build_graph`, where LangGraph is installed
  unfoldable pub build_graph : Text → Graph (State × Orchestrator W)
  build_graph end_symbol = record {
    nodes =
        (codes "planner", planner_node)
        ∷ (codes "retriever", retriever_node)
        ∷ (codes "executor", executor_node)
        ∷ (codes "reviewer", reviewer_node)
        ∷ [];
    edges =
        (codes "planner", codes "retriever")
        ∷ (codes "retriever", codes "executor")
        ∷ (codes "executor", codes "reviewer")
        ∷ (codes "reviewer", end_symbol)
        ∷ [];
    entry = codes "planner";
  }

  -- `OrchestratorService._run_without_graph`
  unfoldable pub run_without_graph : State × Orchestrator W → State × Orchestrator W
  run_without_graph (s, o) =
      let planner_steps = plan rt.lower s.request in
      let citations = retrieve_for rt.lower s.request o.store in
      let (actions, h) = execute_plan s.request s.trace_id planner_steps o.hub in
      let o' : Orchestrator W = record o { hub = h } in
      let (answer, fallback) = generate_for s.request citations o' in
      let (reviewed_answer, confidence) = review answer citations (length actions) in
      (
        record s {
          planner_steps = planner_steps;
          citations = citations;
          actions = actions;
          answer = reviewed_answer;
          confidence = confidence;
          fallback_triggered = fallback;
        },
        o',
      )

  unfoldable pub run_flow :
      Option (LangGraph (State × Orchestrator W)) → State × Orchestrator W → State × Orchestrator W
  run_flow none so = run_without_graph so
  run_flow (some l) so = l.invoke (build_graph l.end_symbol) so

  -- what `run` does once the flow has ended
  unfoldable pub conclude : State × Orchestrator W → UnifiedResponse × Orchestrator W
  conclude (s, o) =
      let tenant_id = or_blank s.request.tenant_id in
      let user_id = or_blank s.request.user_id in
      let (short_update, memory) =
        write_short tenant_id user_id s.request.session_id (turn_text s.request s.answer)
          o.memory in
      let (long_update, memory') =
        write_long now tenant_id user_id (codes "Preferred context from trace " ++ s.trace_id)
          (codes "auto-summary" ∷ []) none memory in
      let audited =
        o.hub.audit
        ++ record {
          event_id = uuid (length s.planner_steps + 1);
          event_type = codes "orchestration.completed";
          payload =
              (codes "trace_id", Value.str s.trace_id)
              ∷ (codes "tenant_id", Value.str tenant_id)
              ∷ (codes "task_type", Value.str (task_type_text s.request.task_type))
              ∷ (codes "confidence", Value.num s.confidence)
              ∷ (codes "citations", Value.num (length s.citations))
              ∷ (codes "actions", Value.num (length s.actions))
              ∷ (codes "skills_loaded", Value.num (length skills))
              ∷ [];
        }
          ∷ [] in
      let metrics =
        if ltb s.confidence 40
        then inc (codes "response.low_confidence") 1 o.hub.metrics
        else o.hub.metrics in
      (
        record {
          answer = s.answer;
          citations = s.citations;
          actions = s.actions;
          confidence = s.confidence;
          trace_id = s.trace_id;
          memory_updates = short_update ∷ long_update ∷ [];
          fallback_triggered = s.fallback_triggered;
        },
        record o { memory = memory'; hub = record o.hub { audit = audited; metrics = metrics } },
      )

  -- `OrchestratorService.run`
  unfoldable pub run :
      Option (LangGraph (State × Orchestrator W))
      → UnifiedRequest
      → Orchestrator W
      → UnifiedResponse × Orchestrator W
  unfolding initial run_flow conclude
  run graph request o =
      let counted : Orchestrator W = record o {
        hub = record o.hub { metrics = inc (codes "request.total") 1 o.hub.metrics };
      } in
      conclude (run_flow graph (initial request (uuid 0), counted))
