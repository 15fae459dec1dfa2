-- ===== src/Orchestration/Agreement.antt =====
-- On app/orchestration/service.py: the flow through LangGraph and the serial one agree.
use mathlib.Core.Path.{subst}
use ochestrate.Base.{ℕ, ◌≡◌, ◌∙◌, refl, ap, sym, none, some, List, text_beq}
use ochestrate.Text.{Text, text_eq, codes}
use ochestrate.Dict.{lookup}
use ochestrate.Prompts.{SkillContextItem}
use ochestrate.Schemas.{UnifiedRequest}
use ochestrate.Orchestration.StateGraph.{LangGraph, Follows, walk, advance}
use ochestrate.Orchestration.Data.{Runtime, Orchestrator, State}
use ochestrate.Orchestration.{
  build_graph, run_without_graph, run_flow, run, conclude, planner_node, retriever_node,
  executor_node, reviewer_node,
}

module _ (rt : Runtime) {W : Type 0} (uuid : ℕ → Text) (now : ℕ)
    (skills : List SkillContextItem) where
  -- the four nodes one behind the other
  abbrev in_order : State × Orchestrator W → State × Orchestrator W
  in_order so = reviewer_node rt uuid now skills (
      executor_node rt uuid now skills
        (retriever_node rt uuid now skills (planner_node rt uuid now skills so)))

  walk-build_graph :
      (so : State × Orchestrator W)
      → walk
          (codes "__end__")
          (build_graph rt uuid now skills (codes "__end__"))
          25
          (codes "planner")
          so
        ≡ some (in_order so)
  unfolding walk advance build_graph lookup text_beq
  walk-build_graph so = refl

  in_order-run_without_graph :
      (so : State × Orchestrator W) → in_order so ≡ run_without_graph rt uuid now skills so
  unfolding planner_node retriever_node executor_node reviewer_node run_without_graph
  in_order-run_without_graph (s, o) = refl

  run_flow-graph :
      (l : LangGraph (State × Orchestrator W)) (so : State × Orchestrator W)
      → Follows l
      → l.end_symbol ≡ codes "__end__"
      → run_flow rt uuid now skills (some l) so ≡ run_without_graph rt uuid now skills so
  unfolding run_flow build_graph
  run_flow-graph l so follows named =
      follows (build_graph rt uuid now skills l.end_symbol) so (in_order so) (
        subst
          (λ e.
            walk e (build_graph rt uuid now skills e) 25 (codes "planner") so ≡ some (in_order so))
          (sym named) (walk-build_graph so))
      ∙ in_order-run_without_graph so

  -- Where LangGraph runs a graph along its edges and names its end `__end__`, a run of the service
  -- through the graph is the serial run: the same response, and the same state of the service.
  pub run-graph :
      (l : LangGraph (State × Orchestrator W)) (request : UnifiedRequest) (o : Orchestrator W)
      → Follows l
      → l.end_symbol ≡ codes "__end__"
      → run rt uuid now skills (some l) request o ≡ run rt uuid now skills none request o
  unfolding run run_flow
  run-graph l request o follows named =
      ap (conclude rt uuid now skills) (run_flow-graph l _ follows named)
