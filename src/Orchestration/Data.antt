-- ===== src/Orchestration/Data.antt =====
-- app/orchestration/service.py: what `OrchestratorService` is made of, the state that its nodes hand
-- on, and the texts that it makes.
use ochestrate.Base.{ℕ, suc, Bool, false, Option, none, some, List, [], ◌∷◌, ◌++◌, take}
use ochestrate.Text.{Text, text_eq, codes}
use ochestrate.Dict.{lookup}
use ochestrate.Schemas.{
  Value, UnifiedRequest, Citation, Action, TaskType, qa, automation, analysis, Sensitivity, low,
  medium, high,
}
use ochestrate.Context.{ContextManager}
use ochestrate.Prompts.{Rendering}
use ochestrate.Memory.{MemoryService}
use ochestrate.Rag.{KnowledgeStore}
use ochestrate.Models.{ModelRouter}
use ochestrate.Tools.Hub.{ToolHub}
use ochestrate.Agents.Planner.{Step}
use ochestrate.Agents.Executor
use ochestrate.Agents.Executor.{execute}

-- the interpreter's functions, and LangChain's template where it is installed
pub record Runtime : Type 0 where
  pub lower : Text → Text
  pub show_roles : List Text → Text
  pub executor : Executor.Runtime
  pub template : Option (Rendering → Text)

-- `OrchestratorService`, with the knowledge store behind its retriever
pub record Orchestrator (W : Type 0) : Type 0 where
  pub hub : ToolHub W
  pub memory : MemoryService
  pub store : KnowledgeStore
  pub router : ModelRouter
  pub context : ContextManager
  pub prompt_tokens : ℕ
  pub max_skill_items : ℕ

-- the dict that the nodes hand on
pub record State : Type 0 where
  pub request : UnifiedRequest
  pub trace_id : Text
  pub planner_steps : List Step
  pub citations : List Citation
  pub actions : List Action
  pub answer : Text
  pub confidence : ℕ
  pub fallback_triggered : Bool

-- `value or ""`
abbrev pub or_blank : Option Text → Text
or_blank none = []
or_blank (some t) = t

-- `request.metadata.get("role", "employee")`
abbrev pub role_or_employee : Option Value → Value
role_or_employee none = Value.str (codes "employee")
role_or_employee (some v) = v

abbrev pub task_type_text : TaskType → Text
task_type_text qa = codes "qa"
task_type_text automation = codes "automation"
task_type_text analysis = codes "analysis"

abbrev pub sensitivity_text : Sensitivity → Text
sensitivity_text low = codes "low"
sensitivity_text medium = codes "medium"
sensitivity_text high = codes "high"

abbrev pub snippet_of : Citation → Text
snippet_of c = c.snippet

-- each step with the identifier that its audit event gets
unfoldable pub numbered : (ℕ → Text) → ℕ → List Step → List (Text × Step)
numbered uuid n [] = []
numbered uuid n (s ∷ ss) = (uuid n, s) ∷ numbered uuid (suc n) ss

unfoldable pub initial : UnifiedRequest → Text → State
initial request trace_id = record {
  request = request;
  trace_id = trace_id;
  planner_steps = [];
  citations = [];
  actions = [];
  answer = [];
  confidence = 0;
  fallback_triggered = false;
}

abbrev pub caller_of : UnifiedRequest → Text → Executor.Caller
caller_of request trace_id = record {
  user_role = role_or_employee (lookup (codes "role") request.metadata);
  trace_id = trace_id;
  tenant_id = or_blank request.tenant_id;
  user_id = or_blank request.user_id;
}

-- the text that is remembered of a request and its answer
abbrev pub turn_text : UnifiedRequest → Text → Text
turn_text request answer = codes "Q:" ++ (request.input ++ (codes "\nA:" ++ take 300 answer))
