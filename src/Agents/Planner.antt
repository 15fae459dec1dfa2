-- ===== src/Agents/Planner.antt =====
-- app/agents/planner.py. `str.lower` is the interpreter's, hence a parameter.
pub mod Shape
mod Tests
use ochestrate.Base.{
  ℕ, Bool, true, false, ◌||◌, Option, none, some, List, [], ◌∷◌, ◌++◌, ◌==◌, any, if◌then◌else◌,
}
use ochestrate.Text.{Text, text_eq, codes, contains}
use ochestrate.Dict.{Dict}
use ochestrate.Schemas.{
  Value, Params, ToolPayload, UnifiedRequest, TaskType, automation, qa, analysis,
}

pub data Step : Type 0 where
  validate_permissions : Step
  respond : Text → Step
  tool : Text → Params → Step

abbrev pub optional : Option Text → Value
optional none = Value.null
optional (some t) = Value.str t

unfoldable pub is_among : Text → List Text → Bool
is_among t ts = any (λ u. u == t) ts

abbrev pub file_types : List Text
file_types =
    codes "file"
    ∷ codes "json"
    ∷ codes "doc"
    ∷ codes "docx"
    ∷ codes "excel"
    ∷ codes "xlsx"
    ∷ codes "pdf"
    ∷ codes "txt"
    ∷ codes "csv"
    ∷ []

abbrev pub send_email : Step
send_email = tool (codes "send_email") (
    (codes "to", Value.str (codes "unknown@company.com"))
    ∷ (codes "subject", Value.str (codes "Automated message"))
    ∷ [])

abbrev pub create_calendar_event : Step
create_calendar_event = tool (codes "create_calendar_event") (
    (codes "title", Value.str (codes "Automated Event"))
    ∷ (codes "when", Value.str (codes "tomorrow 10:00"))
    ∷ [])

abbrev pub web_search : Text → Step
web_search input = tool (codes "web_search_tool") (
    (codes "query", Value.str input)
    ∷ (codes "max_results", Value.num 5)
    ∷ (codes "include_fetch", Value.bool true)
    ∷ [])

-- `steps.append(step)` under a condition
abbrev pub when : Bool → Step → List Step
when b step = if b then step ∷ [] else []

-- where no tool was asked for, an answer
unfoldable pub or_respond : List Step → List Step
or_respond [] = respond (codes "no matching automation tool") ∷ []
or_respond (s ∷ ss) = s ∷ ss

module _ (lower : Text → Text) where
  abbrev pub payload_params : ToolPayload → Params
  payload_params payload =
      (codes "operation", Value.str (lower payload.operation))
      ∷ (codes "resource_type", Value.str (lower payload.resource_type))
      ∷ (codes "resource_path", optional payload.resource_path)
      ∷ (codes "url", optional payload.url)
      ∷ (codes "sql", optional payload.sql)
      ∷ (codes "options", Value.obj payload.options)
      ∷ (codes "content", payload.content)
      ∷ []

  -- `PlannerAgent._step_from_payload`
  unfoldable pub step_from_payload : Option ToolPayload → Option Step
  unfolding is_among
  step_from_payload none = none
  step_from_payload (some payload) =
      let resource_type = lower payload.resource_type in
      let operation = lower payload.operation in
      let params = payload_params payload in
      if is_among resource_type file_types
      then some (tool (codes "file_tool") params)
      else if is_among resource_type (codes "web" ∷ codes "url" ∷ [])
      then some (
          tool
            (if operation == codes "search"
              then codes "web_search_tool"
              else codes "web_fetch_tool")
            params)
      else if is_among resource_type (codes "database" ∷ codes "sql" ∷ [])
      then some (tool (codes "database_tool") params)
      else none

  -- the tools that words of the input ask for
  unfoldable pub named_tools : Text → List Step
  named_tools input =
      when (contains (codes "email") (lower input)) send_email
      ++ (when
            (contains (codes "calendar") (lower input) || contains (codes "meeting") (lower input))
            create_calendar_event
          ++ when (contains (codes "search") (lower input) || contains (codes "web") (lower input))
              (web_search input))

  unfoldable pub plan_by_type : TaskType → Text → List Step
  unfolding named_tools or_respond
  plan_by_type automation input = validate_permissions ∷ or_respond (named_tools input)
  plan_by_type qa input = respond (codes "answer user question") ∷ []
  plan_by_type analysis input = respond (codes "answer user question") ∷ []

  unfoldable pub plan_or : Option Step → TaskType → Text → List Step
  unfolding plan_by_type
  plan_or (some step) task_type input = validate_permissions ∷ step ∷ []
  plan_or none task_type input = plan_by_type task_type input

  -- `PlannerAgent.plan`
  unfoldable pub plan : UnifiedRequest → List Step
  unfolding step_from_payload plan_or
  plan request = plan_or (step_from_payload request.tool_payload) request.task_type request.input
