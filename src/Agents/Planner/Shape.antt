-- ===== src/Agents/Planner/Shape.antt =====
-- On app/agents/planner.py: what every plan looks like.
use ochestrate.Base.{
  ◌≡◌, inl, inr, refl, Bool, true, false, ◌||◌, Option, none, some, List, [], ◌∷◌, ◌==◌, any,
  if◌then◌else◌, All, All-append, Bool-cases, text_beq,
}
use ochestrate.Text.{Text, text_eq, codes, contains}
use ochestrate.Schemas.{Params, ToolPayload, UnifiedRequest, TaskType, automation, qa, analysis}
use ochestrate.Agents.Planner.{
  Step, validate_permissions, respond, tool, plan, plan_or, plan_by_type, or_respond, named_tools,
  step_from_payload, is_among, file_types, payload_params, when, send_email, create_calendar_event,
  web_search,
}

-- the tools that plans name
abbrev pub known_tools : List Text
known_tools =
    codes "file_tool"
    ∷ codes "web_search_tool"
    ∷ codes "web_fetch_tool"
    ∷ codes "database_tool"
    ∷ codes "send_email"
    ∷ codes "create_calendar_event"
    ∷ []

-- A step behind the validation: a known tool, or an answer.
abbrev pub IsAction : Step → Type 0
IsAction validate_permissions = ⊥
IsAction (respond instruction) = Unit
IsAction (tool tool_name params) = any (λ u. u == tool_name) known_tools ≡ true

-- The permissions are validated first and something is done then, or all there is to do is answer.
pub data IsPlan : List Step → Type 0 where
  guarded :
      (s : Step) (ss : List Step) → All IsAction (s ∷ ss) → IsPlan (validate_permissions ∷ s ∷ ss)
  answered : (instruction : Text) → IsPlan (respond instruction ∷ [])

when-IsAction : (b : Bool) (s : Step) → IsAction s → All IsAction (when b s)
when-IsAction true s h = (h, tt)
when-IsAction false s h = tt

or_respond-IsPlan :
    (ss : List Step) → All IsAction ss → IsPlan (validate_permissions ∷ or_respond ss)
unfolding or_respond
or_respond-IsPlan [] h = guarded _ [] (tt, tt)
or_respond-IsPlan (s ∷ ss) h = guarded s ss h

module _ (lower : Text → Text) where
  named_tools-IsAction : (input : Text) → All IsAction (named_tools lower input)
  unfolding named_tools text_beq
  named_tools-IsAction input =
      All-append IsAction _ _
        (when-IsAction (contains (codes "email") (lower input)) send_email refl)
        (All-append IsAction _ _
          (when-IsAction
            (contains (codes "calendar") (lower input) || contains (codes "meeting") (lower input))
            create_calendar_event refl)
          (when-IsAction
            (contains (codes "search") (lower input) || contains (codes "web") (lower input))
            (web_search input) refl))

  plan_by_type-IsPlan :
      (task_type : TaskType) (input : Text) → IsPlan (plan_by_type lower task_type input)
  unfolding plan_by_type
  plan_by_type-IsPlan automation input = or_respond-IsPlan _ (named_tools-IsAction input)
  plan_by_type-IsPlan qa input = answered _
  plan_by_type-IsPlan analysis input = answered _

  -- A step that a payload gives is an action.
  abbrev IsActionIfAny : Option Step → Type 0
  IsActionIfAny none = Unit
  IsActionIfAny (some s) = IsAction s

  web_tool-IsAction :
      (b : Bool) (params : Params)
      → IsAction (tool (if b then codes "web_search_tool" else codes "web_fetch_tool") params)
  unfolding text_beq
  web_tool-IsAction true params = refl
  web_tool-IsAction false params = refl

  step_from_payload-IsAction :
      (payload : Option ToolPayload) → IsActionIfAny (step_from_payload lower payload)
  unfolding step_from_payload text_beq
  step_from_payload-IsAction none = tt
  step_from_payload-IsAction (some payload) =
      let t = lower payload.resource_type in
      elim (Bool-cases (is_among t file_types)) [
        | inl file ↦ rw (file) refl
        | inr no_file ↦ elim (Bool-cases (is_among t (codes "web" ∷ codes "url" ∷ []))) [
          | inl web ↦
              rw (no_file, web)
                (web_tool-IsAction (lower payload.operation == codes "search")
                  (payload_params lower payload))
          | inr no_web ↦ elim (Bool-cases (is_among t (codes "database" ∷ codes "sql" ∷ []))) [
            | inl sql ↦ rw (no_file, no_web, sql) refl
            | inr no_sql ↦ rw (no_file, no_web, no_sql) tt
          ]
        ]
      ]

  plan_or-IsPlan :
      (o : Option Step) (task_type : TaskType) (input : Text)
      → IsActionIfAny o
      → IsPlan (plan_or lower o task_type input)
  unfolding plan_or
  plan_or-IsPlan (some s) task_type input h = guarded s [] (h, tt)
  plan_or-IsPlan none task_type input h = plan_by_type-IsPlan task_type input

  -- A plan validates the permissions first and has then at least one step, each of a tool that is
  -- known or an answer; or it is a single answer.
  pub plan-IsPlan : (request : UnifiedRequest) → IsPlan (plan lower request)
  unfolding plan
  plan-IsPlan request =
      plan_or-IsPlan (step_from_payload lower request.tool_payload) request.task_type request.input
        (step_from_payload-IsAction request.tool_payload)
