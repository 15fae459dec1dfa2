-- ===== src/Prompts.antt =====
-- app/prompts/assembly.py. LangChain's template, where it is installed, and the text of a list of
-- roles are parameters; a tool is the dict that `ToolHub.list_capabilities` gives.
mod Tests
use ochestrate.Base.{
  ℕ, ◌≤◌, ◌≡◌, max, inl, inr, arith, Bool, true, false, Option, none, some, List, [], ◌∷◌, ◌++◌,
  map, if◌then◌else◌, leb, ltb, take, Bool-cases,
}
use ochestrate.Text.{Text, text_eq, codes, is_empty, join, strip}
use ochestrate.Dict.{values}
use ochestrate.Schemas.{SkillContextMode, auto, force_all}
use ochestrate.Tools.Hub.{Tool, ToolHub}
use ochestrate.Context.{estimate_tokens, truncate}
use ochestrate.Context.Budget.{truncate-fits}

-- an entry of `ToolHub.list_capabilities`
pub record Capability : Type 0 where
  pub name : Text
  pub description : Text
  pub required_roles : List Text
  pub idempotent : Bool

-- `ToolHub.list_capabilities`
unfoldable pub list_capabilities : {W : Type 0} → ToolHub W → List Capability
list_capabilities h =
    map
      (λ tool. record {
        name = tool.name;
        description = tool.description;
        required_roles = tool.required_roles;
        idempotent = tool.idempotent;
      })
      (values h.registry)

pub record SkillContextItem : Type 0 where
  pub name : Text
  pub description : Text
  pub skill_path : Text
  pub version : Option Text
  pub explicit_enabled : Bool

pub record PromptAssemblyInput : Type 0 where
  pub system_policy : Text
  pub task : Text
  pub evidence : Text
  pub short_memory : Text
  pub long_memory : Text
  pub tools : List Capability
  pub skills : List SkillContextItem
  pub max_skill_items : ℕ
  pub skill_context_mode : SkillContextMode

-- the arguments of `_render_template`
pub record Rendering : Type 0 where
  pub system_policy : Text
  pub skills : Text
  pub tools : Text
  pub task : Text
  pub evidence : Text
  pub short_memory : Text
  pub long_memory : Text

unfoldable pub short_description : Text → Text
short_description description =
    if ltb 40 (estimate_tokens description) then truncate description 40 else description

unfoldable pub skill_line : SkillContextItem → Text
unfolding short_description
skill_line item =
    codes "- name: "
    ++ (item.name
        ++ (codes "; description: "
            ++ (short_description (strip item.description)
                ++ (codes "; skill_path: " ++ item.skill_path))))

unfoldable pub select_skills : SkillContextMode → ℕ → List SkillContextItem → List SkillContextItem
select_skills force_all n skills = skills
select_skills auto n skills = take n skills

-- `PromptAssemblyService._skills_section`
unfoldable pub skills_section : List SkillContextItem → ℕ → SkillContextMode → Text
unfolding skill_line select_skills
skills_section skills max_skill_items mode =
    if is_empty skills
    then codes "- none"
    else join (codes "\n") (map skill_line (select_skills mode max_skill_items skills))

-- `PromptAssemblyService._render_template` without a template
unfoldable pub render_sections : Rendering → Text
render_sections r = join (codes "\n\n") (
    (codes "[SYSTEM_POLICY]\n" ++ r.system_policy)
    ∷ (codes "[SKILLS]\n" ++ r.skills)
    ∷ (codes "[TOOLS]\n" ++ r.tools)
    ∷ (codes "[TASK]\n" ++ r.task)
    ∷ (codes "[EVIDENCE]\n" ++ r.evidence)
    ∷ (codes "[SHORT_MEMORY]\n" ++ r.short_memory)
    ∷ (codes "[LONG_MEMORY]\n" ++ r.long_memory)
    ∷ [])

unfoldable pub render_template : Option (Rendering → Text) → Rendering → Text
unfolding render_sections
render_template none r = render_sections r
render_template (some format) r = format r

module _ (show_roles : List Text → Text) where
  unfoldable pub tool_line : Capability → Text
  tool_line tool =
      codes "- "
      ++ (tool.name
          ++ (codes ": "
              ++ (tool.description
                  ++ (codes "; required_roles=" ++ show_roles tool.required_roles))))

  -- `PromptAssemblyService._tools_section`
  unfoldable pub tools_section : List Capability → Text
  unfolding tool_line
  tools_section tools =
      if is_empty tools then codes "- none" else join (codes "\n") (map tool_line tools)

  abbrev pub rendered : Option (Rendering → Text) → PromptAssemblyInput → Text
  rendered template parts = render_template template (record {
    system_policy = parts.system_policy;
    skills = skills_section parts.skills parts.max_skill_items parts.skill_context_mode;
    tools = tools_section parts.tools;
    task = parts.task;
    evidence = parts.evidence;
    short_memory = parts.short_memory;
    long_memory = parts.long_memory;
  })

  unfoldable pub within_budget : ℕ → Text → Text
  within_budget max_tokens text =
      if leb (estimate_tokens text) max_tokens then text else truncate text max_tokens

  -- `PromptAssemblyService.assemble`
  unfoldable pub assemble : ℕ → Option (Rendering → Text) → PromptAssemblyInput → Text
  unfolding within_budget
  assemble max_tokens template parts = within_budget max_tokens (rendered template parts)

  -- Whatever the template makes of the sections, the prompt is estimated within the budget, or at
  -- one where the budget is nothing.
  estimate-assemble :
      (max_tokens : ℕ) (template : Option (Rendering → Text)) (parts : PromptAssemblyInput)
      → estimate_tokens (assemble max_tokens template parts) ≤ max max_tokens 1
  unfolding assemble within_budget
  estimate-assemble max_tokens template parts =
      elim (Bool-cases (leb (estimate_tokens (rendered template parts)) max_tokens)) [
        | inl fits ↦ rw fits (ground arith)
        | inr over ↦ rw over (truncate-fits (rendered template parts) max_tokens)
      ]
