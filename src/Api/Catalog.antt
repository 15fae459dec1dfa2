-- ===== src/Api/Catalog.antt =====
-- app/api/v1/skills.py, for a request that has passed `require_auth_context`.
use ochestrate.Base.{none, some}
use ochestrate.Text.{Text, text_eq, codes}
use ochestrate.Dict.{lookup}
use ochestrate.Schemas.{Params}
use ochestrate.Skills.{Library, SkillSpec, SkillCenter, generate_skill, load_skill, file_name}
use ochestrate.Api.{not_found, internal, Response, returned, refused}

pub record CreateSkillRequest : Type 0 where
  pub skill_id : Text
  pub version : Text
  pub name : Text
  pub prompt_template : Text
  pub config : Params

module _ (l : Library) where
  -- `create_skill`
  unfoldable pub post_skill : CreateSkillRequest → SkillCenter → Response SkillSpec × SkillCenter
  post_skill payload c =
      elim (generate_skill l payload.skill_id payload.name payload.prompt_template
        (some payload.config) payload.version c) [
          | none ↦ (refused (internal (codes "the file cannot be written")), c)
          | some (skill, c') ↦ (returned skill, c')
        ]

  -- `get_skill`: a missing file is not found, and one that is not read back is an internal error
  unfoldable pub get_skill : Text → Text → SkillCenter → Response SkillSpec × SkillCenter
  get_skill skill_id version c = elim (load_skill l skill_id version c) [
    | some (skill, c') ↦ (returned skill, c')
    | none ↦ elim (lookup (file_name skill_id version) c.files) [
      | none ↦ (refused (not_found (codes "No such file or directory")), c)
      | some text ↦ (refused (internal (codes "the file is not read back")), c)
    ]
  ]
