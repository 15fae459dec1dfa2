-- ===== src/Skills/Context.antt =====
-- app/skills/context.py: `SkillContextService`. The SKILL.md files that the scan finds are an
-- argument; `str.lower`, `splitlines`, `re.sub` and the resolution of paths are the fields of
-- `Scanning`.
use ochestrate.Base.{
  Bool, true, false, ◌&&◌, not, Option, none, some, List, [], ◌∷◌, ◌++◌, map, take, length, ltb,
  nat_beq, if◌then◌else◌,
}
use ochestrate.Text.{Text, text_eq, codes, is_empty, strip, starts_with}
use ochestrate.Dict.{Dict, lookup, insert, values}
use ochestrate.Prompts.{SkillContextItem}
use ochestrate.Skills.{
  SkillSpec, Library, SkillCenter, version_gt, file_name, sort_by, list_latest_skills,
}

pub record Scanning : Type 0 where
  pub lower : Text → Text
  pub splitlines : Text → List Text
  pub one_space : Text → Text
  pub resolve : Text → Text

-- a SKILL.md file: its path, the name of its folder, and its text
pub record SkillFile : Type 0 where
  pub path : Text
  pub folder : Text
  pub text : Text

-- `text.replace("\n", " ")`
unfoldable pub spaces_for_newlines : Text → Text
spaces_for_newlines = map (λ c. if nat_beq c 10 then 32 else c)

-- `text[:180] + ("..." if len(text) > 180 else "")`
unfoldable pub at_most_180 : Text → Text
at_most_180 t = if ltb 180 (length t) then take 180 t ++ codes "..." else t

-- `text.lstrip("#")`
unfoldable pub drop_marks : Text → Text
drop_marks [] = []
drop_marks (c ∷ cs) = let rest = drop_marks cs in if nat_beq c 35 then rest else c ∷ cs

abbrev pub or_else_text : Text → Text → Text
or_else_text [] other = other
or_else_text (c ∷ cs) other = c ∷ cs

-- `SkillContextService._extract_name` of the lines
unfoldable pub extract_name : Text → List Text → Text
extract_name folder [] = folder
extract_name folder (line ∷ lines) =
    let rest = extract_name folder lines in
    if starts_with (codes "#") (strip line)
    then or_else_text (strip (drop_marks (strip line))) folder
    else rest

-- `SkillContextService._extract_description` of the lines
unfoldable pub extract_description : (Text → Text) → List Text → Text
unfolding at_most_180
extract_description one_space [] = codes "Skill loaded from SKILL.md."
extract_description one_space (line ∷ lines) =
    let rest = extract_description one_space lines in
    if not (is_empty (strip line)) && not (starts_with (codes "#") (strip line))
    then at_most_180 (one_space (strip line))
    else rest

module _ (l : Library) (sc : Scanning) where
  -- an item of `_load_from_skill_center`
  unfoldable pub center_item : SkillSpec → SkillContextItem
  unfolding at_most_180
  center_item skill = record {
    name = skill.name;
    description =
        or_else_text (at_most_180 (spaces_for_newlines (strip skill.prompt_template)))
          (codes "Skill generated from SkillCenter.");
    skill_path = sc.resolve (file_name skill.skill_id skill.version);
    version = some skill.version;
    explicit_enabled = true;
  }

  -- an item of `_load_from_skill_md`
  unfoldable pub file_item : SkillFile → SkillContextItem
  file_item f = record {
    name = extract_name f.folder (sc.splitlines f.text);
    description = extract_description sc.one_space (sc.splitlines f.text);
    skill_path = sc.resolve f.path;
    version = none;
    explicit_enabled = false;
  }

  -- `SkillContextService._version_gt`
  unfoldable pub context_version_gt : Option Text → Option Text → Bool
  context_version_gt none old = false
  context_version_gt (some []) old = false
  context_version_gt (some (c ∷ cs)) none = true
  context_version_gt (some (c ∷ cs)) (some []) = true
  context_version_gt (some (c ∷ cs)) (some (d ∷ ds)) = version_gt l (c ∷ cs) (d ∷ ds)

  unfoldable pub takes_place : SkillContextItem → Option SkillContextItem → Bool
  takes_place item none = true
  takes_place item (some existing) =
      if item.explicit_enabled && not existing.explicit_enabled
      then true
      else context_version_gt item.version existing.version

  unfoldable pub add_files :
      List SkillContextItem → Dict Text SkillContextItem → Dict Text SkillContextItem
  add_files [] merged = merged
  add_files (item ∷ items) merged = add_files items (insert (sc.lower item.name) item merged)

  unfoldable pub add_center :
      List SkillContextItem → Dict Text SkillContextItem → Dict Text SkillContextItem
  unfolding takes_place
  add_center [] merged = merged
  add_center (item ∷ items) merged =
      if takes_place item (lookup (sc.lower item.name) merged)
      then add_center items (insert (sc.lower item.name) item merged)
      else add_center items merged

  abbrev pub lower_name : SkillContextItem → Text
  lower_name item = sc.lower item.name

  -- `SkillContextService.load`; none where a file of the center is not read back
  unfoldable pub load : List SkillFile → SkillCenter → Option (List SkillContextItem)
  unfolding center_item file_item
  load found c = elim (list_latest_skills l c) [
    | none ↦ none
    | some specs ↦ some (
        sort_by lower_name
          (values (add_center (map center_item specs) (add_files (map file_item found) []))))
  ]
