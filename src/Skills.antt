-- ===== src/Skills.antt =====
-- app/skills/center.py: `SkillCenter`. The directory is a dict from the names of its files to their
-- texts; the JSON codec, `int` of a text, the matching of a file name with a pattern, and whether
-- the file system takes a name are the fields of `Library`.
pub mod Versions
pub mod Saving
pub mod Listing
pub mod Latest
pub mod Context
mod Tests
use ochestrate.Base.{
  ℕ, Bool, true, false, ◌&&◌, ◌||◌, not, Option, none, some, List, [], ◌∷◌, ◌++◌, ◌==◌, keep,
  if◌then◌else◌,
}
use ochestrate.Text.{Text, text_eq, codes, is_empty, ends_with, split_on}
use ochestrate.Dict.{Dict, lookup, has_key, insert, values}
use ochestrate.Schemas.{Params}
use ochestrate.Tools.Values.{ℤ}
use ochestrate.Skills.Versions.{text_gt, lex_gt}

pub record SkillSpec : Type 0 where
  pub skill_id : Text
  pub version : Text
  pub name : Text
  pub prompt_template : Text
  pub config : Params

pub record Library : Type 0 where
  pub encode : SkillSpec → Text
  pub decode : Text → Option SkillSpec
  pub int : Text → Option ℤ
  pub matches : Text → Text → Bool
  pub can_write : Text → Bool

pub record SkillCenter : Type 0 where
  pub files : Dict Text Text
  pub cache : Dict Text SkillSpec

-- `SkillCenter._key`
unfoldable pub key : Text → Text → Text
key skill_id version = skill_id ++ (codes ":" ++ version)

unfoldable pub file_name : Text → Text → Text
file_name skill_id version = skill_id ++ (codes "_" ++ (version ++ codes ".json"))

-- a name and what belongs to it, before the first that is not less
unfoldable pub place_by {ℓ} : {A : Type ℓ} → (A → Text) → A → List A → List A
place_by name x [] = x ∷ []
place_by name x (y ∷ ys) =
    let rest = place_by name x ys in if text_gt (name x) (name y) then y ∷ rest else x ∷ y ∷ ys

-- `sorted(items, key=name)`
unfoldable pub sort_by {ℓ} : {A : Type ℓ} → (A → Text) → List A → List A
unfolding place_by
sort_by name [] = []
sort_by name (x ∷ xs) = place_by name x (sort_by name xs)

abbrev pub last {ℓ} : {A : Type ℓ} → List A → Option A
last [] = none
last (x ∷ []) = some x
last (x ∷ y ∷ ys) = last (y ∷ ys)

abbrev pub name_of : Text × Text → Text
name_of (name, text) = name

abbrev pub id_of : SkillSpec → Text
id_of s = s.skill_id

unfoldable pub int_parts : (Text → Option ℤ) → List Text → Option (List ℤ)
int_parts int [] = some []
int_parts int (t ∷ ts) = elim (int t) [
  | none ↦ none
  | some z ↦ elim (int_parts int ts) [ none ↦ none | some zs ↦ some (z ∷ zs) ]
]

-- a new process over the same directory
abbrev pub restart : SkillCenter → SkillCenter
restart c = record c { cache = [] }

module _ (l : Library) where
  -- `[int(x) for x in version.split(".")]`
  unfoldable pub version_parts : Text → Option (List ℤ)
  version_parts version = int_parts l.int (split_on 46 version)

  unfoldable pub parts_gt : Text → Text → Option (List ℤ) → Option (List ℤ) → Bool
  parts_gt new old (some xs) (some ys) = lex_gt xs ys
  parts_gt new old (some xs) none = text_gt new old
  parts_gt new old none o = text_gt new old

  -- `SkillCenter._version_gt`
  unfoldable pub version_gt : Text → Text → Bool
  version_gt new old = parts_gt new old (version_parts new) (version_parts old)

  -- `SkillCenter.save_skill`; none where the file cannot be written
  unfoldable pub save_skill : SkillSpec → SkillCenter → Option SkillCenter
  unfolding key file_name
  save_skill skill c =
      if l.can_write (file_name skill.skill_id skill.version)
      then some (record {
        files = insert (file_name skill.skill_id skill.version) (l.encode skill) c.files;
        cache = insert (key skill.skill_id skill.version) skill c.cache;
      })
      else none

  -- `SkillCenter.generate_skill`
  unfoldable pub generate_skill :
      Text → Text → Text → Option Params → Text → SkillCenter → Option (SkillSpec × SkillCenter)
  generate_skill skill_id name prompt_template config version c =
      let skill : SkillSpec = record {
        skill_id = skill_id;
        version = version;
        name = name;
        prompt_template = prompt_template;
        config = elim config [ none ↦ [] | some d ↦ d ];
      } in
      elim (save_skill skill c) [ none ↦ none | some c' ↦ some (skill, c') ]

  abbrev pub decode_file : Option Text → Option SkillSpec
  decode_file none = none
  decode_file (some text) = l.decode text

  -- `SkillCenter.load_skill`; none where the file is missing or is not read back
  unfoldable pub load_skill : Text → Text → SkillCenter → Option (SkillSpec × SkillCenter)
  unfolding key file_name
  load_skill skill_id version c = elim (lookup (key skill_id version) c.cache) [
    | some skill ↦ some (skill, c)
    | none ↦ elim (decode_file (lookup (file_name skill_id version) c.files)) [
      | none ↦ none
      | some skill ↦ some (skill, record c { cache = insert (key skill_id version) skill c.cache })
    ]
  ]

  -- `SkillCenter.latest_skill`: the outer Option is for a file that is not read back
  unfoldable pub latest_skill : Text → SkillCenter → Option (Option SkillSpec)
  latest_skill skill_id c =
      elim (last (
        sort_by name_of
          (keep (λ f. l.matches (skill_id ++ codes "_*.json") (name_of f)) c.files))) [
            | none ↦ some none
            | some (name, text) ↦ elim (l.decode text) [
              | none ↦ none
              | some skill ↦ some (some skill)
            ]
          ]

  unfoldable pub decode_all : List (Text × Text) → Option (List SkillSpec)
  decode_all [] = some []
  decode_all ((name, text) ∷ fs) = elim (l.decode text) [
    | none ↦ none
    | some skill ↦ elim (decode_all fs) [ none ↦ none | some skills ↦ some (skill ∷ skills) ]
  ]

  unfoldable pub is_newer : SkillSpec → Option SkillSpec → Bool
  is_newer spec none = true
  is_newer spec (some existing) = version_gt spec.version existing.version

  -- the loop of `list_latest_skills`
  unfoldable pub keep_latest : List SkillSpec → Dict Text SkillSpec → Dict Text SkillSpec
  unfolding is_newer
  keep_latest [] by_skill_id = by_skill_id
  keep_latest (spec ∷ specs) by_skill_id =
      if is_newer spec (lookup spec.skill_id by_skill_id)
      then keep_latest specs (insert spec.skill_id spec by_skill_id)
      else keep_latest specs by_skill_id

  -- `SkillCenter.list_latest_skills`
  unfoldable pub list_latest_skills : SkillCenter → Option (List SkillSpec)
  list_latest_skills c =
      elim (decode_all
        (sort_by name_of (keep (λ f. ends_with (codes ".json") (name_of f)) c.files))) [
          | none ↦ none
          | some specs ↦ some (sort_by id_of (values (keep_latest specs [])))
        ]
