-- ===== src/Skills/Tests.antt =====
-- Skills of the deployment `mail` in three versions.
use ochestrate.Base.{
  ℕ, ◌≡◌, refl, true, false, Option, none, some, List, [], ◌∷◌, ◌*◌, ◌+◌, ◌-◌, leb, ◌&&◌, text_beq,
  keep, All, if◌then◌else◌,
}
use ochestrate.Text.{Text, text_eq, codes, starts_with, ends_with, split_on}
use ochestrate.Dict.{lookup, insert, values}
use ochestrate.Tools.Values.{ℤ, pos}
use ochestrate.Tools.Security.Admission.{Among}
use ochestrate.Skills.Versions.{text_gt, lex_gt, int_gt, int_eq}
use ochestrate.Skills.{
  SkillSpec, Library, SkillCenter, save_skill, load_skill, latest_skill, list_latest_skills,
  decode_all, sort_by, place_by, name_of, keep_latest, parts_gt, version_parts, version_gt,
  int_parts, restart,
}
use ochestrate.Skills.Saving.{load_skill-save_skill}
use ochestrate.Skills.Latest.{Numeric, list_latest_skills-Latest}

abbrev mail : Text → SkillSpec
mail version = record {
  skill_id = codes "mail";
  version = version;
  name = codes "Mail";
  prompt_template = codes "Write a mail.";
  config = [];
}

digits : ℕ → Text → Option ℕ
digits n [] = some n
digits n (c ∷ cs) = if leb 48 c && leb c 57 then digits (n * 10 + (c - 48)) cs else none

int_of : Text → Option ℤ
unfolding digits
int_of t = elim (digits 0 t) [ none ↦ none | some n ↦ some (pos n) ]

-- a codec that writes the version only
abbrev library : Library
library = record {
  encode = λ s. s.version;
  decode = λ t. some (mail t);
  int = int_of;
  matches = λ pattern name. starts_with (codes "mail_") name;
  can_write = λ name. true;
}

abbrev center : SkillCenter
center = record {
  files =
      (codes "mail_1.9.json", codes "1.9")
      ∷ (codes "mail_1.10.json", codes "1.10")
      ∷ (codes "mail_1.2.json", codes "1.2")
      ∷ [];
  cache = [];
}

-- `latest_skill` takes the last file by name, which is not the latest version.
latest_by_name : latest_skill library (codes "mail") center ≡ some (some (mail (codes "1.9")))
unfolding latest_skill sort_by place_by text_gt starts_with
latest_by_name = refl

latest_by_version : list_latest_skills library center ≡ some (mail (codes "1.10") ∷ [])
unfolding list_latest_skills sort_by place_by text_gt ends_with text_beq decode_all lookup insert
    values version_gt int_of keep_latest parts_gt version_parts int_parts split_on lex_gt int_eq
    int_gt
latest_by_version = refl

abbrev saved : SkillCenter
saved = record {
  files = (codes "mail_1.9.json", codes "1.9") ∷ [];
  cache = (codes "mail:1.9", mail (codes "1.9")) ∷ [];
}

is_saved : save_skill library (mail (codes "1.9")) (record { files = []; cache = [] }) ≡ some saved
unfolding save_skill insert
is_saved = refl

load_skill-save_skill_example :
    (load_skill library (codes "mail") (codes "1.9") saved ≡ some (mail (codes "1.9"), saved))
    × ((c'' : SkillCenter) × (load_skill library (codes "mail") (codes "1.9") (restart saved)
          ≡ some (mail (codes "1.9"), c'')))
load_skill-save_skill_example =
    load_skill-save_skill library (mail (codes "1.9")) (record { files = []; cache = [] }) saved
      is_saved refl

abbrev three : List SkillSpec
three = mail (codes "1.10") ∷ mail (codes "1.2") ∷ mail (codes "1.9") ∷ []

are_decoded :
    decode_all library
      (sort_by name_of (keep (λ f. ends_with (codes ".json") (name_of f)) center.files))
    ≡ some three
unfolding sort_by place_by text_gt ends_with text_beq decode_all
are_decoded = refl

versions-Numeric : All (λ s. Numeric library s.version) three
unfolding version_parts int_parts split_on int_of
versions-Numeric = ((_, refl), ((_, refl), ((_, refl), tt)))

list_latest_skills-Latest_example :
    (listed : List SkillSpec) × (list_latest_skills library center ≡ some listed)
    × All
        (λ s.
          Among
            (λ e. (e.skill_id ≡ s.skill_id) × (version_gt library s.version e.version ≡ false))
            listed)
        three
list_latest_skills-Latest_example =
    list_latest_skills-Latest library center three are_decoded versions-Numeric
