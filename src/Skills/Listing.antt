-- ===== src/Skills/Listing.antt =====
-- On the sorting in app/skills/center.py: what is in a list or a dict is in what comes out of it.
use ochestrate.Base.{
  ◌≡◌, ◌⊎◌, inl, inr, sym, ap, ◌∙◌, Bool-cases, some, List, [], ◌∷◌, ◌==◌, if◌then◌else◌,
}
use mathlib.Core.Path.{subst}
use ochestrate.Text.{Text, text_eq}
use ochestrate.Dict.{Dict, lookup, values}
use ochestrate.Tools.Security.Admission.{Among}
use ochestrate.Storage.Rows.{some_inj}
use ochestrate.Skills.Versions.{text_gt}
use ochestrate.Skills.{SkillSpec, place_by, sort_by}

-- an item of the list that a place or a sort gives back
pub Among-place_by {ℓ} :
    {A : Type ℓ} (P : A → Type 0) (name : A → Text) (x : A) (ys : List A)
    → P x ⊎ Among P ys
    → Among P (place_by name x ys)
unfolding place_by
Among-place_by P name x [] h = h
Among-place_by P name x (y ∷ ys) h = elim (Bool-cases (text_gt (name x) (name y))) [
  | inl after ↦ rw (after) (elim h [
    | inl it ↦ inr (Among-place_by P name x ys (inl it))
    | inr (inl first) ↦ inl first
    | inr (inr rest) ↦ inr (Among-place_by P name x ys (inr rest))
  ])
  | inr before ↦ rw (before) h
]

pub Among-sort_by {ℓ} :
    {A : Type ℓ} (P : A → Type 0) (name : A → Text) (xs : List A)
    → Among P xs
    → Among P (sort_by name xs)
unfolding sort_by
Among-sort_by P name [] h = h
Among-sort_by P name (x ∷ xs) h = elim h [
  | inl it ↦ Among-place_by P name x (sort_by name xs) (inl it)
  | inr rest ↦ Among-place_by P name x (sort_by name xs) (inr (Among-sort_by P name xs rest))
]

pub Among-values :
    (P : SkillSpec → Type 0) (k : Text) (v : SkillSpec) (d : Dict Text SkillSpec)
    → lookup k d ≡ some v
    → P v
    → Among P (values d)
unfolding lookup values
Among-values P k v [] h p = absurd cc
Among-values P k v ((j, w) ∷ d) h p = elim (Bool-cases (j == k)) [
  | inl same ↦
      inl (subst P (sym (some_inj (sym (ap (λ b. if b then some w else lookup k d) same) ∙ h))) p)
  | inr other ↦
      inr (Among-values P k v d (sym (ap (λ b. if b then some w else lookup k d) other) ∙ h) p)
]
