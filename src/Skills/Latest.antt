-- ===== src/Skills/Latest.antt =====
-- On app/skills/center.py: `list_latest_skills` lists the latest versions.
use ochestrate.Base.{
  ◌≡◌, inl, inr, refl, sym, ap, ◌∙◌, true, false, Bool-cases, some, Option-cases, List, [], ◌∷◌,
  ◌==◌, All, All-imp, keep, text_beq_iff,
}
use mathlib.Core.Path.{subst}
use mathlib.Core.Bool.{false≢true}
use ochestrate.Text.{Text, text_eq, codes, ends_with}
use ochestrate.Dict.{Dict, lookup, insert, values, lookup-insert, lookup-insert_self}
use ochestrate.Tools.Values.{ℤ}
use ochestrate.Tools.Security.Admission.{Among}
use ochestrate.Skills.Versions.{lex_gt, lex_gt_irrefl, lex_gt_trans}
use ochestrate.Storage.Rows.{some_inj}
use ochestrate.Skills.Listing.{Among-sort_by, Among-values}
use ochestrate.Skills.{
  SkillSpec, Library, SkillCenter, version_parts, version_gt, parts_gt, is_newer, keep_latest,
  sort_by, id_of, name_of, decode_all, list_latest_skills,
}

module _ (l : Library) where
  -- a version that is a list of numbers
  abbrev pub Numeric : Text → Type 0
  Numeric v = (zs : List ℤ) × (version_parts l v ≡ some zs)

  version_gt_numeric :
      (v u : Text) (xs ys : List ℤ)
      → version_parts l v ≡ some xs
      → version_parts l u ≡ some ys
      → version_gt l v u ≡ lex_gt xs ys
  unfolding version_gt parts_gt
  version_gt_numeric v u xs ys p q = rw (p, q)

  pub version_gt_irrefl : (v : Text) → Numeric v → version_gt l v v ≡ false
  version_gt_irrefl v (xs, p) = version_gt_numeric v v xs xs p p ∙ lex_gt_irrefl xs

  pub version_gt_trans :
      (u v w : Text)
      → Numeric u
      → Numeric v
      → Numeric w
      → version_gt l u v ≡ true
      → version_gt l v w ≡ true
      → version_gt l u w ≡ true
  version_gt_trans u v w (xs, p) (ys, q) (zs, r) g h =
      version_gt_numeric u w xs zs p r
      ∙ lex_gt_trans xs ys zs (sym (version_gt_numeric u v xs ys p q) ∙ g)
          (sym (version_gt_numeric v w ys zs q r) ∙ h)

  -- The dict has a skill of the same identifier, whose version is a list of numbers that is not less.
  pub record Covered (d : Dict Text SkillSpec) (s : SkillSpec) : Type 0 where
    pub best : SkillSpec
    pub found : lookup s.skill_id d ≡ some best
    pub same_id : best.skill_id ≡ s.skill_id
    pub numeric : Numeric best.version
    pub not_newer : version_gt l s.version best.version ≡ false

  module _ (d : Dict Text SkillSpec) (new : SkillSpec) (new_numeric : Numeric new.version) where
    inserted-Covers : Covered (insert new.skill_id new d) new
    inserted-Covers = record {
      best = new;
      found = lookup-insert_self new.skill_id new d;
      same_id = refl;
      numeric = new_numeric;
      not_newer = version_gt_irrefl new.version new_numeric;
    }

    not_above :
        (s : SkillSpec)
        → Numeric s.version
        → is_newer l new (lookup new.skill_id d) ≡ true
        → Covered d s
        → new.skill_id ≡ s.skill_id
        → version_gt l s.version new.version ≡ false
    unfolding is_newer
    not_above s s_numeric newer c same = elim (Bool-cases (version_gt l s.version new.version)) [
      | inr lower ↦ lower
      | inl higher ↦
          let above : version_gt l new.version c.best.version ≡ true =
            sym (ap (is_newer l new) (ap (λ k. lookup k d) same ∙ c.found)) ∙ newer in
          let beyond =
            version_gt_trans s.version new.version c.best.version s_numeric new_numeric c.numeric
              higher above in
          absurd (false≢true (sym c.not_newer ∙ beyond))
    ]

    -- What was covered still is, after an insertion of what is newer.
    kept-Covers :
        (s : SkillSpec)
        → Numeric s.version
        → is_newer l new (lookup new.skill_id d) ≡ true
        → Covered d s
        → Covered (insert new.skill_id new d) s
    unfolding is_newer
    kept-Covers s s_numeric newer c = elim (Bool-cases (new.skill_id == s.skill_id)) [
      | inr other ↦ record {
        best = c.best;
        found = lookup-insert new.skill_id s.skill_id new d ∙ rw (other) c.found;
        same_id = c.same_id;
        numeric = c.numeric;
        not_newer = c.not_newer;
      }
      | inl same ↦ record {
        best = new;
        found = lookup-insert new.skill_id s.skill_id new d ∙ rw (same) refl;
        same_id = (text_beq_iff new.skill_id s.skill_id).0 same;
        numeric = new_numeric;
        not_newer = not_above s s_numeric newer c ((text_beq_iff new.skill_id s.skill_id).0 same);
      }
    ]

  -- Each skill of the dict stands under its identifier, and its version is a list of numbers.
  abbrev pub Sound : Dict Text SkillSpec → Type 0
  Sound d = (k : Text) (e : SkillSpec) → lookup k d ≡ some e → (e.skill_id ≡ k) × Numeric e.version

  insert-Sound :
      (d : Dict Text SkillSpec) (new : SkillSpec)
      → Numeric new.version
      → Sound d
      → Sound (insert new.skill_id new d)
  insert-Sound d new new_numeric sound k e h = elim (Bool-cases (new.skill_id == k)) [
    | inl same ↦
        let is_new : new ≡ e =
          some_inj (sym (lookup-insert new.skill_id k new d ∙ rw (same) refl) ∙ h) in
        subst (λ x. (x.skill_id ≡ k) × Numeric x.version) is_new
          ((text_beq_iff new.skill_id k).0 same, new_numeric)
    | inr other ↦ sound k e (sym (lookup-insert new.skill_id k new d ∙ rw (other) refl) ∙ h)
  ]

  older-Covered :
      (d : Dict Text SkillSpec) (new : SkillSpec)
      → Sound d
      → is_newer l new (lookup new.skill_id d) ≡ false
      → Covered d new
  unfolding is_newer
  older-Covered d new sound older = elim (Option-cases (lookup new.skill_id d)) [
    | inl absent ↦ absurd (false≢true (sym older ∙ ap (is_newer l new) absent))
    | inr (e, found) ↦
        let (same, numeric) = sound new.skill_id e found in
        record {
          best = e;
          found = found;
          same_id = same;
          numeric = numeric;
          not_newer = sym (ap (is_newer l new) found) ∙ older;
        }
  ]

  nothing_there : (k : Text) (e : SkillSpec) → lookup k [] ≡ some e → ⊥
  unfolding lookup
  nothing_there k e h = cc

  keep_latest-newer :
      (new : SkillSpec) (specs : List SkillSpec) (d : Dict Text SkillSpec)
      → is_newer l new (lookup new.skill_id d) ≡ true
      → keep_latest l (new ∷ specs) d ≡ keep_latest l specs (insert new.skill_id new d)
  unfolding keep_latest
  keep_latest-newer new specs d newer = rw (newer)

  keep_latest-older :
      (new : SkillSpec) (specs : List SkillSpec) (d : Dict Text SkillSpec)
      → is_newer l new (lookup new.skill_id d) ≡ false
      → keep_latest l (new ∷ specs) d ≡ keep_latest l specs d
  unfolding keep_latest
  keep_latest-older new specs d older = rw (older)

  keep_latest-Covers :
      (specs xs : List SkillSpec) (d : Dict Text SkillSpec)
      → Sound d
      → All (λ s. Numeric s.version) specs
      → All (λ s. Numeric s.version × Covered d s) xs
      → All (Covered (keep_latest l specs d)) xs × All (Covered (keep_latest l specs d)) specs
  unfolding keep_latest
  keep_latest-Covers [] xs d sound h covered = (All-imp xs (λ s. λ p. p.1) covered, tt)
  keep_latest-Covers (new ∷ specs) xs d sound h covered =
      elim (Bool-cases (is_newer l new (lookup new.skill_id d))) [
        | inl newer ↦
            let d' = insert new.skill_id new d in
            let rest = keep_latest-Covers specs (new ∷ xs) d' (insert-Sound d new h.0 sound) h.1 (
              (h.0, inserted-Covers d new h.0),
              All-imp xs (λ s. λ p. (p.0, kept-Covers d new h.0 s p.0 newer p.1)) covered,
            ) in
            subst (λ k. All (Covered k) xs × All (Covered k) (new ∷ specs))
              (sym (keep_latest-newer new specs d newer)) (rest.0.1, (rest.0.0, rest.1))
        | inr older ↦
            let rest =
              keep_latest-Covers specs (new ∷ xs) d sound h.1
                ((h.0, older-Covered d new sound older), covered) in
            subst (λ k. All (Covered k) xs × All (Covered k) (new ∷ specs))
              (sym (keep_latest-older new specs d older)) (rest.0.1, (rest.0.0, rest.1))
      ]

  -- Where all files of the directory are read back, to skills whose versions are lists of numbers:
  -- for each of these skills, the list of the latest has one of the same identifier, and the
  -- version of the skill is not greater than that one's.
  pub list_latest_skills-Latest :
      (c : SkillCenter) (specs : List SkillSpec)
      → decode_all l (sort_by name_of (keep (λ f. ends_with (codes ".json") (name_of f)) c.files))
        ≡ some specs
      → All (λ s. Numeric s.version) specs
      → (listed : List SkillSpec) × (list_latest_skills l c ≡ some listed)
        × All
            (λ s.
              Among
                (λ e. (e.skill_id ≡ s.skill_id) × (version_gt l s.version e.version ≡ false))
                listed)
            specs
  unfolding list_latest_skills
  list_latest_skills-Latest c specs decoded numeric =
      let latest = keep_latest l specs [] in
      let covered =
        keep_latest-Covers specs [] [] (λ k e h. absurd (nothing_there k e h)) numeric tt in
      (
        sort_by id_of (values latest),
        rw (decoded, list_latest_skills) refl,
        All-imp specs
            (λ s. λ k.
              Among-sort_by
                (λ e. (e.skill_id ≡ s.skill_id) × (version_gt l s.version e.version ≡ false)) id_of
                (values latest)
                (Among-values
                  (λ e. (e.skill_id ≡ s.skill_id) × (version_gt l s.version e.version ≡ false))
                  s.skill_id k.best latest k.found (k.same_id, k.not_newer)))
            covered.1,
      )
