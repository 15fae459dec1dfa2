-- ===== src/Skills/Saving.antt =====
-- On app/skills/center.py: a skill that is saved can be loaded.
use ochestrate.Base.{◌≡◌, refl, sym, ap, ◌∙◌, none, some, Bool-cases, inl, inr, if◌then◌else◌}
use ochestrate.Text.{text_eq}
use ochestrate.Dict.{lookup, insert, lookup-insert_self}
use ochestrate.Skills.{
  SkillSpec, Library, SkillCenter, save_skill, load_skill, restart, key, file_name,
}

some_inj {ℓ} : {A : Type ℓ} {a b : A} → some a ≡ some b → a ≡ b
some_inj h = cc

none-some {ℓ} : {A : Type ℓ} {a : A} → none ≡ some a → ⊥
none-some h = cc

module _ (l : Library) (s : SkillSpec) (c c' : SkillCenter) where
  abbrev saved_in : SkillCenter
  saved_in = record {
    files = insert (file_name s.skill_id s.version) (l.encode s) c.files;
    cache = insert (key s.skill_id s.version) s c.cache;
  }

  save_skill-saved : save_skill l s c ≡ some c' → saved_in ≡ c'
  unfolding save_skill
  save_skill-saved h = elim (Bool-cases (l.can_write (file_name s.skill_id s.version))) [
    | inl taken ↦ some_inj (sym (ap (λ b. if b then some saved_in else none) taken) ∙ h)
    | inr refused ↦
        absurd (none-some (sym (ap (λ b. if b then some saved_in else none) refused) ∙ h))
  ]

  -- A skill that was saved is loaded by its identifier and its version, from the cache; and after a
  -- restart from its file, where the codec reads back what it writes of the skill.
  pub load_skill-save_skill :
      save_skill l s c ≡ some c'
      → l.decode (l.encode s) ≡ some s
      → (load_skill l s.skill_id s.version c' ≡ some (s, c'))
        × ((c'' : SkillCenter) × (load_skill l s.skill_id s.version (restart c') ≡ some (s, c'')))
  unfolding load_skill lookup
  load_skill-save_skill saved read_back =
      let same = save_skill-saved saved in
      let k = key s.skill_id s.version in
      let f = file_name s.skill_id s.version in
      let cached : lookup k c'.cache ≡ some s =
        sym (ap (λ (x : SkillCenter). lookup k x.cache) same) ∙ lookup-insert_self k s c.cache in
      let written : lookup f c'.files ≡ some (l.encode s) =
        sym (ap (λ (x : SkillCenter). lookup f x.files) same)
        ∙ lookup-insert_self f (l.encode s) c.files in
      (
        rw (cached, load_skill) refl,
        (
          record (restart c') { cache = insert k s (restart c').cache },
          rw (written, read_back, load_skill) refl,
        ),
      )
