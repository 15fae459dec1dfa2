-- ===== src/Storage/Keyed.antt =====
-- The dicts of the memory modes of app/storage/repositories as tables: each value is under its own
-- key, so that a look-up is a query and an assignment adds a row or changes the one that it finds.
use mathlib.Core.Path.{subst}
use ochestrate.Base.{
  ◌≡◌, ◌∙◌, refl, ap, inl, inr, Bool-cases, none, some, [], ◌∷◌, ◌++◌, Eq, ◌==◌, All, if◌then◌else◌,
  true, false,
}
use ochestrate.Dict.{Dict, lookup, insert, values, All-insert}
use ochestrate.Storage.Rows.{some_inj, map_option, first, change_first}

module _ {ℓ κ} {K : Type ℓ} {V : Type κ} ⦃e : Eq K⦄ where
  pub values-insert_new :
      (k : K) (w : V) (d : Dict K V)
      → lookup k d ≡ none
      → values (insert k w d) ≡ values d ++ (w ∷ [])
  unfolding lookup insert values
  values-insert_new k w [] h = refl
  values-insert_new k w ((j, v) ∷ d) h = elim (Bool-cases (j == k)) [
    | inl same ↦ absurd (cc (rw (same, lookup) at h))
    | inr other ↦
        rw (other, insert) (ap (λ vs. v ∷ vs) (values-insert_new k w d (rw (other, lookup) at h)))
  ]

  -- A dict as the list of its entries.
  pub lookup-entries :
      (k : K) (d : Dict K V)
      → lookup k d ≡ map_option (λ (p : K × V). p.1) (first (λ p. p.0 == k) d)
  unfolding lookup first
  lookup-entries k [] = refl
  lookup-entries k ((j, v) ∷ d) = elim (Bool-cases (j == k)) [
    | inl same ↦ rw (same, lookup, first)
    | inr other ↦ rw (other, lookup, first) (lookup-entries k d)
  ]

  pub insert_new :
      (k : K) (w : V) (d : Dict K V) → lookup k d ≡ none → insert k w d ≡ d ++ ((k, w) ∷ [])
  unfolding lookup insert
  insert_new k w [] h = refl
  insert_new k w ((j, v) ∷ d) h = elim (Bool-cases (j == k)) [
    | inl same ↦ absurd (cc (rw (same, lookup) at h))
    | inr other ↦
        rw (other, insert) (ap (λ rest. (j, v) ∷ rest) (insert_new k w d (rw (other, lookup) at h)))
  ]

  pub insert_old :
      (k : K) (w : V) (d : Dict K V) {q : K × V}
      → first (λ p. p.0 == k) d ≡ some q
      → insert k w d ≡ change_first (λ p. p.0 == k) (λ p. (q.0, w)) d
  unfolding first insert change_first
  insert_old k w [] found = absurd cc
  insert_old k w ((j, v) ∷ d) {q} found = elim (Bool-cases (j == k)) [
    | inl same ↦
        let e' : (j, v) ≡ q = some_inj (rw (same, first) at found) in
        rw (same, insert, change_first) (ap (λ (p : K × V). (p.0, w) ∷ d) e')
    | inr other ↦
        rw (other, insert, change_first)
          (ap (λ rest. (j, v) ∷ rest) (insert_old k w d (rw (other, first) at found)))
  ]

module _ {ℓ κ} {K : Type ℓ} {V : Type κ} ⦃e : Eq K⦄ (key : V → K) where
  abbrev pub IsKeyed : Dict K V → Type ℓ
  IsKeyed d = All (λ p. p.0 ≡ key p.1) d

  pub lookup-first :
      (k : K) (d : Dict K V) → IsKeyed d → lookup k d ≡ first (λ v. key v == k) (values d)
  unfolding lookup first values
  lookup-first k [] h = refl
  lookup-first k ((j, v) ∷ d) h =
      ap (λ i. if i == k then some v else lookup k d) h.0
      ∙ ap (λ rest. if key v == k then some v else rest) (lookup-first k d h.1)

  pub values-insert_old :
      (k : K) (w : V) (d : Dict K V) {v : V}
      → IsKeyed d
      → lookup k d ≡ some v
      → values (insert k w d) ≡ change_first (λ x. key x == k) (λ x. w) (values d)
  unfolding lookup insert values change_first
  values-insert_old k w [] h found = absurd cc
  values-insert_old k w ((j, v) ∷ d) h found = elim (Bool-cases (j == k)) [
    | inl same ↦
        let same' = subst (λ i. (i == k) ≡ true) h.0 same in
        rw (same, same', insert, change_first, values)
    | inr other ↦
        let other' = subst (λ i. (i == k) ≡ false) h.0 other in
        rw (other, other', insert, change_first)
          (ap (λ vs. v ∷ vs) (values-insert_old k w d h.1 (rw (other, lookup) at found)))
  ]

  pub insert-IsKeyed : (w : V) (d : Dict K V) → IsKeyed d → IsKeyed (insert (key w) w d)
  insert-IsKeyed w d h = All-insert (λ p. p.0 ≡ key p.1) (key w) w d refl h
