-- ===== src/Dict/Laws.antt =====
-- Dictionaries whose keys are distinct, and what holds of each entry of one.
use mathlib.Core.Path.{subst}
use ochestrate.Base.{
  ◌≡◌, ◌∙◌, inl, inr, refl, ap, none, some, [], ◌∷◌, arith, Eq, ◌==◌, All, All-imp, Bool-cases,
}
use ochestrate.Dict.{Dict, lookup, insert, values, lookup-insert, beq_refl}

module _ {ℓ κ} {K : Type ℓ} {V : Type κ} ⦃e : Eq K⦄ where
  -- No key is listed twice.
  abbrev pub IsDict : Dict K V → Type κ
  IsDict [] = Unit
  IsDict ((k, v) ∷ d) = (lookup k d ≡ none) × IsDict d

  -- What is found is an entry.
  pub All-lookup {μ} :
      (P : K × V → Type μ) (k : K) (d : Dict K V) {v : V} → All P d → lookup k d ≡ some v → P (k, v)
  unfolding lookup
  All-lookup P k [] h found = cc
  All-lookup P k ((j, w) ∷ d) {v} h found = elim (Bool-cases (j == k)) [
    | inl same ↦
        let e' : w ≡ v = cc (rw (same, lookup) at found) in
        subst (λ x. P (k, x)) e' (subst (λ x. P (x, w)) ((e.beq_iff j k).0 same) h.0)
    | inr other ↦ All-lookup P k d h.1 (rw (other, lookup) at found)
  ]

  pub insert-IsDict : (k : K) (v : V) (d : Dict K V) → IsDict d → IsDict (insert k v d)
  unfolding insert lookup
  insert-IsDict k v [] h = (refl, tt)
  insert-IsDict k v ((j, w) ∷ d) h = elim (Bool-cases (j == k)) [
    | inl same ↦ rw (same, insert) h
    | inr other ↦
        rw (other, insert)
          (
            lookup-insert k j v d ∙ ground (arith, h.0, e.beq_iff j k, e.beq_iff k j),
            insert-IsDict k v d h.1,
          )
  ]

  found_behind :
      (k : K) (v : V) (d : Dict K V) (p : K × V)
      → lookup k d ≡ none
      → lookup p.0 d ≡ some p.1
      → lookup p.0 ((k, v) ∷ d) ≡ some p.1
  unfolding lookup
  found_behind k v d p fresh found = elim (Bool-cases (k == p.0)) [
    | inl same ↦ cc (fresh, found, ap (λ x. lookup x d) ((e.beq_iff k p.0).0 same))
    | inr other ↦ rw (other, lookup) found
  ]

  -- Where the keys are distinct, every entry is found by its key.
  pub entries_found : (d : Dict K V) → IsDict d → All (λ p. lookup p.0 d ≡ some p.1) d
  unfolding lookup
  entries_found [] h = tt
  entries_found ((k, v) ∷ d) h =
      (rw (beq_refl k), All-imp d (λ p. found_behind k v d p h.0) (entries_found d h.1))

  pub All-values {μ ν} :
      {P : K × V → Type μ} (Q : V → Type ν) (d : Dict K V)
      → ((p : K × V) → P p → Q p.1)
      → All P d
      → All Q (values d)
  unfolding values
  All-values Q [] f h = tt
  All-values Q ((k, v) ∷ d) f h = (f (k, v) h.0, All-values Q d f h.1)
