-- ===== src/Storage/Rows.antt =====
-- Queries over the rows of app/storage, in the order in which they are read: the first row that a
-- test picks, and a change of that row.
use ochestrate.Base.{
  suc, ◌≡◌, refl, ap, Bool, false, Option, none, some, List, [], ◌∷◌, map, any, keep, count_if,
  if◌then◌else◌, inl, inr, Bool-cases, ◌||◌,
}

abbrev pub map_option {ℓ κ} : {A : Type ℓ} {B : Type κ} → (A → B) → Option A → Option B
map_option g none = none
map_option g (some x) = some (g x)

pub some_inj {ℓ} : {A : Type ℓ} {a b : A} → some a ≡ some b → a ≡ b
some_inj h = cc

module _ {ℓ} {A : Type ℓ} where
  unfoldable pub first : (A → Bool) → List A → Option A
  first p [] = none
  first p (x ∷ xs) = if p x then some x else first p xs

  unfoldable pub change_first : (A → Bool) → (A → A) → List A → List A
  change_first p f [] = []
  change_first p f (x ∷ xs) = if p x then f x ∷ xs else x ∷ change_first p f xs

  pub first-none : (p : A → Bool) (xs : List A) → any p xs ≡ false → first p xs ≡ none
  unfolding first
  first-none p [] h = refl
  first-none p (x ∷ xs) h = elim (Bool-cases (p x)) [
    | inl holds ↦ absurd (cc (rw (holds) at h))
    | inr fails ↦ rw (fails, first) (first-none p xs (rw (fails) at h))
  ]

  pub any-none : (p : A → Bool) (xs : List A) → first p xs ≡ none → any p xs ≡ false
  unfolding first
  any-none p [] h = refl
  any-none p (x ∷ xs) h = elim (Bool-cases (p x)) [
    | inl holds ↦ absurd (cc (rw (holds, first) at h))
    | inr fails ↦ rw (fails) (any-none p xs (rw (fails, first) at h))
  ]

  -- Only the row that is found matters for what is written to it.
  pub change_found :
      (p : A → Bool) (f : A → A) (xs : List A) {x : A}
      → first p xs ≡ some x
      → change_first p f xs ≡ change_first p (λ y. f x) xs
  unfolding first change_first
  change_found p f [] h = refl
  change_found p f (y ∷ xs) {x} h = elim (Bool-cases (p y)) [
    | inl holds ↦
        let e : y ≡ x = cc (rw (holds, first) at h) in
        rw (holds, change_first) (ap (λ z. f z ∷ xs) e)
    | inr fails ↦
        rw (fails, change_first) (ap (λ ys. y ∷ ys) (change_found p f xs (rw (fails, first) at h)))
  ]

module _ {ℓ κ} {A : Type ℓ} {B : Type κ} (g : A → B) (q : B → Bool) where
  pub first-map : (xs : List A) → first q (map g xs) ≡ map_option g (first (λ x. q (g x)) xs)
  unfolding first
  first-map [] = refl
  first-map (x ∷ xs) = elim (Bool-cases (q (g x))) [
    | inl holds ↦ rw (holds, first)
    | inr fails ↦ rw (fails, first) (first-map xs)
  ]

  pub any-map : (xs : List A) → any q (map g xs) ≡ any (λ x. q (g x)) xs
  any-map [] = refl
  any-map (x ∷ xs) = ap (λ b. q (g x) || b) (any-map xs)

  pub keep-map : (xs : List A) → keep q (map g xs) ≡ map g (keep (λ x. q (g x)) xs)
  keep-map [] = refl
  keep-map (x ∷ xs) = elim (Bool-cases (q (g x))) [
    | inl holds ↦ rw (holds, keep) (ap (λ ys. g x ∷ ys) (keep-map xs))
    | inr fails ↦ rw (fails, keep) (keep-map xs)
  ]

  pub count_if-map : (xs : List A) → count_if q (map g xs) ≡ count_if (λ x. q (g x)) xs
  count_if-map [] = refl
  count_if-map (x ∷ xs) = elim (Bool-cases (q (g x))) [
    | inl holds ↦ rw (holds, count_if) (ap suc (count_if-map xs))
    | inr fails ↦ rw (fails, count_if) (count_if-map xs)
  ]

  pub change_first-map :
      (y : A) (xs : List A)
      → map g (change_first (λ x. q (g x)) (λ x. y) xs) ≡ change_first q (λ b. g y) (map g xs)
  unfolding change_first
  change_first-map y [] = refl
  change_first-map y (x ∷ xs) = elim (Bool-cases (q (g x))) [
    | inl holds ↦ rw (holds, change_first)
    | inr fails ↦ rw (fails, change_first) (ap (λ ys. g x ∷ ys) (change_first-map y xs))
  ]
