-- ===== src/Skills/Versions.antt =====
-- The orders of app/skills/center.py: of texts, and of versions as lists of numbers.
use ochestrate.Base.{
  ◌≡◌, refl, ap, sym, ◌∙◌, ◌⊎◌, arith, Bool, true, false, Bool-cases, inl, inr, List, [], ◌∷◌, ltb,
  nat_beq, if◌then◌else◌,
}
use ochestrate.Text.{Text}
use ochestrate.Tools.Values.{ℤ, pos, negsuc}

-- `a > b` of texts
unfoldable pub text_gt : Text → Text → Bool
text_gt [] b = false
text_gt (x ∷ xs) [] = true
text_gt (x ∷ xs) (y ∷ ys) = let rest = text_gt xs ys in if nat_beq x y then rest else ltb y x

-- `a > b` and `a == b` of numbers
unfoldable pub int_gt : ℤ → ℤ → Bool
int_gt (pos m) (pos n) = ltb n m
int_gt (pos m) (negsuc n) = true
int_gt (negsuc m) (pos n) = false
int_gt (negsuc m) (negsuc n) = ltb m n

unfoldable pub int_eq : ℤ → ℤ → Bool
int_eq (pos m) (pos n) = nat_beq m n
int_eq (pos m) (negsuc n) = false
int_eq (negsuc m) (pos n) = false
int_eq (negsuc m) (negsuc n) = nat_beq m n

-- `a > b` of lists of numbers
unfoldable pub lex_gt : List ℤ → List ℤ → Bool
lex_gt [] b = false
lex_gt (x ∷ xs) [] = true
lex_gt (x ∷ xs) (y ∷ ys) = let rest = lex_gt xs ys in if int_eq x y then rest else int_gt x y

int_eq→≡ : (x y : ℤ) → int_eq x y ≡ true → x ≡ y
unfolding int_eq
int_eq→≡ (pos m) (pos n) h = ap pos (ground arith)
int_eq→≡ (pos m) (negsuc n) h = cc
int_eq→≡ (negsuc m) (pos n) h = cc
int_eq→≡ (negsuc m) (negsuc n) h = ap negsuc (ground arith)

int_eq_refl : (x : ℤ) → int_eq x x ≡ true
unfolding int_eq
int_eq_refl (pos m) = ground arith
int_eq_refl (negsuc m) = ground arith

int_gt_trans : (x y z : ℤ) → int_gt x y ≡ true → int_gt y z ≡ true → int_gt x z ≡ true
unfolding int_gt
int_gt_trans (pos m) (pos n) (pos k) g h = ground arith
int_gt_trans (pos m) (pos n) (negsuc k) g h = refl
int_gt_trans (pos m) (negsuc n) (pos k) g h = cc
int_gt_trans (pos m) (negsuc n) (negsuc k) g h = refl
int_gt_trans (negsuc m) (pos n) z g h = cc
int_gt_trans (negsuc m) (negsuc n) (pos k) g h = cc
int_gt_trans (negsuc m) (negsuc n) (negsuc k) g h = ground arith

int_gt-ne : (x y : ℤ) → int_gt x y ≡ true → int_eq x y ≡ false
unfolding int_gt int_eq
int_gt-ne (pos m) (pos n) h = ground arith
int_gt-ne (pos m) (negsuc n) h = refl
int_gt-ne (negsuc m) (pos n) h = cc
int_gt-ne (negsuc m) (negsuc n) h = ground arith

pub lex_gt_irrefl : (a : List ℤ) → lex_gt a a ≡ false
unfolding lex_gt
lex_gt_irrefl [] = refl
lex_gt_irrefl (x ∷ xs) = rw (int_eq_refl x) (lex_gt_irrefl xs)

-- The first items of two lists that are compared, and whether the first is greater.
lex_gt-cons :
    (x y : ℤ) (xs ys : List ℤ)
    → lex_gt (x ∷ xs) (y ∷ ys) ≡ true
    → ((x ≡ y) × (lex_gt xs ys ≡ true)) ⊎ (int_gt x y ≡ true)
unfolding lex_gt
lex_gt-cons x y xs ys h = elim (Bool-cases (int_eq x y)) [
  | inl same ↦
      inl (int_eq→≡ x y same, sym (ap (λ b. if b then lex_gt xs ys else int_gt x y) same) ∙ h)
  | inr other ↦ inr (sym (ap (λ b. if b then lex_gt xs ys else int_gt x y) other) ∙ h)
]

lex_gt-cons_gt : (x y : ℤ) (xs ys : List ℤ) → int_gt x y ≡ true → lex_gt (x ∷ xs) (y ∷ ys) ≡ true
unfolding lex_gt
lex_gt-cons_gt x y xs ys h = rw (int_gt-ne x y h) h

lex_gt-cons_eq :
    (x y : ℤ) (xs ys : List ℤ) → x ≡ y → lex_gt xs ys ≡ true → lex_gt (x ∷ xs) (y ∷ ys) ≡ true
unfolding lex_gt
lex_gt-cons_eq x y xs ys e h = rw (e, int_eq_refl y) h

pub lex_gt_trans : (a b c : List ℤ) → lex_gt a b ≡ true → lex_gt b c ≡ true → lex_gt a c ≡ true
unfolding lex_gt
lex_gt_trans [] b c g h = cc
lex_gt_trans (x ∷ xs) [] c g h = cc
lex_gt_trans (x ∷ xs) (y ∷ ys) [] g h = refl
lex_gt_trans (x ∷ xs) (y ∷ ys) (z ∷ zs) g h = elim (lex_gt-cons x y xs ys g) [
  | inl (same, g') ↦ elim (lex_gt-cons y z ys zs h) [
    | inl (same', h') ↦ lex_gt-cons_eq x z xs zs (same ∙ same') (lex_gt_trans xs ys zs g' h')
    | inr more ↦ lex_gt-cons_gt x z xs zs (ap (λ v. int_gt v z) same ∙ more)
  ]
  | inr more ↦ elim (lex_gt-cons y z ys zs h) [
    | inl (same', h') ↦ lex_gt-cons_gt x z xs zs (sym (ap (λ v. int_gt x v) same') ∙ more)
    | inr more' ↦ lex_gt-cons_gt x z xs zs (int_gt_trans x y z more more')
  ]
]
