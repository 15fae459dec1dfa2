-- ===== src/Text.antt =====
-- Python's `str` as the list of its code points, with the methods that the code calls on it:
-- `==`, `split()`, `strip()`, `join`, `in`, `startswith`, `endswith`. They stand for built-ins of the language.
pub mod Words
use Prim.Native.Char.{code}
use Prim.Native.String.{String}
use mathlib.Core.Bool.{false≢true}
use ochestrate.Base.{
  ap₂, arith, ℕ, ◌≡◌, ◌≢◌, ◌↔◌, ◌∙◌, sym, Bool, true, false, ◌&&◌, ◌||◌, Eq, text_beq, text_beq_iff,
  nat_beq, leb, List, [], ◌∷◌, ◌++◌, if◌then◌else◌, refl, ap, inl, inr, Bool-cases,
}

abbrev pub Text : Type 0
Text = List ℕ

-- A literal of the source.
abbrev pub codes : String → Text
codes String.[] = []
codes (String.◌∷◌ c s) = code c ∷ codes s

instance abbrev pub text_eq : Eq Text
text_eq = record { beq = text_beq; beq_iff = text_beq_iff }

abbrev pub is_empty {ℓ} : {A : Type ℓ} → List A → Bool
is_empty [] = true
is_empty (x ∷ xs) = false

-- `str.isspace` of one character, the separators of `split()` and `strip()`.
unfoldable pub is_space : ℕ → Bool
is_space c =
    (leb 9 c && leb c 13)
    || (leb 28 c && leb c 32)
    || nat_beq c 133
    || nat_beq c 160
    || nat_beq c 5760
    || (leb 8192 c && leb c 8202)
    || nat_beq c 8232
    || nat_beq c 8233
    || nat_beq c 8239
    || nat_beq c 8287
    || nat_beq c 12288

unfoldable pub add_to_first : ℕ → List Text → List Text
add_to_first c [] = (c ∷ []) ∷ []
add_to_first c (w ∷ ws) = (c ∷ w) ∷ ws

-- The character before a text whose words are known: it begins a word or lengthens the first.
unfoldable pub begin_word : ℕ → Text → List Text → List Text
unfolding add_to_first
begin_word c [] ws = (c ∷ []) ∷ ws
begin_word c (d ∷ ds) ws = if is_space d then (c ∷ []) ∷ ws else add_to_first c ws

-- `text.split()`
unfoldable pub split : Text → List Text
unfolding begin_word
split [] = []
split (c ∷ cs) = elim (is_space c) [ true ↦ split cs | false ↦ begin_word c cs (split cs) ]

-- `text.split(c)` for a separator of one character
unfoldable pub split_on : ℕ → Text → List Text
unfolding add_to_first
split_on c [] = [] ∷ []
split_on c (d ∷ ds) =
    let rest = split_on c ds in if nat_beq d c then [] ∷ rest else add_to_first d rest

-- `sep.join(parts)`
abbrev pub join : Text → List Text → Text
join sep [] = []
join sep (w ∷ []) = w
join sep (w ∷ v ∷ ws) = w ++ (sep ++ join sep (v ∷ ws))

-- `text.lstrip()`
lstrip : Text → Text
unfolding is_space
lstrip [] = []
lstrip (c ∷ cs) = elim (is_space c) [ true ↦ lstrip cs | false ↦ c ∷ cs ]

put_before : ℕ → Text → Text
put_before c [] = if is_space c then [] else c ∷ []
put_before c (d ∷ ds) = c ∷ d ∷ ds

-- `text.rstrip()`
rstrip : Text → Text
unfolding is_space put_before
rstrip [] = []
rstrip (c ∷ cs) = put_before c (rstrip cs)

-- `text.strip()`
unfoldable pub strip : Text → Text
unfolding lstrip rstrip
strip t = rstrip (lstrip t)

-- `text.startswith(prefix)`
unfoldable pub starts_with : Text → Text → Bool
starts_with [] t = true
starts_with (c ∷ cs) [] = false
starts_with (c ∷ cs) (d ∷ ds) = nat_beq c d && starts_with cs ds

-- `text.endswith(suffix)`
unfoldable pub ends_with : Text → Text → Bool
ends_with suffix [] = is_empty suffix
ends_with suffix (c ∷ cs) = text_beq suffix (c ∷ cs) || ends_with suffix cs

pub ends_with-suffix : (s t : Text) → ends_with s t ≡ true → (p : Text) × (t ≡ p ++ s)
unfolding ends_with
ends_with-suffix [] [] h = ([], refl)
ends_with-suffix (x ∷ xs) [] h = cc
ends_with-suffix s (c ∷ cs) h = elim (Bool-cases (text_beq s (c ∷ cs))) [
  | inl same ↦ ([], sym ((text_beq_iff s (c ∷ cs)).0 same))
  | inr other ↦
      let (p, e) = ends_with-suffix s cs (sym (ap (λ b. b || ends_with s cs) other) ∙ h) in
      (c ∷ p, ap (λ ds. c ∷ ds) e)
]

pub ends_with-append : (p s : Text) → ends_with s (p ++ s) ≡ true
unfolding ends_with
ends_with-append [] [] = refl
ends_with-append [] (c ∷ cs) = rw ((text_beq_iff (c ∷ cs) (c ∷ cs)).1 refl, ◌||◌)
ends_with-append (d ∷ ds) s = elim (Bool-cases (text_beq s (d ∷ (ds ++ s)))) [
  | inl same ↦ rw (same, ◌||◌)
  | inr other ↦ rw (other, ◌||◌) (ends_with-append ds s)
]

-- `part in text`
unfoldable pub contains : Text → Text → Bool
unfolding starts_with
contains part [] = is_empty part
contains part (c ∷ cs) = starts_with part (c ∷ cs) || contains part cs

starts_with-prefix : (part t : Text) → starts_with part t ≡ true → (q : Text) × (t ≡ part ++ q)
unfolding starts_with
starts_with-prefix [] t h = (t, refl)
starts_with-prefix (c ∷ cs) [] h = cc
starts_with-prefix (c ∷ cs) (d ∷ ds) h = elim (Bool-cases (nat_beq c d)) [
  | inl same ↦
      let (q, e) = starts_with-prefix cs ds (sym (ap (λ b. b && starts_with cs ds) same) ∙ h) in
      (q, ap₂ (λ x xs. x ∷ xs) (ground (arith, same)) e)
  | inr other ↦ absurd (ground (arith, other))
]

-- What a text contains stands somewhere in it.
pub contains-infix :
    (part t : Text) → contains part t ≡ true → (p : Text) × (q : Text) × (t ≡ p ++ (part ++ q))
unfolding contains
contains-infix [] [] h = ([], [], refl)
contains-infix (x ∷ xs) [] h = cc
contains-infix part (c ∷ cs) h = elim (Bool-cases (starts_with part (c ∷ cs))) [
  | inl here ↦ let (q, e) = starts_with-prefix part (c ∷ cs) here in ([], q, e)
  | inr later ↦
      let (p, q, e) = contains-infix part cs (sym (ap (λ b. b || contains part cs) later) ∙ h) in
      (c ∷ p, q, ap (λ ds. c ∷ ds) e)
]

-- Texts that the test tells apart are apart.
pub apart : (a b : Text) → text_beq a b ≡ false → a ≢ b
apart a b h e = false≢true (sym h ∙ (text_beq_iff a b).1 e)
