-- ===== src/Text/Words.antt =====
-- `split()` takes a text apart into words, and undoes `" ".join` on words.
use ochestrate.Base.{
  ℕ, ◌≡◌, refl, ap, inl, inr, true, false, List, [], ◌∷◌, ◌++◌, arith, All, Bool-cases,
}
use mathlib.Core.List.{append_assoc}
use ochestrate.Text.{Text, codes, is_space, split, begin_word, join}

-- A piece that `split()` leaves whole: not empty, and no white space in it.
abbrev pub IsWord : Text → Type 0
IsWord [] = ⊥
IsWord (c ∷ cs) = (is_space c ≡ false) × All (λ d. is_space d ≡ false) cs

abbrev pub space : Text
space = codes " "

space_lem : is_space 32 ≡ true
unfolding is_space
space_lem = refl

split-cons_space : (c : ℕ) (t : Text) → is_space c ≡ true → split (c ∷ t) ≡ split t
unfolding split
split-cons_space c t h = ground arith

-- A word at the end of the text.
pub split-word : (w : Text) → IsWord w → split w ≡ w ∷ []
unfolding split
split-word [] h = absurd h
split-word (c ∷ []) h = ground arith
split-word (c ∷ d ∷ ds) h = ground (arith, split-word (d ∷ ds) h.1)

-- A word with a space behind it.
pub split-word_space : (w t : Text) → IsWord w → split (w ++ (space ++ t)) ≡ w ∷ split t
unfolding split
split-word_space [] t h = absurd h
split-word_space (c ∷ []) t h = ground (arith, space_lem)
split-word_space (c ∷ d ∷ ds) t h = ground (arith, split-word_space (d ∷ ds) t h.1)

-- Words that are joined by spaces are found again, with one more word behind them.
pub split-join-space :
    (ws : List Text) (t : Text)
    → All IsWord ws
    → split (join space ws ++ (space ++ t)) ≡ ws ++ split t
split-join-space [] t h = split-cons_space 32 t space_lem
split-join-space (w ∷ []) t h = split-word_space w t h.0
split-join-space (w ∷ v ∷ ws) t h =
    rw (append_assoc, append_assoc, split-word_space w (join space (v ∷ ws) ++ (space ++ t)) h.0)
      (ap (λ ts. w ∷ ts) (split-join-space (v ∷ ws) t h.1))

pub split-join : (ws : List Text) → All IsWord ws → split (join space ws) ≡ ws
unfolding split
split-join [] h = refl
split-join (w ∷ []) h = split-word w h.0
split-join (w ∷ v ∷ ws) h =
    rw (split-word_space w (join space (v ∷ ws)) h.0) (ap (λ ts. w ∷ ts) (split-join (v ∷ ws) h.1))

-- Every piece that `split()` returns is a word.
begin_word-IsWord :
    (c : ℕ) (cs : Text) (ws : List Text)
    → is_space c ≡ false
    → All IsWord ws
    → All IsWord (begin_word c cs ws)
unfolding begin_word
begin_word-IsWord c [] ws h hs = ((h, tt), hs)
begin_word-IsWord c (d ∷ ds) [] h hs = ground arith
begin_word-IsWord c (d ∷ ds) ([] ∷ ws) h hs = absurd hs.0
begin_word-IsWord c (d ∷ ds) ((e ∷ es) ∷ ws) h hs = ground arith

pub split-IsWord : (t : Text) → All IsWord (split t)
unfolding split
split-IsWord [] = tt
split-IsWord (c ∷ cs) = elim (Bool-cases (is_space c)) [
  | inl blank ↦ rw (blank, split) (split-IsWord cs)
  | inr solid ↦ rw (solid, split) (begin_word-IsWord c cs (split cs) solid (split-IsWord cs))
]
