-- ===== src/Context/Budget.antt =====
-- On app/context: what the token budget holds: `truncate` meets it, and `summarize` passes it by
-- the dots.
use ochestrate.Base.{
  ℕ, ◌+◌, ◌≤◌, ◌<◌, max, ◌≡◌, ◌∙◌, refl, ap, inl, inr, false, List, [], ◌∷◌, ◌++◌, arith, length,
  Bool-cases, length-append, take, All-take, length-take, leb, leb→le,
}
use ochestrate.Text.{Text, codes, is_space, split, begin_word, join}
use ochestrate.Text.Words.{IsWord, space, split-word, split-join, split-join-space, split-IsWord}
use ochestrate.Context.{
  estimate_tokens, truncate, summarize, Sections, ContextManager, compose, build_context,
}

estimate-le-words : (t : Text) (n : ℕ) → 1 ≤ n → length (split t) ≤ n → estimate_tokens t ≤ n
unfolding estimate_tokens
estimate-le-words t n h k = ground arith

split-join-take : (n : ℕ) (t : Text) → split (join space (take n (split t))) ≡ take n (split t)
split-join-take n t = split-join (take n (split t)) (All-take IsWord n (split t) (split-IsWord t))

-- A truncated text is estimated within the tokens that remained, or at one where none remained.
pub truncate-fits : (t : Text) (n : ℕ) → estimate_tokens (truncate t n) ≤ max n 1
unfolding truncate
truncate-fits t n = elim (Bool-cases (leb (estimate_tokens t) n)) [
  | inl fits ↦ rw fits (ground arith)
  | inr over ↦ rw over (
      estimate-le-words (join space (take (max n 1) (split t))) (max n 1) (omega arith)
        (rw split-join-take (omega (arith, length-take (max n 1) (split t)))))
]

dots_IsWord : IsWord (codes "...")
unfolding is_space
dots_IsWord = (refl, (refl, (refl, tt)))

-- The words of the summary of a text with more than `n` words are the first `n` of the text, and
-- the dots.
pub split-summarize :
    (t : Text) (n : ℕ)
    → n < length (split t)
    → split (summarize t n) ≡ take n (split t) ++ codes "..." ∷ []
unfolding summarize
split-summarize t n h = elim (Bool-cases (leb (length (split t)) n)) [
  | inl fits ↦ absurd (omega (arith, leb→le _ _ fits))
  | inr over ↦ rw over (
      split-join-space (take n (split t)) (codes "...")
        (All-take IsWord n (split t) (split-IsWord t))
      ∙ ap (λ ws. take n (split t) ++ ws) (split-word (codes "...") dots_IsWord))
]

begin_word_has_words : (c : ℕ) (t : Text) (ws : List Text) → 1 ≤ length (begin_word c t ws)
unfolding begin_word
begin_word_has_words c [] ws = omega arith
begin_word_has_words c (d ∷ ds) [] = ground arith
begin_word_has_words c (d ∷ ds) (w ∷ ws) = ground arith

solid_has_words : (c : ℕ) (t : Text) → is_space c ≡ false → 1 ≤ length (split (c ∷ t))
unfolding split
solid_has_words c t h = rw (h, split) (begin_word_has_words c t (split t))

compose_has_words : (s : Sections) → 1 ≤ length (split (compose s))
unfolding compose
compose_has_words s = solid_has_words _ _ (unfold is_space in refl)

within :
    (m : ContextManager) (s : Sections)
    → estimate_tokens (compose s) ≤ m.max_tokens
    → build_context m s ≡ compose s
unfolding build_context
within m s h = ground arith

estimate-by_words : (t : Text) → 1 ≤ length (split t) → estimate_tokens t ≡ length (split t)
unfolding estimate_tokens split
estimate-by_words [] h = absurd (omega arith)
estimate-by_words (c ∷ cs) h = omega arith

-- A text with more than `n` words has a summary of `n + 1` words.
pub estimate-summarize :
    (t : Text) (n : ℕ) → n < length (split t) → estimate_tokens (summarize t n) ≡ n + 1
estimate-summarize t n h =
    let words : length (split (summarize t n)) ≡ n + 1 =
      rw (split-summarize t n h, length-append) (omega (arith, length-take n (split t))) in
    rw (estimate-by_words (summarize t n) (rw words (omega arith))) words

beyond :
    (m : ContextManager) (s : Sections)
    → m.max_tokens < estimate_tokens (compose s)
    → (split (build_context m s) ≡ take m.max_tokens (split (compose s)) ++ codes "..." ∷ [])
      × (estimate_tokens (build_context m s) ≡ m.max_tokens + 1)
unfolding build_context
beyond m s h = elim (Bool-cases (leb (estimate_tokens (compose s)) m.max_tokens)) [
  | inl fits ↦ absurd (omega (arith, leb→le _ _ fits))
  | inr over ↦
      let words : m.max_tokens < length (split (compose s)) =
        rw (← estimate-by_words (compose s) (compose_has_words s)) h in
      rw over (
        split-summarize (compose s) m.max_tokens words,
        estimate-summarize (compose s) m.max_tokens words,
      )
]

-- A context within the budget is handed on as composed; one beyond it is cut down to its first
-- words, as many as the budget has tokens, and the dots that the summarizer puts behind them,
-- which is one token more than the budget.
pub estimate-build_context :
    (m : ContextManager) (s : Sections)
    → (estimate_tokens (compose s) ≤ m.max_tokens → build_context m s ≡ compose s)
      × (m.max_tokens < estimate_tokens (compose s)
          → (split (build_context m s) ≡ take m.max_tokens (split (compose s)) ++ codes "..." ∷ [])
            × (estimate_tokens (build_context m s) ≡ m.max_tokens + 1))
estimate-build_context m s = (within m s, beyond m s)
