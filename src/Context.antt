-- ===== src/Context.antt =====
-- app/context: the token budget, the summarizer and the context manager. Budgets are the
-- non-negative integers of the settings.
pub mod Budget
mod Tests
use ochestrate.Base.{ℕ, Bool, List, [], ◌∷◌, ◌++◌, length, take, max, leb, if◌then◌else◌}
use ochestrate.Text.{Text, codes, is_empty, split, join}

-- `TokenBudgetManager.estimate_tokens`
unfoldable pub estimate_tokens : Text → ℕ
estimate_tokens text = if is_empty text then 0 else max 1 (length (split text))

-- `TokenBudgetManager.truncate`
unfoldable pub truncate : Text → ℕ → Text
truncate text remaining_tokens =
    if leb (estimate_tokens text) remaining_tokens
    then text
    else join (codes " ") (take (max remaining_tokens 1) (split text))

-- `Summarizer.summarize`
unfoldable pub summarize : Text → ℕ → Text
summarize text max_words =
    let words = split text in
    if leb (length words) max_words
    then text
    else join (codes " ") (take max_words words) ++ codes " ..."

pub record ContextManager : Type 0 where
  pub max_tokens : ℕ

pub record Sections : Type 0 where
  pub system_policy : Text
  pub task_context : Text
  pub retrieval_evidence : Text
  pub short_memory : Text
  pub long_memory : Text

-- `"\n\n".join(sections)` in `build_context`
unfoldable pub compose : Sections → Text
compose s = join (codes "\n\n") (
    (codes "[SYSTEM]\n" ++ s.system_policy)
    ∷ (codes "[TASK]\n" ++ s.task_context)
    ∷ (codes "[EVIDENCE]\n" ++ s.retrieval_evidence)
    ∷ (codes "[SHORT_MEMORY]\n" ++ s.short_memory)
    ∷ (codes "[LONG_MEMORY]\n" ++ s.long_memory)
    ∷ [])

-- `ContextManager.build_context`
unfoldable pub build_context : ContextManager → Sections → Text
build_context m s =
    let composed = compose s in
    if leb (estimate_tokens composed) m.max_tokens
    then composed
    else summarize composed m.max_tokens
