-- ===== src/Context/Tests.antt =====
-- On app/context: short texts and a small budget, to which the theorems are applied.
use ochestrate.Base.{◌+◌, ◌≤◌, ◌<◌, ◌≡◌, [], ◌∷◌, ◌++◌, take}
use ochestrate.Text.{codes, split}
use ochestrate.Context.{estimate_tokens, Sections, compose, build_context}
use ochestrate.Context.Budget.{estimate-build_context}

abbrev sections : Sections
sections = record {
  system_policy = codes "be kind";
  task_context = codes "a question";
  retrieval_evidence = [];
  short_memory = codes "hello";
  long_memory = [];
}

estimate-build_context_example :
    (estimate_tokens (compose sections) ≤ 3
      → build_context (record { max_tokens = 3 }) sections ≡ compose sections)
    × (3 < estimate_tokens (compose sections)
        → (split (build_context (record { max_tokens = 3 }) sections)
            ≡ take 3 (split (compose sections)) ++ codes "..." ∷ [])
          × (estimate_tokens (build_context (record { max_tokens = 3 }) sections) ≡ 3 + 1))
estimate-build_context_example = estimate-build_context (record { max_tokens = 3 }) sections
