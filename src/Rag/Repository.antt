-- ===== src/Rag/Repository.antt =====
-- app/storage/repositories/knowledge_repo.py in the in-memory mode, and app/rag/store.py over it.
use ochestrate.Base.{
  ℕ, ◌≡◌, refl, sym, ap, ◌∙◌, Bool, not, Option, List, [], ◌∷◌, ◌++◌, map, keep, count_if, take,
  ltb, All, if◌then◌else◌,
}
use mathlib.Core.List.{append-nil}
use ochestrate.Text.{Text, text_eq, is_empty, split, strip, contains}
use ochestrate.Text.Words.{IsWord, split-IsWord}
use ochestrate.Rag.{
  KnowledgeChunk, KnowledgeStore, add_chunks, is_of, sort_scored, score_all, score_of, chunk_of,
  search,
}

-- the chunks that `KnowledgeRepository` has in memory
abbrev pub KnowledgeRepository : Type 0
KnowledgeRepository = List KnowledgeChunk

-- `KnowledgeRepository.add_chunks`
unfoldable pub extend_chunks : List KnowledgeChunk → KnowledgeRepository → KnowledgeRepository
extend_chunks [] mem = mem
extend_chunks (c ∷ cs) mem = mem ++ (c ∷ cs)

abbrev pub is_token : Text → Bool
is_token t = not (is_empty t)

module _ (lower : Text → Text) where
  unfoldable pub score_tokens : List Text → List KnowledgeChunk → List (ℕ × KnowledgeChunk)
  score_tokens tokens [] = []
  score_tokens tokens (c ∷ cs) =
      let rest = score_tokens tokens cs in
      let score = count_if (λ token. contains token (lower c.content)) tokens in
      if ltb 0 score then (score, c) ∷ rest else rest

  -- `KnowledgeRepository._rank`
  unfoldable pub rank : List KnowledgeChunk → Text → ℕ → List KnowledgeChunk
  unfolding score_tokens
  rank chunks normalized_query limit =
      if is_empty normalized_query
      then take limit chunks
      else map (chunk_of lower)
          (take limit (sort_scored (score_tokens (keep is_token (split normalized_query)) chunks)))

  -- `KnowledgeRepository.search`
  unfoldable pub search_repository :
      Option Text → Text → ℕ → KnowledgeRepository → List KnowledgeChunk
  unfolding rank
  search_repository tenant_id query limit mem =
      rank (keep (is_of tenant_id) mem) (strip (lower query)) limit

  keep-words : (ws : List Text) → All IsWord ws → keep is_token ws ≡ ws
  keep-words [] h = refl
  keep-words ([] ∷ ws) h = absurd h.0
  keep-words ((c ∷ cs) ∷ ws) h = ap (λ ts. (c ∷ cs) ∷ ts) (keep-words ws h.1)

  score_tokens-split :
      (query : Text) (chunks : List KnowledgeChunk)
      → score_tokens (split query) chunks ≡ score_all lower query chunks
  unfolding score_tokens score_all score_of
  score_tokens-split query [] = refl
  score_tokens-split query (c ∷ cs) =
      ap
        (λ rest.
          if ltb 0 (count_if (λ token. contains token (lower c.content)) (split query))
          then (count_if (λ token. contains token (lower c.content)) (split query), c) ∷ rest
          else rest)
        (score_tokens-split query cs)

  -- The repository that a knowledge store may stand on answers each search as the store without a
  -- repository does that has the same chunks.
  pub search_repository-search :
      (tenant_id : Option Text) (query : Text) (limit : ℕ) (chunks : List KnowledgeChunk)
      → search_repository tenant_id query limit chunks ≡ search lower tenant_id query limit chunks
  unfolding search_repository rank search
  search_repository-search tenant_id query limit chunks =
      ap
        (λ scored.
          if is_empty (strip (lower query))
          then take limit (keep (is_of tenant_id) chunks)
          else map (chunk_of lower) (take limit (sort_scored scored)))
        (ap (λ tokens. score_tokens tokens (keep (is_of tenant_id) chunks))
            (keep-words (split (strip (lower query))) (split-IsWord (strip (lower query))))
          ∙ score_tokens-split (strip (lower query)) (keep (is_of tenant_id) chunks))

-- `KnowledgeStore`, with a repository or without
pub data Store : Type 0 where
  over_repository : KnowledgeRepository → Store
  in_memory : KnowledgeStore → Store

-- `KnowledgeStore.add_chunks`
unfoldable pub add_to_store : List KnowledgeChunk → Store → Store
unfolding extend_chunks
add_to_store chunks (over_repository mem) = over_repository (extend_chunks chunks mem)
add_to_store chunks (in_memory store) = in_memory (add_chunks chunks store)

unfoldable pub add_all : List (List KnowledgeChunk) → Store → Store
unfolding add_to_store
add_all [] store = store
add_all (cs ∷ css) store = add_all css (add_to_store cs store)

-- `KnowledgeStore.search`
unfoldable pub search_store : (Text → Text) → Option Text → Text → ℕ → Store → List KnowledgeChunk
search_store lower tenant_id query limit (over_repository mem) =
    search_repository lower tenant_id query limit mem
search_store lower tenant_id query limit (in_memory store) =
    search lower tenant_id query limit store

extend_chunks-append :
    (cs : List KnowledgeChunk) (mem : KnowledgeRepository) → extend_chunks cs mem ≡ mem ++ cs
unfolding extend_chunks
extend_chunks-append [] mem = sym (append-nil mem)
extend_chunks-append (c ∷ cs) mem = refl

-- Whatever has been added: a knowledge store over a repository in memory answers each search as one
-- without a repository does, from the same chunks on.
pub search_store-modes :
    (lower : Text → Text) (css : List (List KnowledgeChunk)) (chunks : List KnowledgeChunk)
    (tenant_id : Option Text) (query : Text) (limit : ℕ)
    → search_store lower tenant_id query limit (add_all css (over_repository chunks))
      ≡ search_store lower tenant_id query limit (add_all css (in_memory chunks))
unfolding search_store add_all add_to_store
search_store-modes lower [] chunks tenant_id query limit =
    search_repository-search lower tenant_id query limit chunks
search_store-modes lower (cs ∷ css) chunks tenant_id query limit =
    ap (λ mem. search_store lower tenant_id query limit (add_all css (over_repository mem)))
      (extend_chunks-append cs chunks)
    ∙ search_store-modes lower css (chunks ++ cs) tenant_id query limit
