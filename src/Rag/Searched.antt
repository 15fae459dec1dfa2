-- ===== src/Rag/Searched.antt =====
-- On `KnowledgeRepository.search` of app/storage/repositories/knowledge_repo.py in its database mode: it
-- ranks the newest chunks of the tenant as the search in memory ranks those that it has.
use ochestrate.Base.{
  ◌≡◌, ap, sym, ◌∙◌, refl, ℕ, Bool, true, false, not, Option, List, [], ◌∷◌, map, keep, take,
  count_if, All, All-take, Bool-cases, inl, inr, arith,
}
use ochestrate.Text.{Text, is_empty, strip}
use ochestrate.Storage.Table.{Stored, Table, IsLawful}
use ochestrate.Rag.{KnowledgeChunk, is_of, score_of, search}
use ochestrate.Rag.Repository.{search_repository, search_repository-search, rank}
use ochestrate.Rag.Ranking.{IsRanked, IsHit, search-IsRanked}
use ochestrate.Rag.Database.{fits_chunk, ChunkRow, same_chunk, chunk_of_row, search_in}

module _ {A : Type 0} (p : A → Bool) where
  count-not_kept : (xs : List A) → count_if (λ x. not (p x)) (keep p xs) ≡ 0
  count-not_kept [] = refl
  count-not_kept (x ∷ xs) = ground (arith, count-not_kept xs)

  All-count : (xs : List A) → count_if (λ x. not (p x)) xs ≡ 0 → All (λ x. p x ≡ true) xs
  All-count [] h = tt
  All-count (x ∷ xs) h = elim (Bool-cases (p x)) [
    | inl holds ↦ (holds, All-count xs (rw (count_if, holds) at h))
    | inr fails ↦ absurd (omega (arith, (rw (count_if, fails) at h)))
  ]

  keep-All : (xs : List A) → All (λ x. p x ≡ true) xs → keep p xs ≡ xs
  keep-All [] h = refl
  keep-All (x ∷ xs) h = rw (h.0, keep) (ap (λ ys. x ∷ ys) (keep-All xs h.1))

map-All :
    {A B : Type 0} (f : A → B) (p : B → Bool) (xs : List A)
    → All (λ x. p (f x) ≡ true) xs
    → All (λ y. p y ≡ true) (map f xs)
map-All f p [] h = tt
map-All f p (x ∷ xs) h = (h.0, map-All f p xs h.1)

module _ {S : Type 0} (T : Table ChunkRow S) (law : IsLawful fits_chunk same_chunk T)
    (lower : Text → Text) (tenant_id : Option Text) (s : S) where
  abbrev of_tenant : Stored ChunkRow → Bool
  of_tenant r = is_of tenant_id (chunk_of_row r.columns)

  -- the chunks that are ranked
  abbrev newest : List KnowledgeChunk
  newest =
      map (λ (r : Stored ChunkRow). chunk_of_row r.columns)
        (take 300 (T.newest_first (keep of_tenant (T.rows s))))

  newest_of_tenant : All (λ c. is_of tenant_id c ≡ true) newest
  newest_of_tenant =
      let found = T.newest_first (keep of_tenant (T.rows s)) in
      map-All (λ (r : Stored ChunkRow). chunk_of_row r.columns) (is_of tenant_id) (take 300 found)
        (All-take (λ r. of_tenant r ≡ true) 300 found
          (All-count of_tenant found (
            law.count-newest_first (λ r. not (of_tenant r)) _
            ∙ count-not_kept of_tenant (T.rows s))))

  search_in-search :
      (query : Text) (limit : ℕ)
      → search_in T lower tenant_id query limit s ≡ search lower tenant_id query limit newest
  unfolding search_in search_repository
  search_in-search query limit =
      ap (λ chunks. rank lower chunks (strip (lower query)) limit)
        (sym (keep-All (is_of tenant_id) newest newest_of_tenant))
      ∙ search_repository-search lower tenant_id query limit newest

  -- A search with words in it, in a database that compares texts exactly, returns only chunks of the
  -- tenant that have one of the words, and those with more of them first.
  pub search_in-IsRanked :
      (query : Text) (limit : ℕ)
      → is_empty (strip (lower query)) ≡ false
      → IsRanked (score_of lower (strip (lower query))) (search_in T lower tenant_id query limit s)
        × All
            (IsHit (score_of lower (strip (lower query))) tenant_id)
            (search_in T lower tenant_id query limit s)
  search_in-IsRanked query limit words =
      rw (search_in-search query limit) (search-IsRanked lower tenant_id query limit newest words)
