-- ===== src/Rag/Ranking.antt =====
-- On app/rag: what the search of the knowledge store returns, and in which order.
use ochestrate.Base.{
  ℕ, zero, suc, ◌≤◌, ◌<◌, ◌≡◌, refl, inl, inr, arith, true, false, Option, List, [], ◌∷◌, map, leb,
  ltb, take, keep, All, All-take, All-keep, All-imp, Bool-cases,
}
use ochestrate.Text.{Text, is_empty, strip}
use ochestrate.Rag.{
  KnowledgeChunk, is_of, place, sort_scored, score_of, score_all, search, chunk_of,
}

-- No chunk scores more than one before it.
abbrev pub IsRanked : (KnowledgeChunk → ℕ) → List KnowledgeChunk → Type 0
IsRanked f [] = Unit
IsRanked f (c ∷ cs) = All (λ d. f d ≤ f c) cs × IsRanked f cs

unfoldable IsSorted : List (ℕ × KnowledgeChunk) → Type 0
IsSorted [] = Unit
IsSorted (x ∷ xs) = All (λ y. y.0 ≤ x.0) xs × IsSorted xs

place-All :
    (P : ℕ × KnowledgeChunk → Type 0) (x : ℕ × KnowledgeChunk) (xs : List (ℕ × KnowledgeChunk))
    → P x
    → All P xs
    → All P (place x xs)
unfolding place
place-All P x [] p h = (p, tt)
place-All P x (y ∷ ys) p h = elim (Bool-cases (leb y.0 x.0)) [
  | inl before ↦ rw (before, place) (p, h)
  | inr behind ↦ rw (behind, place) (h.0, place-All P x ys p h.1)
]

place-IsSorted :
    (x : ℕ × KnowledgeChunk) (xs : List (ℕ × KnowledgeChunk)) → IsSorted xs → IsSorted (place x xs)
unfolding place IsSorted
place-IsSorted x [] h = (tt, tt)
place-IsSorted x (y ∷ ys) h = elim (Bool-cases (leb y.0 x.0)) [
  | inl before ↦ rw (before, place) ((ground arith, All-imp ys (λ z le. ground (arith, le)) h.0), h)
  | inr behind ↦
      rw (behind, place)
        (place-All (λ z. z.0 ≤ y.0) x ys (ground arith) h.0, place-IsSorted x ys h.1)
]

sort_scored-IsSorted : (xs : List (ℕ × KnowledgeChunk)) → IsSorted (sort_scored xs)
unfolding sort_scored IsSorted
sort_scored-IsSorted [] = tt
sort_scored-IsSorted (x ∷ xs) = place-IsSorted x (sort_scored xs) (sort_scored-IsSorted xs)

sort_scored-All :
    (P : ℕ × KnowledgeChunk → Type 0) (xs : List (ℕ × KnowledgeChunk))
    → All P xs
    → All P (sort_scored xs)
unfolding sort_scored
sort_scored-All P [] h = tt
sort_scored-All P (x ∷ xs) h = place-All P x (sort_scored xs) h.0 (sort_scored-All P xs h.1)

take-IsSorted : (n : ℕ) (xs : List (ℕ × KnowledgeChunk)) → IsSorted xs → IsSorted (take n xs)
unfolding IsSorted
take-IsSorted zero xs h = tt
take-IsSorted (suc n) [] h = tt
take-IsSorted (suc n) (x ∷ xs) h = (All-take _ n xs h.0, take-IsSorted n xs h.1)

-- A chunk with its score, of the tenant, and found.
record IsFound (f : KnowledgeChunk → ℕ) (tenant_id : Option Text) (x : ℕ × KnowledgeChunk)
    : Type 0 where
  pub scored : x.0 ≡ f x.1
  pub positive : 0 < x.0
  pub of_tenant : is_of tenant_id x.1 ≡ true

-- A chunk of the tenant that has a word of the query.
pub record IsHit (f : KnowledgeChunk → ℕ) (tenant_id : Option Text) (c : KnowledgeChunk)
    : Type 0 where
  pub positive : 0 < f c
  pub of_tenant : is_of tenant_id c ≡ true

module _ (lower : Text → Text) (f : KnowledgeChunk → ℕ) (tenant_id : Option Text) where
  below :
      (x : ℕ × KnowledgeChunk) (xs : List (ℕ × KnowledgeChunk))
      → IsFound f tenant_id x
      → All (IsFound f tenant_id) xs
      → All (λ y. y.0 ≤ x.0) xs
      → All (λ d. f d ≤ f x.1) (map (chunk_of lower) xs)
  below x [] p h s = tt
  below x (y ∷ ys) p h s = (omega (arith, (h.0).scored, p.scored, s.0), below x ys p h.1 s.1)

  map-IsRanked :
      (xs : List (ℕ × KnowledgeChunk))
      → All (IsFound f tenant_id) xs
      → IsSorted xs
      → IsRanked f (map (chunk_of lower) xs) × All (IsHit f tenant_id) (map (chunk_of lower) xs)
  unfolding IsSorted
  map-IsRanked [] h s = (tt, tt)
  map-IsRanked (x ∷ xs) h s =
      let (ranked, hits) = map-IsRanked xs h.1 s.1 in
      (
        (below x xs h.0 h.1 s.0, ranked),
        (
          record {
            positive = omega (arith, (h.0).scored, (h.0).positive);
            of_tenant = (h.0).of_tenant;
          },
          hits,
        ),
      )

module _ (lower : Text → Text) (tenant_id : Option Text) where
  score_all-IsFound :
      (normalized : Text) (cs : List KnowledgeChunk)
      → All (λ c. is_of tenant_id c ≡ true) cs
      → All (IsFound (score_of lower normalized) tenant_id) (score_all lower normalized cs)
  unfolding score_all
  score_all-IsFound normalized [] h = tt
  score_all-IsFound normalized (c ∷ cs) h =
      elim (Bool-cases (ltb 0 (score_of lower normalized c))) [
        | inl hit ↦
            rw (hit, score_all)
              (
                record { scored = refl; positive = ground (arith, hit); of_tenant = h.0 },
                score_all-IsFound normalized cs h.1,
              )
        | inr miss ↦ rw (miss, score_all) (score_all-IsFound normalized cs h.1)
      ]

  -- A search with words in it returns only chunks of the tenant that have one of the words, and
  -- those with more of them first.
  pub search-IsRanked :
      (query : Text) (limit : ℕ) (store : List KnowledgeChunk)
      → is_empty (strip (lower query)) ≡ false
      → IsRanked (score_of lower (strip (lower query))) (search lower tenant_id query limit store)
        × All
            (IsHit (score_of lower (strip (lower query))) tenant_id)
            (search lower tenant_id query limit store)
  unfolding search
  search-IsRanked query limit store words =
      let normalized = strip (lower query) in
      let scored = score_all lower normalized (keep (is_of tenant_id) store) in
      rw words (
        map-IsRanked lower (score_of lower normalized) tenant_id (take limit (sort_scored scored))
          (All-take _ limit (sort_scored scored) (
            sort_scored-All _ scored
              (score_all-IsFound normalized _ (All-keep (is_of tenant_id) store))))
          (take-IsSorted limit (sort_scored scored) (sort_scored-IsSorted scored)))
