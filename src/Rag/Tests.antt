-- ===== src/Rag/Tests.antt =====
-- On app/rag: a short text, and two chunks of a store.
use ochestrate.Base.{
  ◌+◌, ◌≤◌, ◌≡◌, ◌≢◌, refl, false, text_beq, arith, none, some, List, [], ◌∷◌, map, length, All,
}
use ochestrate.Text.{Text, codes, strip}
use ochestrate.Rag.{KnowledgeChunk, slices, ingest_text, score_of}
use ochestrate.Rag.Chunks.{concat, ingest_text-concat}
use ochestrate.Rag.Repository.{
  over_repository, in_memory, add_all, search_store, search_store-modes,
}
use ochestrate.Storage.Table.{Stored}
use ochestrate.Storage.Lists.{listed, listed-IsLawful}
use ochestrate.Rag.Database.{
  fits_chunk, ChunkRow, ChunkKey, key_beq, key_beq_iff, chunk_key, same_chunk, chunk_row, search_in,
  add_chunks_in,
}
use ochestrate.Rag.ChunkDict.{IsBatch, IsKept, insert_chunks}
use ochestrate.Rag.Upsert.{contents, add_chunks_twice}
use ochestrate.Rag.Ranking.{IsRanked, IsHit}
use ochestrate.Rag.Searched.{search_in-IsRanked}

ingest_text-concat_example :
    let chunks =
      map
        (λ c. c.content)
        (ingest_text (λ t. t) (λ n. n ∷ []) none (codes "acme") (codes "doc") (codes "hello") 2) in
    (concat chunks ≡ codes "hello")
    × All (λ t. length t ≤ 2) chunks
    × (slices (length (codes "hello") + 3) 2 (codes "hello") ≡ chunks)
ingest_text-concat_example =
    ingest_text-concat (λ t. t) (λ n. n ∷ []) (codes "acme") (codes "doc") (codes "hello") 2 3
      (omega arith)

abbrev chunk : Text → KnowledgeChunk
chunk content = record {
  tenant_id = codes "acme";
  source_id = codes "doc";
  chunk_id = content;
  content = content;
  metadata = [];
  embedding = none;
}

abbrev store : List KnowledgeChunk
store = chunk (codes "black tea") ∷ chunk (codes "green tea leaf") ∷ []

search_store-modes_example :
    search_store
      (λ t. t)
      (some (codes "acme"))
      (codes "tea")
      5
      (add_all (store ∷ []) (over_repository []))
    ≡ search_store
        (λ t. t)
        (some (codes "acme"))
        (codes "tea")
        5
        (add_all (store ∷ []) (in_memory []))
search_store-modes_example =
    search_store-modes (λ t. t) (store ∷ []) [] (some (codes "acme")) (codes "tea") 5

differ : (x y : ChunkKey) → key_beq x y ≡ false → x ≢ y
differ x y h e = absurd (cc ((key_beq_iff x y).1 e, h))

store-IsBatch : IsBatch store
unfolding key_beq text_beq
store-IsBatch = (
  (
    differ (chunk_key (chunk (codes "black tea"))) (chunk_key (chunk (codes "green tea leaf")))
        refl,
    tt,
  ),
  (tt, tt),
)

add_chunks_twice_example :
    (s' : List (Stored ChunkRow)) × (s'' : List (Stored ChunkRow)) × (add_chunks_in
        (listed fits_chunk same_chunk)
        3
        store
        []
      ≡ some s')
    × (contents (listed fits_chunk same_chunk) s' ≡ insert_chunks store [])
    × IsKept (contents (listed fits_chunk same_chunk) s') store
    × (add_chunks_in (listed fits_chunk same_chunk) 4 store s' ≡ some s'')
    × (contents (listed fits_chunk same_chunk) s'' ≡ contents (listed fits_chunk same_chunk) s')
unfolding fits_chunk
add_chunks_twice_example =
    add_chunks_twice (listed fits_chunk same_chunk) (listed-IsLawful fits_chunk same_chunk) 3 4
      store [] store-IsBatch (refl, (refl, tt))

abbrev rows : List (Stored ChunkRow)
rows =
    record { created_at = 1; columns = chunk_row (chunk (codes "black tea")) }
    ∷ record { created_at = 2; columns = chunk_row (chunk (codes "green tea leaf")) }
    ∷ []

search_in-IsRanked_example :
    IsRanked (score_of (λ t. t) (strip (codes "tea leaf"))) (
      search_in
        (listed fits_chunk same_chunk)
        (λ t. t)
        (some (codes "acme"))
        (codes "tea leaf")
        3
        rows)
    × All (IsHit (score_of (λ t. t) (strip (codes "tea leaf"))) (some (codes "acme"))) (
        search_in
          (listed fits_chunk same_chunk)
          (λ t. t)
          (some (codes "acme"))
          (codes "tea leaf")
          3
          rows)
unfolding strip
search_in-IsRanked_example =
    search_in-IsRanked (listed fits_chunk same_chunk) (listed-IsLawful fits_chunk same_chunk)
      (λ t. t) (some (codes "acme")) rows (codes "tea leaf") 3 refl
