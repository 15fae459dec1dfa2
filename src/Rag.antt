-- ===== src/Rag.antt =====
-- app/rag: the ingestion of texts, the knowledge store in its memory mode, and the retriever, with
-- app/agents/retriever.py. `str.lower`, MD5 and the text of a number are parameters, and so is the
-- splitter of LlamaIndex where it is installed.
pub mod Chunks
pub mod Ranking
pub mod Repository
pub mod Database
pub mod ChunkDict
pub mod Upsert
pub mod Searched
mod Tests
use ochestrate.Base.{
  ℕ, zero, suc, ◌+◌, ◌-◌, ◌*◌, max, Bool, true, false, Option, none, some, List, [], ◌∷◌, ◌++◌, map,
  ◌==◌, if◌then◌else◌, leb, ltb, take, drop, length, keep, count_if,
}
use ochestrate.Text.{Text, text_eq, codes, is_empty, split, strip, contains}
use ochestrate.Schemas.{Value, Params, Citation, UnifiedRequest}

pub record KnowledgeChunk : Type 0 where
  pub tenant_id : Text
  pub source_id : Text
  pub chunk_id : Text
  pub content : Text
  pub metadata : Params
  pub embedding : Option (List ℕ)

-- the slices of `size` characters, by a recursion that the first argument bounds
unfoldable pub slices : ℕ → ℕ → Text → List Text
slices zero size text = []
slices (suc k) size [] = []
slices (suc k) size (c ∷ cs) = take size (c ∷ cs) ∷ slices k size (drop size (c ∷ cs))

unfoldable pub raw_chunks : Option (Text → List Text) → Text → ℕ → List Text
raw_chunks none text chunk_size = slices (length text) chunk_size text
raw_chunks (some split_text) text chunk_size = split_text text

module _ (md5 : Text → Text) (show_int : ℕ → Text) where
  unfoldable pub number_chunks : Text → Text → ℕ → List Text → List KnowledgeChunk
  number_chunks tenant_id source_id idx [] = []
  number_chunks tenant_id source_id idx (content ∷ contents) =
      record {
        tenant_id = tenant_id;
        source_id = source_id;
        chunk_id = md5 (source_id ++ (codes ":" ++ show_int idx));
        content = content;
        metadata = (codes "index", Value.num idx) ∷ [];
        embedding = none;
      }
      ∷ number_chunks tenant_id source_id (suc idx) contents

  -- `IngestionPipeline.ingest_text` for a positive chunk size
  unfoldable pub ingest_text :
      Option (Text → List Text) → Text → Text → Text → ℕ → List KnowledgeChunk
  unfolding number_chunks
  ingest_text splitter tenant_id source_id text chunk_size =
      number_chunks tenant_id source_id 0 (raw_chunks splitter text chunk_size)

-- `KnowledgeStore` without a repository
abbrev pub KnowledgeStore : Type 0
KnowledgeStore = List KnowledgeChunk

-- `KnowledgeStore.add_chunks`
abbrev pub add_chunks : List KnowledgeChunk → KnowledgeStore → KnowledgeStore
add_chunks chunks store = store ++ chunks

-- `c.tenant_id == tenant_id`: no chunk is of the tenant `None`.
unfoldable pub is_of : Option Text → KnowledgeChunk → Bool
is_of none c = false
is_of (some tenant_id) c = c.tenant_id == tenant_id

-- a chunk goes before the first that scores no more
unfoldable pub place : ℕ × KnowledgeChunk → List (ℕ × KnowledgeChunk) → List (ℕ × KnowledgeChunk)
place x [] = x ∷ []
place x (y ∷ ys) = if leb y.0 x.0 then x ∷ y ∷ ys else y ∷ place x ys

-- `scored.sort(key=lambda x: x[0], reverse=True)`, which keeps the order of equal scores
unfoldable pub sort_scored : List (ℕ × KnowledgeChunk) → List (ℕ × KnowledgeChunk)
unfolding place
sort_scored [] = []
sort_scored (x ∷ xs) = place x (sort_scored xs)

-- the citations from the index on; the score is in hundredths
unfoldable pub cite : ℕ → List KnowledgeChunk → List Citation
cite idx [] = []
cite idx (c ∷ cs) =
    record {
      source_id = c.source_id;
      chunk_id = c.chunk_id;
      snippet = take 200 c.content;
      score = max 10 (100 - idx * 10);
    }
    ∷ cite (suc idx) cs

module _ (lower : Text → Text) where
  unfoldable pub score_of : Text → KnowledgeChunk → ℕ
  score_of normalized c = count_if (λ token. contains token (lower c.content)) (split normalized)

  unfoldable pub score_all : Text → List KnowledgeChunk → List (ℕ × KnowledgeChunk)
  unfolding score_of
  score_all normalized [] = []
  score_all normalized (c ∷ cs) =
      let rest = score_all normalized cs in
      if ltb 0 (score_of normalized c) then (score_of normalized c, c) ∷ rest else rest

  abbrev pub chunk_of : ℕ × KnowledgeChunk → KnowledgeChunk
  chunk_of (score, c) = c

  -- `KnowledgeStore.search`
  unfoldable pub search : Option Text → Text → ℕ → KnowledgeStore → List KnowledgeChunk
  unfolding score_all sort_scored
  search tenant_id query limit store =
      let normalized = strip (lower query) in
      let candidates = keep (is_of tenant_id) store in
      if is_empty normalized
      then take limit candidates
      else map chunk_of (take limit (sort_scored (score_all normalized candidates)))

  -- `HybridRetriever.retrieve`
  unfoldable pub retrieve : Option Text → Text → ℕ → KnowledgeStore → List Citation
  unfolding search cite
  retrieve tenant_id query limit store = cite 0 (search tenant_id query limit store)

  -- `RetrieverAgent.retrieve`
  abbrev pub retrieve_for : UnifiedRequest → KnowledgeStore → List Citation
  retrieve_for request store = retrieve request.tenant_id request.input 5 store
