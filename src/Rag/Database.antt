-- ===== src/Rag/Database.antt =====
-- app/storage/repositories/knowledge_repo.py in its database mode. A session does not flush on a query
-- (app/storage/orm.py), so that the look-ups of `add_chunks` see the rows as they were before the
-- call; one commit at the end writes all of them or none.
use ochestrate.Base.{
  ℕ, ◌≡◌, ◌↔◌, Bool, true, Option, none, some, List, [], ◌∷◌, ◌==◌, ◌&&◌, Eq, keep, map, take,
  arith, text_beq, text_beq_iff,
}
use ochestrate.Text.{Text, text_eq, strip}
use ochestrate.Schemas.{Params}
use ochestrate.Storage.Rows.{first}
use ochestrate.Storage.Table.{within, mediumtext_room, Stored, Table, test}
use ochestrate.Rag.{KnowledgeChunk, is_of}
use ochestrate.Rag.Repository.{rank}

-- `KnowledgeChunkORM`
pub record ChunkRow : Type 0 where
  pub tenant_id : Text
  pub source_id : Text
  pub chunk_id : Text
  pub content : Text
  pub metadata_json : Params

-- the lengths of the columns
unfoldable pub fits_chunk : ChunkRow → Bool
fits_chunk row =
    within 64 row.tenant_id
    && within 128 row.source_id
    && within 64 row.chunk_id
    && within mediumtext_room row.content

-- the columns of the unique constraint `uk_chunk`
abbrev pub ChunkKey : Type 0
ChunkKey = Text × Text × Text

unfoldable pub key_beq : ChunkKey → ChunkKey → Bool
key_beq (a, b, c) (d, e, f) = text_beq a d && text_beq b e && text_beq c f

pub key_beq_iff : (x y : ChunkKey) → (key_beq x y ≡ true) ↔ (x ≡ y)
unfolding key_beq
key_beq_iff (a, b, c) (d, e, f) = (
  λ h. ground (arith, text_beq_iff a d, text_beq_iff b e, text_beq_iff c f),
  λ h. ground (arith, text_beq_iff a d, text_beq_iff b e, text_beq_iff c f),
)

instance abbrev pub key_eq : Eq ChunkKey
key_eq = record { beq = key_beq; beq_iff = key_beq_iff }

abbrev pub row_key : ChunkRow → ChunkKey
row_key row = (row.tenant_id, row.source_id, row.chunk_id)

abbrev pub chunk_key : KnowledgeChunk → ChunkKey
chunk_key c = (c.tenant_id, c.source_id, c.chunk_id)

abbrev pub same_chunk : ChunkRow → ChunkRow → Bool
same_chunk a b = row_key b == row_key a

-- the row that `add_chunks` adds
abbrev pub chunk_row : KnowledgeChunk → ChunkRow
chunk_row c = record {
  tenant_id = c.tenant_id;
  source_id = c.source_id;
  chunk_id = c.chunk_id;
  content = c.content;
  metadata_json = c.metadata;
}

-- the assignments of `add_chunks` to a row that is there
abbrev pub set_chunk : KnowledgeChunk → ChunkRow → ChunkRow
set_chunk c row = record row { content = c.content; metadata_json = c.metadata }

-- the chunk that `search` makes of a row
abbrev pub chunk_of_row : ChunkRow → KnowledgeChunk
chunk_of_row row = record {
  tenant_id = row.tenant_id;
  source_id = row.source_id;
  chunk_id = row.chunk_id;
  content = row.content;
  metadata = row.metadata_json;
  embedding = none;
}

module _ {S : Type 0} (T : Table ChunkRow S) where
  unfoldable pub find_chunk : KnowledgeChunk → S → Option (Stored ChunkRow)
  find_chunk c s = first (test (λ row. row_key row == chunk_key c)) (T.rows s)

  -- one chunk, by the row that its look-up has found
  unfoldable pub write_chunk : Option (Stored ChunkRow) → ℕ → KnowledgeChunk → S → Option S
  write_chunk none now c s = T.add now (chunk_row c) s
  write_chunk (some existing) now c s =
      some (T.write (λ row. row_key row == chunk_key c) (set_chunk c) s)

  -- the chunks in turn, with look-ups in `before`
  unfoldable pub write_chunks : S → ℕ → List KnowledgeChunk → S → Option S
  unfolding find_chunk write_chunk
  write_chunks before now [] s = some s
  write_chunks before now (c ∷ cs) s = elim (write_chunk (find_chunk c before) now c s) [
    | none ↦ none
    | some s' ↦ write_chunks before now cs s'
  ]

  -- `KnowledgeRepository.add_chunks`; none is its `IntegrityError` or `DataError`.
  unfoldable pub add_chunks_in : ℕ → List KnowledgeChunk → S → Option S
  unfolding write_chunks
  add_chunks_in now chunks s = write_chunks s now chunks s

  -- `KnowledgeRepository.search`
  unfoldable pub search_in : (Text → Text) → Option Text → Text → ℕ → S → List KnowledgeChunk
  unfolding rank
  search_in lower tenant_id query limit s =
      rank lower
        (map (λ r. chunk_of_row r.columns)
          (take 300
            (T.newest_first (keep (λ r. is_of tenant_id (chunk_of_row r.columns)) (T.rows s)))))
        (strip (lower query)) limit
