-- ===== src/Rag/ChunkDict.antt =====
-- On app/storage/repositories/knowledge_repo.py in its database mode: chunks as entries of a dict from
-- tenant, source and chunk identifier to the text and its metadata.
use ochestrate.Base.{
  ap, sym, ◌∙◌, ◌≡◌, ◌≢◌, refl, some, List, [], ◌∷◌, ◌==◌, inl, inr, Bool-cases, All,
}
use ochestrate.Text.{Text}
use ochestrate.Dict.{Dict, lookup, insert, lookup-insert_self, lookup-insert_ne}
use ochestrate.Schemas.{Params}
use ochestrate.Storage.Rows.{some_inj}
use ochestrate.Rag.{KnowledgeChunk}
use ochestrate.Rag.Database.{ChunkKey, key_eq, chunk_key}

-- What is kept under a key: the text and its metadata.
abbrev pub Body : Type 0
Body = Text × Params

abbrev pub body_of : KnowledgeChunk → Body
body_of c = (c.content, c.metadata)

-- The chunks assigned in turn to a dict.
unfoldable pub insert_chunks : List KnowledgeChunk → Dict ChunkKey Body → Dict ChunkKey Body
insert_chunks [] d = d
insert_chunks (c ∷ cs) d = insert_chunks cs (insert (chunk_key c) (body_of c) d)

-- No two chunks of a batch have one key.
abbrev pub IsBatch : List KnowledgeChunk → Type 0
IsBatch [] = Unit
IsBatch (c ∷ cs) = All (λ d. chunk_key c ≢ chunk_key d) cs × IsBatch cs

insert_again :
    (k : ChunkKey) (v : Body) (d : Dict ChunkKey Body) → lookup k d ≡ some v → insert k v d ≡ d
unfolding lookup insert
insert_again k v [] h = absurd cc
insert_again k v ((j, w) ∷ d) h = elim (Bool-cases (j == k)) [
  | inl same ↦
      let e : w ≡ v = some_inj (rw (same, lookup) at h) in
      rw (same, insert) (ap (λ x. (j, x) ∷ d) (sym e))
  | inr other ↦
      rw (other, insert) (ap (λ rest. (j, w) ∷ rest) (insert_again k v d (rw (other, lookup) at h)))
]

-- Each chunk's own text is kept under its key.
abbrev pub IsKept : Dict ChunkKey Body → List KnowledgeChunk → Type 0
IsKept d cs = All (λ c. lookup (chunk_key c) d ≡ some (body_of c)) cs

lookup-insert_chunks_ne :
    (k : ChunkKey) (cs : List KnowledgeChunk) (d : Dict ChunkKey Body)
    → All (λ c. k ≢ chunk_key c) cs
    → lookup k (insert_chunks cs d) ≡ lookup k d
unfolding insert_chunks
lookup-insert_chunks_ne k [] d h = refl
lookup-insert_chunks_ne k (c ∷ cs) d h =
    lookup-insert_chunks_ne k cs (insert (chunk_key c) (body_of c) d) h.1
    ∙ lookup-insert_ne (chunk_key c) k (body_of c) d (λ e. h.0 (sym e))

pub insert_chunks-IsKept :
    (cs : List KnowledgeChunk) (d : Dict ChunkKey Body)
    → IsBatch cs
    → IsKept (insert_chunks cs d) cs
unfolding insert_chunks
insert_chunks-IsKept [] d batch = tt
insert_chunks-IsKept (c ∷ cs) d batch = (
  lookup-insert_chunks_ne (chunk_key c) cs (insert (chunk_key c) (body_of c) d) batch.0
      ∙ lookup-insert_self (chunk_key c) (body_of c) d,
  insert_chunks-IsKept cs (insert (chunk_key c) (body_of c) d) batch.1,
)

pub insert_chunks_again :
    (cs : List KnowledgeChunk) (d : Dict ChunkKey Body) → IsKept d cs → insert_chunks cs d ≡ d
unfolding insert_chunks
insert_chunks_again [] d h = refl
insert_chunks_again (c ∷ cs) d h =
    ap (insert_chunks cs) (insert_again (chunk_key c) (body_of c) d h.0)
    ∙ insert_chunks_again cs d h.1
