-- ===== src/Rag/Upsert.antt =====
-- On app/storage/repositories/knowledge_repo.py in its database mode: the table of chunks is a dict of these entries.
use mathlib.Core.List.{map-append}
use mathlib.Core.Path.{subst}
use ochestrate.Base.{
  arith, true, ap, sym, ◌∙◌, ◌≡◌, ◌≢◌, refl, Option, none, some, ℕ, Bool, List, [], ◌∷◌, map, ◌==◌,
  inl, inr, Option-cases, All,
}
use ochestrate.Dict.{Dict, lookup, insert, lookup-insert_ne}
use ochestrate.Storage.Rows.{first, map_option, first-map, any-none, change_found, change_first-map}
use ochestrate.Storage.Keyed.{lookup-entries, insert_new, insert_old}
use ochestrate.Storage.Table.{Stored, Table, test, assign, IsLawful}
use ochestrate.Rag.{KnowledgeChunk}
use ochestrate.Rag.Database.{
  fits_chunk, ChunkRow, ChunkKey, key_eq, row_key, chunk_key, same_chunk, chunk_row, set_chunk,
  find_chunk, write_chunk, write_chunks, add_chunks_in,
}
use ochestrate.Rag.ChunkDict.{
  Body, body_of, insert_chunks, IsBatch, IsKept, insert_chunks-IsKept, insert_chunks_again,
}

abbrev pub entry_of : Stored ChunkRow → ChunkKey × Body
entry_of r = (row_key r.columns, (r.columns.content, r.columns.metadata_json))

module _ {S : Type 0} (T : Table ChunkRow S) where
  abbrev pub contents : S → Dict ChunkKey Body
  contents s = map entry_of (T.rows s)

  abbrev has_key : ChunkKey → ChunkKey × Body → Bool
  has_key k p = p.0 == k

  found_chunk :
      (c : KnowledgeChunk) (s : S)
      → first (has_key (chunk_key c)) (contents s) ≡ map_option entry_of (find_chunk T c s)
  unfolding find_chunk
  found_chunk c s = first-map entry_of (has_key (chunk_key c)) (T.rows s)

  lookup-contents :
      (c : KnowledgeChunk) (s : S)
      → lookup (chunk_key c) (contents s)
        ≡ map_option (λ (p : ChunkKey × Body). p.1) (map_option entry_of (find_chunk T c s))
  lookup-contents c s =
      lookup-entries (chunk_key c) (contents s)
      ∙ ap (map_option (λ (p : ChunkKey × Body). p.1)) (found_chunk c s)

-- Each chunk is within the lengths of the columns.
abbrev pub AllFit : List KnowledgeChunk → Type 0
AllFit cs = All (λ c. fits_chunk (chunk_row c) ≡ true) cs

module _ {S : Type 0} (T : Table ChunkRow S) (law : IsLawful fits_chunk same_chunk T) where
  added :
      (now : ℕ) (c : KnowledgeChunk) (s : S)
      → fits_chunk (chunk_row c) ≡ true
      → find_chunk T c s ≡ none
      → (s' : S) × (write_chunk T none now c s ≡ some s')
        × (contents T s' ≡ insert (chunk_key c) (body_of c) (contents T s))
  unfolding write_chunk find_chunk
  added now c s fit absent =
      let (s', done, rows') =
        law.rows-add now (chunk_row c) s fit
          (any-none (test (same_chunk (chunk_row c))) _ absent) in
      (
        s',
        done,
        ap (map entry_of) rows'
            ∙ map-append entry_of (T.rows s) _
            ∙ sym (
                insert_new (chunk_key c) (body_of c) (contents T s) (
                  lookup-contents T c s
                  ∙ ap (λ o. map_option (λ (p : ChunkKey × Body). p.1) (map_option entry_of o))
                      absent)),
      )

  changed :
      (c : KnowledgeChunk) (s : S) {r : Stored ChunkRow}
      → fits_chunk (chunk_row c) ≡ true
      → find_chunk T c s ≡ some r
      → contents T (T.write (λ row. row_key row == chunk_key c) (set_chunk c) s)
        ≡ insert (chunk_key c) (body_of c) (contents T s)
  unfolding find_chunk fits_chunk
  changed c s {r} fit it =
      ap (map entry_of) (
        law.rows-write (λ row. row_key row == chunk_key c) (set_chunk c) s (λ a b. refl)
          (λ row room. ground (arith, fit, room))
        ∙ change_found (test (λ row. row_key row == chunk_key c)) (assign (set_chunk c)) (T.rows s)
            it)
      ∙ change_first-map entry_of (has_key T (chunk_key c)) (assign (set_chunk c) r) (T.rows s)
      ∙ sym (
          insert_old (chunk_key c) (body_of c) (contents T s)
            (found_chunk T c s ∙ ap (map_option entry_of) it))

  -- The look-up of the chunk finds as much as it found before the batch.
  abbrev AsBefore : S → S → KnowledgeChunk → Type 0
  AsBefore before s c =
      lookup (chunk_key c) (contents T s) ≡ lookup (chunk_key c) (contents T before)

  abbrev body_found : Option (Stored ChunkRow) → Option Body
  body_found o = map_option (λ (p : ChunkKey × Body). p.1) (map_option entry_of o)

  same_found :
      (before s : S) (c : KnowledgeChunk)
      → AsBefore before s c
      → body_found (find_chunk T c s) ≡ body_found (find_chunk T c before)
  same_found before s c same = sym (lookup-contents T c s) ∙ same ∙ lookup-contents T c before

  written :
      (before : S) (now : ℕ) (c : KnowledgeChunk) (s : S)
      → fits_chunk (chunk_row c) ≡ true
      → AsBefore before s c
      → (s' : S) × (write_chunk T (find_chunk T c before) now c s ≡ some s')
        × (contents T s' ≡ insert (chunk_key c) (body_of c) (contents T s))
  unfolding write_chunk
  written before now c s fit same =
      let agree = same_found before s c same in
      elim (Option-cases (find_chunk T c before)) [
        | inl absent ↦ elim (Option-cases (find_chunk T c s)) [
          | inl still ↦ rw (absent) (added now c s fit still)
          | inr (r, it) ↦ absurd (cc (agree, absent, it))
        ]
        | inr (r, present) ↦ elim (Option-cases (find_chunk T c s)) [
          | inl gone ↦ absurd (cc (agree, present, gone))
          | inr (r', it) ↦
              rw (present, write_chunk)
                (
                  T.write (λ row. row_key row == chunk_key c) (set_chunk c) s,
                  refl,
                  changed c s fit it,
                )
        ]
      ]

  AsBefore-kept :
      (before s s' : S) (c : KnowledgeChunk) (cs : List KnowledgeChunk)
      → All (λ d. chunk_key c ≢ chunk_key d) cs
      → contents T s' ≡ insert (chunk_key c) (body_of c) (contents T s)
      → All (AsBefore before s) cs
      → All (AsBefore before s') cs
  AsBefore-kept before s s' c [] ne e h = tt
  AsBefore-kept before s s' c (d ∷ cs) ne e h = (
    ap (lookup (chunk_key d)) e
        ∙ lookup-insert_ne (chunk_key c) (chunk_key d) (body_of c) (contents T s) ne.0
        ∙ h.0,
    AsBefore-kept before s s' c cs ne.1 e h.1,
  )

  write_chunks-insert_chunks :
      (before : S) (now : ℕ) (cs : List KnowledgeChunk) (s : S)
      → IsBatch cs
      → AllFit cs
      → All (AsBefore before s) cs
      → (s' : S) × (write_chunks T before now cs s ≡ some s')
        × (contents T s' ≡ insert_chunks cs (contents T s))
  unfolding write_chunks insert_chunks
  write_chunks-insert_chunks before now [] s batch fit h = (s, refl, refl)
  write_chunks-insert_chunks before now (c ∷ cs) s batch fit h =
      let (s₁, done, e) = written before now c s fit.0 h.0 in
      let (s', rest, e') =
        write_chunks-insert_chunks before now cs s₁ batch.1 fit.1
          (AsBefore-kept before s s₁ c cs batch.0 e h.1) in
      (s', rw (done, write_chunks) rest, e' ∙ ap (insert_chunks cs) e)

  All-AsBefore : (s : S) (cs : List KnowledgeChunk) → All (AsBefore s s) cs
  All-AsBefore s [] = tt
  All-AsBefore s (c ∷ cs) = (refl, All-AsBefore s cs)

  add_chunks-insert_chunks :
      (now : ℕ) (cs : List KnowledgeChunk) (s : S)
      → IsBatch cs
      → AllFit cs
      → (s' : S) × (add_chunks_in T now cs s ≡ some s')
        × (contents T s' ≡ insert_chunks cs (contents T s))
  unfolding add_chunks_in
  add_chunks-insert_chunks now cs s batch fit =
      write_chunks-insert_chunks s now cs s batch fit (All-AsBefore s cs)

-- Where the database compares texts exactly, chunks of which no two have the same tenant, source and
-- identifier, and whose tenants, sources and identifiers have at most 64, 128 and 64 characters and
-- whose texts at most 4194303, are added without an error. The
-- table then holds what a dict with these keys holds after they are assigned to it in turn; each
-- chunk's text and metadata are found under its key; and adding them once more succeeds and changes
-- nothing in the table.
pub add_chunks_twice :
    {S : Type 0} (T : Table ChunkRow S) (law : IsLawful fits_chunk same_chunk T) (now later : ℕ)
    (cs : List KnowledgeChunk) (s : S)
    → IsBatch cs
    → AllFit cs
    → (s' : S) × (s'' : S) × (add_chunks_in T now cs s ≡ some s')
      × (contents T s' ≡ insert_chunks cs (contents T s))
      × IsKept (contents T s') cs
      × (add_chunks_in T later cs s' ≡ some s'')
      × (contents T s'' ≡ contents T s')
add_chunks_twice T law now later cs s batch fit =
    let (s', first_time, e) = add_chunks-insert_chunks T law now cs s batch fit in
    let (s'', second_time, e') = add_chunks-insert_chunks T law later cs s' batch fit in
    let kept = subst (λ d. IsKept d cs) (sym e) (insert_chunks-IsKept cs (contents T s) batch) in
    (s', s'', first_time, e, kept, second_time, e' ∙ insert_chunks_again cs (contents T s') kept)
