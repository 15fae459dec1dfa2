-- ===== src/Rag/Chunks.antt =====
-- On app/rag: the chunks of a text are the text.
use ochestrate.Base.{
  ◌+◌, ℕ, zero, suc, ◌≤◌, ◌<◌, ◌≡◌, refl, ap, ◌∙◌, arith, none, List, [], ◌∷◌, ◌++◌, map, take,
  drop, length, All, length-take, length-drop,
}
use ochestrate.Text.{Text}
use ochestrate.Rag.{slices, raw_chunks, number_chunks, ingest_text}

-- The texts one behind the other.
unfoldable pub concat : List Text → Text
concat [] = []
concat (t ∷ ts) = t ++ concat ts

take-drop : (n : ℕ) (t : Text) → take n t ++ drop n t ≡ t
take-drop zero t = refl
take-drop (suc n) [] = refl
take-drop (suc n) (c ∷ cs) = ap (λ t. c ∷ t) (take-drop n cs)

slices-concat :
    (k size : ℕ) (text : Text) → 0 < size → length text ≤ k → concat (slices k size text) ≡ text
unfolding slices concat
slices-concat zero size [] h e = refl
slices-concat zero size (c ∷ cs) h e = absurd (omega arith)
slices-concat (suc k) size [] h e = refl
slices-concat (suc k) size (c ∷ cs) h e =
    ap (λ t. take size (c ∷ cs) ++ t)
      (slices-concat k size (drop size (c ∷ cs)) h (omega (arith, length-drop size (c ∷ cs))))
    ∙ take-drop size (c ∷ cs)

-- Two bounds that are long enough give the same slices.
slices_alike :
    (k j size : ℕ) (text : Text)
    → 0 < size
    → length text ≤ k
    → length text ≤ j
    → slices k size text ≡ slices j size text
unfolding slices
slices_alike zero zero size text h a b = refl
slices_alike zero (suc j) size [] h a b = refl
slices_alike zero (suc j) size (c ∷ cs) h a b = absurd (omega arith)
slices_alike (suc k) zero size [] h a b = refl
slices_alike (suc k) zero size (c ∷ cs) h a b = absurd (omega arith)
slices_alike (suc k) (suc j) size [] h a b = refl
slices_alike (suc k) (suc j) size (c ∷ cs) h a b =
    ap (λ ts. take size (c ∷ cs) ∷ ts)
      (slices_alike k j size (drop size (c ∷ cs)) h (omega (arith, length-drop size (c ∷ cs)))
        (omega (arith, length-drop size (c ∷ cs))))

slices-length : (k size : ℕ) (text : Text) → All (λ t. length t ≤ size) (slices k size text)
unfolding slices
slices-length zero size text = tt
slices-length (suc k) size [] = tt
slices-length (suc k) size (c ∷ cs) =
    (omega (arith, length-take size (c ∷ cs)), slices-length k size (drop size (c ∷ cs)))

module _ (md5 : Text → Text) (show_int : ℕ → Text) where
  contents :
      (t s : Text) (idx : ℕ) (cs : List Text)
      → map (λ c. c.content) (number_chunks md5 show_int t s idx cs) ≡ cs
  unfolding number_chunks
  contents t s idx [] = refl
  contents t s idx (c ∷ cs) = ap (λ ds. c ∷ ds) (contents t s (suc idx) cs)

  -- Without the splitter, a positive chunk size cuts a text into chunks of at most that size that
  -- are, one behind the other, the text; and the bound on the recursion is enough, since a larger
  -- one gives the same chunks.
  pub ingest_text-concat :
      (tenant_id source_id text : Text) (chunk_size more : ℕ)
      → 0 < chunk_size
      → let chunks =
          map
            (λ c. c.content)
            (ingest_text md5 show_int none tenant_id source_id text chunk_size) in
        (concat chunks ≡ text)
        × All (λ t. length t ≤ chunk_size) chunks
        × (slices (length text + more) chunk_size text ≡ chunks)
  unfolding ingest_text raw_chunks
  ingest_text-concat tenant_id source_id text chunk_size more h =
      rw (contents tenant_id source_id 0 (slices (length text) chunk_size text)) (
        slices-concat (length text) chunk_size text h (omega arith),
        slices-length (length text) chunk_size text,
        slices_alike (length text + more) (length text) chunk_size text h (omega arith)
            (omega arith),
      )
