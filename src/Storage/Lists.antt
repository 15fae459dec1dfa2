-- ===== src/Storage/Lists.antt =====
-- A database of app/storage in which each table is a list of rows, to which the theorems are
-- applied.
use ochestrate.Base.{
  suc, ◌≡◌, ap, ◌∙◌, Bool, true, false, not, none, some, List, [], ◌∷◌, ◌++◌, any, keep, count_if,
  refl, inl, inr, Bool-cases, if◌then◌else◌, leb, leb→le, arith, ◌||◌, text_beq,
}
use ochestrate.Storage.Rows.{change_first}
use ochestrate.Storage.Table.{Stored, Table, test, assign, IsLawful, IsOldestFirst}

module _ {Row : Type 0} where
  abbrev pub place_oldest : Stored Row → List (Stored Row) → List (Stored Row)
  place_oldest r [] = r ∷ []
  place_oldest r (t ∷ ts) =
      let rest = place_oldest r ts in if leb r.created_at t.created_at then r ∷ t ∷ ts else t ∷ rest

  abbrev pub sort_oldest : List (Stored Row) → List (Stored Row)
  sort_oldest [] = []
  sort_oldest (r ∷ rs) = place_oldest r (sort_oldest rs)

  abbrev pub place_newest : Stored Row → List (Stored Row) → List (Stored Row)
  place_newest r [] = r ∷ []
  place_newest r (t ∷ ts) =
      let rest = place_newest r ts in if leb t.created_at r.created_at then r ∷ t ∷ ts else t ∷ rest

  abbrev pub sort_newest : List (Stored Row) → List (Stored Row)
  sort_newest [] = []
  sort_newest (r ∷ rs) = place_newest r (sort_newest rs)

  count-place_oldest :
      (p : Stored Row → Bool) (r : Stored Row) (ts : List (Stored Row))
      → count_if p (place_oldest r ts) ≡ count_if p (r ∷ ts)
  count-place_oldest p r [] = refl
  count-place_oldest p r (t ∷ ts) = ground (arith, count-place_oldest p r ts)

  count-place_newest :
      (p : Stored Row → Bool) (r : Stored Row) (ts : List (Stored Row))
      → count_if p (place_newest r ts) ≡ count_if p (r ∷ ts)
  count-place_newest p r [] = refl
  count-place_newest p r (t ∷ ts) = ground (arith, count-place_newest p r ts)

  count-sort_oldest :
      (p : Stored Row → Bool) (rs : List (Stored Row)) → count_if p (sort_oldest rs) ≡ count_if p rs
  count-sort_oldest p [] = refl
  count-sort_oldest p (r ∷ rs) =
      count-place_oldest p r (sort_oldest rs)
      ∙ ap (λ n. elim (p r) [ true ↦ suc n | false ↦ n ]) (count-sort_oldest p rs)

  count-sort_newest :
      (p : Stored Row → Bool) (rs : List (Stored Row)) → count_if p (sort_newest rs) ≡ count_if p rs
  count-sort_newest p [] = refl
  count-sort_newest p (r ∷ rs) =
      count-place_newest p r (sort_newest rs)
      ∙ ap (λ n. elim (p r) [ true ↦ suc n | false ↦ n ]) (count-sort_newest p rs)

  -- what comes first after a placement was first before it, or is what has been placed
  place_oldest-IsOldestFirst :
      (r : Stored Row) (ts : List (Stored Row))
      → IsOldestFirst ts
      → IsOldestFirst (place_oldest r ts)
  place_oldest-IsOldestFirst r [] h = tt
  place_oldest-IsOldestFirst r (t ∷ []) h = elim (Bool-cases (leb r.created_at t.created_at)) [
    | inl before ↦ rw (before) (leb→le _ _ before, tt)
    | inr after ↦ rw (after) (ground arith, tt)
  ]
  place_oldest-IsOldestFirst r (t ∷ u ∷ us) h = elim (Bool-cases (leb r.created_at t.created_at)) [
    | inl before ↦ rw (before) (leb→le _ _ before, h)
    | inr after ↦
        let rest = place_oldest-IsOldestFirst r (u ∷ us) h.1 in
        elim (Bool-cases (leb r.created_at u.created_at)) [
          | inl between ↦ rw (after, between) (ground arith, (leb→le _ _ between, h.1))
          | inr beyond ↦ rw (after, beyond) (h.0, rw (beyond) at rest)
        ]
  ]

  sort_oldest-IsOldestFirst : (rs : List (Stored Row)) → IsOldestFirst (sort_oldest rs)
  sort_oldest-IsOldestFirst [] = tt
  sort_oldest-IsOldestFirst (r ∷ rs) =
      place_oldest-IsOldestFirst r (sort_oldest rs) (sort_oldest-IsOldestFirst rs)

  module _ (fits : Row → Bool) (clash : Row → Row → Bool) where
    -- the table of the rows that are listed, with its unique constraint
    abbrev pub listed : Table Row (List (Stored Row))
    listed = record {
      rows = λ s. s;
      equals = text_beq;
      add = λ now row s.
          if not (fits row) || any (test (clash row)) s
          then none
          else some (s ++ (record { created_at = now; columns = row } ∷ []));
      write = λ p f s. change_first (test p) (assign f) s;
      erase = λ p s. keep (λ r. not (p r.columns)) s;
      oldest_first = sort_oldest;
      newest_first = sort_newest;
    }

    pub listed-IsLawful : IsLawful fits clash listed
    listed-IsLawful = record {
      equals_exact = λ a b. refl;
      rows-add = λ now row s room fresh.
          (s ++ (record { created_at = now; columns = row } ∷ []), rw (room, fresh) refl, refl);
      add_refused = λ now row s taken. elim (Bool-cases (fits row)) [
        | inl room ↦ rw (room, taken) refl
        | inr long ↦ rw (long) refl
      ];
      rows-write = λ p f s kept room. refl;
      rows-erase = λ p s. refl;
      count-oldest_first = count-sort_oldest;
      oldest_first-IsOldestFirst = sort_oldest-IsOldestFirst;
      count-newest_first = count-sort_newest;
    }
