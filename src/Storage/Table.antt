-- ===== src/Storage/Table.antt =====
-- A table of app/storage/models.py behind a session of SQLAlchemy, which is not the repository's
-- code: operations over a state of the database that nothing else is known of, with the documented
-- behaviour as laws. A transaction that violates a unique constraint, or puts in a text longer than its
-- column, is rolled back.
use ochestrate.Base.{
  ℕ, ◌≡◌, ◌≤◌, Bool, true, false, not, Option, none, some, List, [], ◌∷◌, ◌++◌, any, keep, count_if,
  ◌==◌, leb, length,
}
use ochestrate.Text.{Text, text_eq}
use ochestrate.Storage.Rows.{change_first}

-- A row: its columns, and `created_at`, the server's time of the insertion.
pub record Stored (Row : Type 0) : Type 0 where
  pub created_at : ℕ
  pub columns : Row

pub record Table (Row S : Type 0) : Type 0 where
  -- the rows in the order of a query without `ORDER BY`
  pub rows : S → List (Stored Row)
  -- `=` on texts, by the collation of the columns
  pub equals : Text → Text → Bool
  -- `session.add` and `commit` at a time of the server; none is an `IntegrityError`, or a `DataError`
  -- for a text that is too long for its column
  pub add : ℕ → Row → S → Option S
  -- assignments to the row that `session.scalar` has found, and `commit`; of texts that are too long
  -- for their columns nothing is said
  pub write : (Row → Bool) → (Row → Row) → S → S
  -- `delete` of a query, and `commit`
  pub erase : (Row → Bool) → S → S
  -- `order_by(created_at.asc())` and `order_by(created_at.desc())`
  pub oldest_first : List (Stored Row) → List (Stored Row)
  pub newest_first : List (Stored Row) → List (Stored Row)

-- a text in a column `String(n)`
abbrev pub within : ℕ → Text → Bool
within n t = leb (length t) n

abbrev pub within_if_any : ℕ → Option Text → Bool
within_if_any n none = true
within_if_any n (some t) = within n t

-- The characters that a TEXT and a MEDIUMTEXT of MySQL have room for whatever they are: four bytes each
-- of 65,535 and of 16,777,215.
abbrev pub text_room : ℕ
text_room = 16383

abbrev pub mediumtext_room : ℕ
mediumtext_room = 4194303

module _ {Row : Type 0} where
  abbrev pub test : (Row → Bool) → Stored Row → Bool
  test p r = p r.columns

  abbrev pub assign : (Row → Row) → Stored Row → Stored Row
  assign f r = record r { columns = f r.columns }

  -- Two rows in a list are in the order of their times.
  abbrev pub IsOldestFirst : List (Stored Row) → Type 0
  IsOldestFirst [] = Unit
  IsOldestFirst (r ∷ []) = Unit
  IsOldestFirst (r ∷ t ∷ rs) = (r.created_at ≤ t.created_at) × IsOldestFirst (t ∷ rs)

  -- An assignment leaves a row within the lengths of the columns.
  abbrev pub Keeps : (Row → Bool) → (Row → Row) → Type 0
  Keeps fits f = (row : Row) → fits row ≡ true → fits (f row) ≡ true

  -- What the database promises, for a table where `fits` says that the texts of a row are within the
  -- lengths of the columns, and `clash` is a unique constraint. It compares texts exactly, letter case
  -- included, as under a binary collation, so that `==` stands for it in the conditions of the
  -- queries. Columns of the type JSON have room for what is put in.
  pub record IsLawful {S : Type 0} (fits : Row → Bool) (clash : Row → Row → Bool) (T : Table Row S)
      : Type 0 where
    pub equals_exact : (a b : Text) → T.equals a b ≡ (a == b)
    pub rows-add :
        (now : ℕ) (row : Row) (s : S)
        → fits row ≡ true
        → any (test (clash row)) (T.rows s) ≡ false
        → (s' : S) × (T.add now row s ≡ some s')
          × (T.rows s' ≡ T.rows s ++ (record { created_at = now; columns = row } ∷ []))
    pub add_refused :
        (now : ℕ) (row : Row) (s : S)
        → any (test (clash row)) (T.rows s) ≡ true
        → T.add now row s ≡ none
    pub rows-write :
        (p : Row → Bool) (f : Row → Row) (s : S)
        → ((a b : Row) → clash a (f b) ≡ clash a b)
        → Keeps fits f
        → T.rows (T.write p f s) ≡ change_first (test p) (assign f) (T.rows s)
    pub rows-erase :
        (p : Row → Bool) (s : S) → T.rows (T.erase p s) ≡ keep (λ r. not (p r.columns)) (T.rows s)
    pub count-oldest_first :
        (p : Stored Row → Bool) (rs : List (Stored Row))
        → count_if p (T.oldest_first rs) ≡ count_if p rs
    pub oldest_first-IsOldestFirst : (rs : List (Stored Row)) → IsOldestFirst (T.oldest_first rs)
    pub count-newest_first :
        (p : Stored Row → Bool) (rs : List (Stored Row))
        → count_if p (T.newest_first rs) ≡ count_if p rs
