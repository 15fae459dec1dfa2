-- ===== src/Tools/Database/Guards.antt =====
-- On app/tools/database_tool.py: what stands between a call of `DatabaseTool` and the database.
use ochestrate.Base.{
  ◌≡◌, ◌⊎◌, inl, inr, refl, arith, true, false, ◌&&◌, ◌||◌, ◌++◌, Bool, any, not, Option, none,
  some, ◌==◌, Bool-cases,
}
use ochestrate.Text.{Text, text_eq, codes, is_empty, split, join, contains-infix}
use ochestrate.Dict.{lookup}
use ochestrate.Schemas.{Params}
use ochestrate.Tools.Hub.{Result, raised, ToolError}
use ochestrate.Tools.Database.{
  Runtime, DatabasePolicy, run_sql, with_column, guarded, scoped, dispatch, tenant_column_of,
  sql_of, tenant_of, is_write_sql, ensure_tenant_scope, has_tenant_condition, keyword,
  write_keywords,
}
use ochestrate.Tools.Values.{truthy_found}

one_of_four :
    (a b c d : Bool) → (a || b || c || d) ≡ true → (a ≡ true) ⊎ (b ≡ true) ⊎ (c ≡ true) ⊎ (d ≡ true)
one_of_four true b c d h = inl refl
one_of_four false true c d h = inr (inl refl)
one_of_four false false true d h = inr (inr (inl refl))
one_of_four false false false d h = inr (inr (inr h))

module _ {W : Type 0} (rt : Runtime W) (policy : DatabasePolicy) (params : Params) (w : W) where
  -- The SQL, in lower case and with single spaces, has the text in it.
  abbrev pub Mentions : Text → Type 0
  Mentions t =
      (before : Text) × (after : Text) × (join (codes " ") (split (rt.lower (sql_of rt params)))
        ≡ before ++ (t ++ after))

  -- one of the four spellings of a condition on the column
  abbrev pub MentionsColumn : Text → Type 0
  MentionsColumn column =
      Mentions (column ++ codes " =")
      ⊎ Mentions (column ++ codes "=")
      ⊎ Mentions (codes ":" ++ column)
      ⊎ Mentions (codes "%(" ++ (column ++ codes ")s"))

  -- What a call has passed when its SQL reaches the database.
  pub record Cleared : Type 0 where
    pub has_sql : is_empty (sql_of rt params) ≡ false
    pub confirmed :
        policy.db_write_protection_enabled ≡ true
        → any (λ k. k == keyword (sql_of rt params)) write_keywords ≡ true
        → truthy_found (lookup policy.db_confirm_field params) ≡ true
    pub column : Text
    pub column_named : tenant_column_of rt (lookup (codes "options") params) ≡ some column
    pub has_tenant : policy.db_require_tenant_scope ≡ true → is_empty (tenant_of rt params) ≡ false
    pub in_tenant : policy.db_require_tenant_scope ≡ true → MentionsColumn (rt.lower column)

  -- A refusal raises and leaves the world alone; else the SQL was cleared, and what the database did
  -- with it is the outcome.
  abbrev pub Guarded : Result Params × W → Type 0
  Guarded r =
      ((e : ToolError) × (r ≡ (raised e, w)))
      ⊎ (Cleared × ((r ≡ rt.query (sql_of rt params) w) ⊎ (r ≡ rt.execute (sql_of rt params) w)))

  has_tenant_condition-MentionsColumn :
      (column : Text)
      → has_tenant_condition rt (sql_of rt params) column ≡ true
      → MentionsColumn (rt.lower column)
  unfolding has_tenant_condition
  has_tenant_condition-MentionsColumn column h = elim (one_of_four _ _ _ _ h) [
    | inl spaced ↦ inl (contains-infix _ _ spaced)
    | inr (inl plain) ↦ inr (inl (contains-infix _ _ plain))
    | inr (inr (inl colon)) ↦ inr (inr (inl (contains-infix _ _ colon)))
    | inr (inr (inr percent)) ↦ inr (inr (inr (contains-infix _ _ percent)))
  ]

  ensure_tenant_scope_lem :
      (column : Text)
      → ensure_tenant_scope rt (sql_of rt params) (tenant_of rt params) column ≡ true
      → (is_empty (tenant_of rt params) ≡ false) × MentionsColumn (rt.lower column)
  unfolding ensure_tenant_scope
  ensure_tenant_scope_lem column h = elim (Bool-cases (is_empty (tenant_of rt params))) [
    | inl empty ↦ absurd (ground arith)
    | inr named ↦ (named, has_tenant_condition-MentionsColumn column (ground arith))
  ]

  module _ (operation : Text) (c : Text) where
    dispatch-Guarded : Cleared → Guarded (dispatch rt operation (sql_of rt params) w)
    unfolding dispatch
    dispatch-Guarded cleared = elim (Bool-cases (operation == codes "query")) [
      | inl reads ↦ rw (reads) (inr (cleared, inl refl))
      | inr other ↦ elim (Bool-cases (operation == codes "execute")) [
        | inl writes ↦ rw (other, writes) (inr (cleared, inr refl))
        | inr neither ↦ rw (other, neither) (inl (_, refl))
      ]
    ]

    scoped-Guarded :
        is_empty (sql_of rt params) ≡ false
        → (policy.db_write_protection_enabled ≡ true
            → any (λ k. k == keyword (sql_of rt params)) write_keywords ≡ true
            → truthy_found (lookup policy.db_confirm_field params) ≡ true)
        → tenant_column_of rt (lookup (codes "options") params) ≡ some c
        → Guarded (scoped rt policy operation (sql_of rt params) (tenant_of rt params) c w)
    unfolding scoped
    scoped-Guarded has_sql confirmed named =
        elim (Bool-cases (
          policy.db_require_tenant_scope
          && not (ensure_tenant_scope rt (sql_of rt params) (tenant_of rt params) c))) [
            | inl refuses ↦ rw (refuses) (inl (_, refl))
            | inr passes ↦ rw (passes) (
                dispatch-Guarded (record {
                  has_sql = has_sql;
                  confirmed = confirmed;
                  column = c;
                  column_named = named;
                  has_tenant = λ asked. (ensure_tenant_scope_lem c (ground arith)).0;
                  in_tenant = λ asked. (ensure_tenant_scope_lem c (ground arith)).1;
                }))
          ]

    guarded-Guarded :
        is_empty (sql_of rt params) ≡ false
        → tenant_column_of rt (lookup (codes "options") params) ≡ some c
        → Guarded (guarded rt policy params operation (sql_of rt params) (tenant_of rt params) c w)
    unfolding guarded is_write_sql
    guarded-Guarded has_sql named =
        elim (Bool-cases (
          policy.db_write_protection_enabled
          && is_write_sql (sql_of rt params)
          && not (truthy_found (lookup policy.db_confirm_field params)))) [
            | inl refuses ↦ rw (refuses) (inl (_, refl))
            | inr passes ↦ rw (passes) (scoped-Guarded has_sql (λ on write. ground arith) named)
          ]

  with_column-Guarded :
      (operation : Text) (o : Option Text)
      → is_empty (sql_of rt params) ≡ false
      → tenant_column_of rt (lookup (codes "options") params) ≡ o
      → Guarded
          (with_column rt policy params operation (sql_of rt params) (tenant_of rt params) o w)
  unfolding with_column
  with_column-Guarded operation none has_sql named = inl (_, refl)
  with_column-Guarded operation (some c) has_sql named = guarded-Guarded operation c has_sql named

  -- A run of the database tool either raises and leaves the world alone, or does to it what the
  -- database does with the SQL of the call, which then is not empty. Where writes are protected and
  -- the first word of the SQL is one of the write keywords, the call has the field that confirms
  -- it; and where a tenant is asked for, the call names one, and the SQL mentions the column that
  -- the options of the call name, or else `tenant_id`, in one of the four spellings.
  pub run_sql-Guarded : Guarded (run_sql rt policy params w)
  unfolding run_sql
  run_sql-Guarded = elim (Bool-cases (is_empty (sql_of rt params))) [
    | inl empty ↦ rw (empty) (inl (_, refl))
    | inr has_sql ↦ rw (has_sql) (with_column-Guarded _ _ has_sql refl)
  ]

  -- While writes are protected, SQL that counts as a write and is not confirmed is refused, and the
  -- database is left alone.
  pub run_sql-unconfirmed :
      policy.db_write_protection_enabled ≡ true
      → is_write_sql (sql_of rt params) ≡ true
      → truthy_found (lookup policy.db_confirm_field params) ≡ false
      → (e : ToolError) × (run_sql rt policy params w ≡ (raised e, w))
  unfolding is_write_sql
  run_sql-unconfirmed on write unconfirmed = elim run_sql-Guarded [
    | inl refused ↦ refused
    | inr acted ↦ absurd (ground (arith, acted.0.confirmed on write))
  ]
