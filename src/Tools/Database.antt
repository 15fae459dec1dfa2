-- ===== src/Tools/Database.antt =====
-- app/tools/database_tool.py. `str` of a value that is no text and `str.lower` are the interpreter's,
-- and the database is SQLAlchemy's: they are the fields of `Runtime`.
pub mod Guards
mod Tests
use ochestrate.Base.{
  ℕ, ◌-◌, Bool, true, false, ◌&&◌, ◌||◌, not, Option, none, some, List, [], ◌∷◌, ◌++◌, ◌==◌, any,
  ltb, leb, nat_beq, if◌then◌else◌,
}
use ochestrate.Text.{Text, text_eq, codes, is_empty, is_space, split, join, strip, contains}
use ochestrate.Dict.{Dict, lookup}
use ochestrate.Schemas.{Value, Params, Fields, nil, cons, end, field}
use ochestrate.Tools.Values.{truthy, truthy_found, fields_to_params, text_or_empty, text_or}
use ochestrate.Tools.Hub.{Tool, Result, ok, raised, permission, failure}

pub record Runtime (W : Type 0) : Type 0 where
  pub show_value : Value → Text
  pub lower : Text → Text
  pub query : Text → W → Result Params × W
  pub execute : Text → W → Result Params × W

-- the fields of `ToolSecurityConfig` that the tool reads
pub record DatabasePolicy : Type 0 where
  pub db_write_protection_enabled : Bool
  pub db_confirm_field : Text
  pub db_require_tenant_scope : Bool

unfoldable pub is_letter : ℕ → Bool
is_letter c = (leb 65 c && leb c 90) || (leb 97 c && leb c 122)

unfoldable pub upper_letter : ℕ → ℕ
upper_letter c = if leb 97 c && leb c 122 then c - 32 else c

unfoldable pub letters : Text → Text
letters [] = []
letters (c ∷ cs) = let rest = letters cs in if is_letter c then upper_letter c ∷ rest else []

-- the group of `^\s*([a-zA-Z]+)` in upper case, or no text where it does not match
unfoldable pub keyword : Text → Text
unfolding is_letter upper_letter letters is_space
keyword [] = []
keyword (c ∷ cs) = elim (is_space c) [ true ↦ keyword cs | false ↦ letters (c ∷ cs) ]

abbrev pub write_keywords : List Text
write_keywords =
    codes "INSERT"
    ∷ codes "UPDATE"
    ∷ codes "DELETE"
    ∷ codes "REPLACE"
    ∷ codes "MERGE"
    ∷ codes "CREATE"
    ∷ codes "ALTER"
    ∷ codes "DROP"
    ∷ codes "TRUNCATE"
    ∷ codes "GRANT"
    ∷ codes "REVOKE"
    ∷ []

-- `DatabaseTool._is_write_sql`
unfoldable pub is_write_sql : Text → Bool
unfolding keyword
is_write_sql sql = any (λ k. k == keyword sql) write_keywords

module _ {W : Type 0} (rt : Runtime W) where
  -- the four spellings of a condition on the tenant's column that are looked for
  unfoldable pub has_tenant_condition : Text → Text → Bool
  has_tenant_condition sql tenant_column =
      let normalized = join (codes " ") (split (rt.lower sql)) in
      let column = rt.lower tenant_column in
      contains (column ++ codes " =") normalized
      || contains (column ++ codes "=") normalized
      || contains (codes ":" ++ column) normalized
      || contains (codes "%(" ++ (column ++ codes ")s")) normalized

  -- `DatabaseTool._ensure_tenant_scope`: whether it returns
  unfoldable pub ensure_tenant_scope : Text → Text → Text → Bool
  ensure_tenant_scope sql tenant_id tenant_column =
      if is_empty tenant_id then false else has_tenant_condition sql tenant_column

  -- `str((params.get("options") or {}).get("tenant_column", "tenant_id")).strip()`; options that are
  -- no dict have no `get`.
  unfoldable pub tenant_column_of : Option Value → Option Text
  tenant_column_of none = some (codes "tenant_id")
  tenant_column_of (some (Value.obj fs)) = some (
      strip (
        text_or rt.show_value (codes "tenant_id")
          (lookup (codes "tenant_column") (fields_to_params fs))))
  tenant_column_of (some v) = if truthy v then none else some (codes "tenant_id")

  unfoldable pub dispatch : Text → Text → W → Result Params × W
  dispatch operation sql w =
      if operation == codes "query"
      then rt.query sql w
      else if operation == codes "execute"
      then rt.execute sql w
      else (raised (failure (codes "unsupported operation")), w)

  unfoldable pub scoped : DatabasePolicy → Text → Text → Text → Text → W → Result Params × W
  scoped policy operation sql tenant_id tenant_column w =
      if policy.db_require_tenant_scope && not (ensure_tenant_scope sql tenant_id tenant_column)
      then (raised (permission (codes "tenant scope check failed")), w)
      else dispatch operation sql w

  unfoldable pub guarded :
      DatabasePolicy → Params → Text → Text → Text → Text → W → Result Params × W
  guarded policy params operation sql tenant_id tenant_column w =
      if policy.db_write_protection_enabled
        && is_write_sql sql
        && not (truthy_found (lookup policy.db_confirm_field params))
      then (raised (permission (codes "write SQL requires explicit confirmation")), w)
      else scoped policy operation sql tenant_id tenant_column w

  unfoldable pub with_column :
      DatabasePolicy → Params → Text → Text → Text → Option Text → W → Result Params × W
  with_column policy params operation sql tenant_id none w =
      (raised (failure (codes "options has no attribute get")), w)
  with_column policy params operation sql tenant_id (some tenant_column) w =
      guarded policy params operation sql tenant_id tenant_column w

  -- the SQL that a call asks for
  abbrev pub sql_of : Params → Text
  sql_of params = strip (text_or_empty rt.show_value (lookup (codes "sql") params))

  abbrev pub tenant_of : Params → Text
  tenant_of params = strip (text_or_empty rt.show_value (lookup (codes "_tenant_id") params))

  -- `DatabaseTool.run`
  unfoldable pub run_sql : DatabasePolicy → Params → W → Result Params × W
  unfolding tenant_column_of dispatch scoped guarded with_column
  run_sql policy params w =
      let operation =
        rt.lower (text_or rt.show_value (codes "query") (lookup (codes "operation") params)) in
      let sql = sql_of params in
      if is_empty sql
      then (raised (failure (codes "sql is required")), w)
      else with_column policy params operation sql (tenant_of params)
          (tenant_column_of (lookup (codes "options") params)) w

  -- `DatabaseTool`
  abbrev pub database_tool : DatabasePolicy → Tool W
  database_tool policy = record {
    name = codes "database_tool";
    description = codes "Run SQL query/execute with confirm-write policy controls.";
    required_roles = codes "employee" ∷ codes "manager" ∷ codes "admin" ∷ [];
    idempotent = false;
    run = run_sql policy;
  }
