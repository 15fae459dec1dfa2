-- ===== src/Tools/Database/Tests.antt =====
-- On app/tools/database_tool.py: a database that counts its statements, and an unconfirmed
-- deletion.
use ochestrate.Base.{false, ℕ, suc, ◌≡◌, refl, true, [], ◌∷◌, text_beq}
use ochestrate.Text.{text_eq, codes, strip, contains, split}
use ochestrate.Dict.{lookup}
use ochestrate.Schemas.{Value, Params}
use ochestrate.Tools.Hub.{ok, raised, ToolError}
use ochestrate.Tools.Values.{text_of}
use ochestrate.Tools.Database.{
  Runtime, DatabasePolicy, run_sql, is_write_sql, keyword, guarded, ensure_tenant_scope,
  has_tenant_condition,
}
use ochestrate.Tools.Database.Guards.{Guarded, run_sql-Guarded, run_sql-unconfirmed}

abbrev database : Runtime ℕ
database = record {
  show_value = λ v. [];
  lower = λ t. t;
  query = λ sql w. (ok [], w);
  execute = λ sql w. (ok [], suc w);
}

abbrev strict : DatabasePolicy
strict = record {
  db_write_protection_enabled = true;
  db_confirm_field = codes "confirm_write";
  db_require_tenant_scope = true;
}

abbrev deletion : Params
deletion =
    (codes "operation", Value.str (codes "execute"))
    ∷ (codes "sql", Value.str (codes "DELETE FROM t"))
    ∷ []

-- a deletion with all that it needs
abbrev confirmed : Params
confirmed =
    (codes "operation", Value.str (codes "execute"))
    ∷ (codes "sql", Value.str (codes "DELETE FROM t WHERE tenant_id = :tenant_id"))
    ∷ (codes "confirm_write", Value.bool true)
    ∷ (codes "_tenant_id", Value.str (codes "acme"))
    ∷ []

confirmed_runs : run_sql database strict confirmed 0 ≡ (ok [], 1)
unfolding run_sql guarded is_write_sql ensure_tenant_scope has_tenant_condition keyword lookup
    text_beq text_of strip contains split
confirmed_runs = refl

run_sql-Guarded_example : Guarded database strict confirmed 0 (run_sql database strict confirmed 0)
run_sql-Guarded_example = run_sql-Guarded database strict confirmed 0

run_sql-unconfirmed_example : (e : ToolError) × (run_sql database strict deletion 0 ≡ (raised e, 0))
unfolding lookup text_beq is_write_sql keyword text_of strip
run_sql-unconfirmed_example = run_sql-unconfirmed database strict deletion 0 refl refl refl

-- A deletion behind a common table expression counts as no write.
deletion_behind_with : is_write_sql (codes "WITH x AS (SELECT 1) DELETE FROM t") ≡ false
unfolding is_write_sql keyword text_beq
deletion_behind_with = refl
