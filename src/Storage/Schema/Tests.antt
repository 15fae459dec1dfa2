-- ===== src/Storage/Schema/Tests.antt =====
-- On alembic/versions/20260316_0001_init_auth_task_audit.py: a database with one table of another
-- program.
use ochestrate.Base.{◌≡◌, refl, [], ◌∷◌, All, text_beq}
use ochestrate.Text.{text_eq, codes}
use ochestrate.Dict.{lookup}
use ochestrate.Storage.Schema.{TableSchema}
use ochestrate.Storage.Schema.Models.{orm_models}
use ochestrate.Storage.Schema.Migration.{
  DatabaseSchema, id_column, created_tables, upgrade, downgrade,
}
use ochestrate.Storage.Schema.Laws.{
  or_other, IsFresh, Finds, lookup-downgrade-upgrade, upgrade-Finds,
}

abbrev orders : TableSchema
orders = record { columns = id_column ∷ []; unique_keys = [] }

abbrev shop : DatabaseSchema
shop = (codes "orders", orders) ∷ []

shop-IsFresh : IsFresh shop
unfolding lookup text_beq
shop-IsFresh = (refl, (refl, (refl, (refl, (refl, (refl, tt))))))

lookup-downgrade-upgrade_example :
    (lookup (codes "orders") (upgrade shop)
      ≡ or_other (lookup (codes "orders") shop) (lookup (codes "orders") created_tables))
    × (lookup (codes "orders") (upgrade (upgrade shop)) ≡ lookup (codes "orders") (upgrade shop))
    × (lookup (codes "orders") (downgrade (upgrade shop)) ≡ lookup (codes "orders") shop)
lookup-downgrade-upgrade_example = lookup-downgrade-upgrade shop (codes "orders") shop-IsFresh

upgrade-Finds_example : All (Finds (upgrade shop)) orm_models
upgrade-Finds_example = upgrade-Finds shop shop-IsFresh
