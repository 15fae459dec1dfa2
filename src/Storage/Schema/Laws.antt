-- ===== src/Storage/Schema/Laws.antt =====
-- On alembic/versions/20260316_0001_init_auth_task_audit.py and app/storage/models.py: what the migration
-- does to a database, and that the models find their tables after it.
use ochestrate.Base.{
  ◌≡◌, ◌∙◌, refl, ap, sym, inl, inr, Bool, true, false, ◌||◌, Option, none, some, List, [], ◌∷◌,
  ◌==◌, any, All, if◌then◌else◌, Bool-cases, Option-cases, arith, text_beq,
}
use ochestrate.Text.{Text, text_eq, codes}
use ochestrate.Dict.{lookup, set_default, lookup-insert, lookup-remove}
use ochestrate.Storage.Schema.{
  TableSchema, OrmModel, model_fits, columns_fit, column_fits, type_corresponds, keys_equal,
  texts_equal,
}
use ochestrate.Storage.Schema.Models.{orm_models}
use ochestrate.Storage.Schema.Migration.{
  DatabaseSchema, user_credentials, refresh_tokens, task_queue_status, audit_events,
  feedback_records, knowledge_chunks, create_if_not_exists, drop_if_exists, created_tables,
  dropped_tables, create_all, drop_all, upgrade, downgrade,
}

-- the first of two that is there
abbrev pub or_other : Option TableSchema → Option TableSchema → Option TableSchema
or_other none b = b
or_other (some a) b = some a

or_other-none : (o : Option TableSchema) → o ≡ or_other o none
or_other-none none = refl
or_other-none (some t) = refl

lookup-create_if_not_exists :
    (k name : Text) (table : TableSchema) (d : DatabaseSchema)
    → lookup k (create_if_not_exists name table d)
      ≡ or_other (lookup k d) (if name == k then some table else none)
unfolding create_if_not_exists set_default
lookup-create_if_not_exists k name table d = elim (Option-cases (lookup name d)) [
  | inl absent ↦
      rw (absent, set_default, lookup-insert)
        (elim (Bool-cases (name == k)) [
          | inl same ↦
              let e : lookup k d ≡ none =
                sym (ap (λ n. lookup n d) ((text_eq.beq_iff name k).0 same)) ∙ absent in
              rw (same, e)
          | inr other ↦ rw (other) (or_other-none (lookup k d))
        ])
  | inr (t, present) ↦
      rw (present, set_default)
        (elim (Bool-cases (name == k)) [
          | inl same ↦
              let e : lookup k d ≡ some t =
                sym (ap (λ n. lookup n d) ((text_eq.beq_iff name k).0 same)) ∙ present in
              rw (same, e)
          | inr other ↦ rw (other) (or_other-none (lookup k d))
        ])
]

or_other_assoc :
    (a : Option TableSchema) (b : Bool) (t : TableSchema) (c : Option TableSchema)
    → or_other (or_other a (if b then some t else none)) c ≡ or_other a (if b then some t else c)
or_other_assoc none true t c = refl
or_other_assoc none false t c = refl
or_other_assoc (some x) b t c = refl

-- The tables that were there stay, and the created ones are added.
lookup-create_all :
    (k : Text) (tables : List (Text × TableSchema)) (d : DatabaseSchema)
    → lookup k (create_all tables d) ≡ or_other (lookup k d) (lookup k tables)
unfolding create_all lookup
lookup-create_all k [] d = or_other-none (lookup k d)
lookup-create_all k ((name, table) ∷ tables) d =
    lookup-create_all k tables (create_if_not_exists name table d)
    ∙ ap (λ o. or_other o (lookup k tables)) (lookup-create_if_not_exists k name table d)
    ∙ or_other_assoc (lookup k d) (name == k) table (lookup k tables)

lookup-drop_all :
    (k : Text) (names : List Text) (d : DatabaseSchema)
    → lookup k (drop_all names d) ≡ (if any (λ n. n == k) names then none else lookup k d)
unfolding drop_all drop_if_exists
lookup-drop_all k [] d = refl
lookup-drop_all k (name ∷ names) d =
    lookup-drop_all k names (drop_if_exists name d)
    ∙ ap (λ o. if any (λ n. n == k) names then none else o) (lookup-remove name k d)
    ∙ either_test (any (λ n. n == k) names) (name == k) (lookup k d)
  where
    either_test :
        (a b : Bool) (o : Option TableSchema)
        → (if a then none else if b then none else o) ≡ (if b || a then none else o)
    either_test true true o = refl
    either_test true false o = refl
    either_test false true o = refl
    either_test false false o = refl

lookup-none :
    (k : Text) (tables : List (Text × TableSchema))
    → any (λ p. p.0 == k) tables ≡ false
    → lookup k tables ≡ none
unfolding lookup
lookup-none k [] h = refl
lookup-none k ((name, table) ∷ tables) h = elim (Bool-cases (name == k)) [
  | inl same ↦ absurd (cc (rw (same) at h))
  | inr other ↦ rw (other, lookup) (lookup-none k tables (rw (other) at h))
]

reversed_order :
    (a b c d e f : Bool)
    → (f || (e || (d || (c || (b || (a || false)))))) ≡ false
    → (a || (b || (c || (d || (e || (f || false)))))) ≡ false
reversed_order a b c d e f h = ground arith

same_names :
    (k : Text)
    → any (λ n. n == k) dropped_tables ≡ false
    → any (λ (p : Text × TableSchema). p.0 == k) created_tables ≡ false
same_names k other =
    reversed_order (codes "user_credentials" == k) (codes "refresh_tokens" == k)
      (codes "task_queue_status" == k) (codes "audit_events" == k) (codes "feedback_records" == k)
      (codes "knowledge_chunks" == k) other

-- The database has none of the tables of the migration.
abbrev pub IsFresh : DatabaseSchema → Type 0
IsFresh d = All (λ name. lookup name d ≡ none) dropped_tables

-- A table that is dropped was not there.
fresh-lookup :
    (k : Text) (names : List Text) (d : DatabaseSchema)
    → All (λ name. lookup name d ≡ none) names
    → any (λ n. n == k) names ≡ true
    → lookup k d ≡ none
fresh-lookup k [] d fresh h = absurd cc
fresh-lookup k (name ∷ names) d fresh h = elim (Bool-cases (name == k)) [
  | inl same ↦ sym (ap (λ n. lookup n d) ((text_eq.beq_iff name k).0 same)) ∙ fresh.0
  | inr other ↦ fresh-lookup k names d fresh.1 (rw (other) at h)
]

or_other_twice : (a b : Option TableSchema) → or_other (or_other a b) b ≡ or_other a b
or_other_twice none none = refl
or_other_twice none (some b) = refl
or_other_twice (some a) b = refl

-- From a database with none of its tables: the migration upwards leaves each table as it was and adds
-- its own; doing it again changes no table; and upwards and downwards leaves each table as it was.
pub lookup-downgrade-upgrade :
    (d : DatabaseSchema) (k : Text)
    → IsFresh d
    → (lookup k (upgrade d) ≡ or_other (lookup k d) (lookup k created_tables))
      × (lookup k (upgrade (upgrade d)) ≡ lookup k (upgrade d))
      × (lookup k (downgrade (upgrade d)) ≡ lookup k d)
unfolding upgrade downgrade
lookup-downgrade-upgrade d k fresh =
    let up = lookup-create_all k created_tables in
    (
      up d,
      up (upgrade d)
          ∙ ap (λ o. or_other o (lookup k created_tables)) (up d)
          ∙ or_other_twice (lookup k d) (lookup k created_tables)
          ∙ sym (up d),
      lookup-drop_all k dropped_tables (upgrade d)
          ∙ elim (Bool-cases (any (λ n. n == k) dropped_tables)) [
            | inl dropped ↦ rw (dropped) (sym (fresh-lookup k dropped_tables d fresh dropped))
            | inr other ↦ rw (other) (
                up d
                ∙ ap (or_other (lookup k d)) (lookup-none k created_tables (same_names k other))
                ∙ sym (or_other-none (lookup k d)))
          ],
    )

-- The table of a model is there, with the model's columns and unique keys.
abbrev pub Finds : DatabaseSchema → OrmModel → Type 0
Finds d m =
    (table : TableSchema) × (lookup m.tablename d ≡ some table) × (model_fits m table ≡ true)

found_table :
    (d : DatabaseSchema) (name : Text) {table : TableSchema}
    → lookup name d ≡ none
    → lookup name created_tables ≡ some table
    → lookup name (upgrade d) ≡ some table
unfolding upgrade
found_table d name absent created =
    lookup-create_all name created_tables d
    ∙ ap (λ o. or_other o (lookup name created_tables)) absent
    ∙ created

-- Once the migration has been applied to a database with none of its tables, each model of SQLAlchemy
-- finds its table: the same columns in the same order, null or not alike, and the same unique keys. The
-- type of a column is the one that stands for the model's: a VARCHAR has the length of the string, and
-- a Float is a DECIMAL, of whatever digits.
pub upgrade-Finds : (d : DatabaseSchema) → IsFresh d → All (Finds (upgrade d)) orm_models
unfolding lookup text_beq model_fits columns_fit column_fits type_corresponds keys_equal texts_equal
upgrade-Finds d (chunks, (feedback, (audit, (task, (refresh, (users, end)))))) = (
  (user_credentials, found_table d (codes "user_credentials") users refl, refl),
  (
    (refresh_tokens, found_table d (codes "refresh_tokens") refresh refl, refl),
    (
      (task_queue_status, found_table d (codes "task_queue_status") task refl, refl),
      (
        (audit_events, found_table d (codes "audit_events") audit refl, refl),
        (
          (feedback_records, found_table d (codes "feedback_records") feedback refl, refl),
          ((knowledge_chunks, found_table d (codes "knowledge_chunks") chunks refl, refl), tt),
        ),
      ),
    ),
  ),
)
