-- ===== src/Storage/Schema.antt =====
-- The tables that app/storage/models.py declares and those that the migration
-- alembic/versions/20260316_0001_init_auth_task_audit.py creates. The secondary indexes, which change no
-- answer, are left out.
pub mod Models
pub mod Migration
pub mod Laws
mod Tests
use ochestrate.Base.{ℕ, Bool, true, false, not, ◌&&◌, List, [], ◌∷◌, ◌==◌, nat_beq, if◌then◌else◌}
use ochestrate.Text.{Text, text_eq, codes}

-- The types of the columns in MySQL.
pub data SqlType : Type 0 where
  bigint : SqlType
  varchar : ℕ → SqlType
  sql_text mediumtext datetime tinyint : SqlType
  sql_json : SqlType
  decimal : ℕ → ℕ → SqlType

-- What a column has where an insertion does not say.
pub data Default : Type 0 where
  no_default null_default current_timestamp auto_increment : Default
  literal : Text → Default

pub record Column : Type 0 where
  pub name : Text
  pub type : SqlType
  pub nullable : Bool
  pub default : Default

pub record TableSchema : Type 0 where
  pub columns : List Column
  -- the columns of each unique key but the primary one
  pub unique_keys : List (List Text)

-- The types of the columns in SQLAlchemy.
pub data OrmType : Type 0 where
  integer boolean float json_column text_column datetime_column : OrmType
  string : ℕ → OrmType

pub record OrmColumn : Type 0 where
  pub name : Text
  pub type : OrmType
  pub nullable : Bool

pub record OrmModel : Type 0 where
  pub tablename : Text
  pub columns : List OrmColumn
  pub unique_keys : List (List Text)

-- The type of the database that stands for a type of SQLAlchemy. A string has its length; a number is
-- a DECIMAL, which rounds to the digits it has.
unfoldable pub type_corresponds : OrmType → SqlType → Bool
type_corresponds integer bigint = true
type_corresponds boolean tinyint = true
type_corresponds float (decimal p s) = true
type_corresponds json_column sql_json = true
type_corresponds text_column sql_text = true
type_corresponds text_column mediumtext = true
type_corresponds datetime_column datetime = true
type_corresponds (string n) (varchar m) = nat_beq n m
type_corresponds o c = false

abbrev pub same_bool : Bool → Bool → Bool
same_bool true b = b
same_bool false b = not b

unfoldable pub column_fits : OrmColumn → Column → Bool
unfolding type_corresponds
column_fits o c =
    (o.name == c.name) && type_corresponds o.type c.type && same_bool o.nullable c.nullable

-- The columns of a model are those of a table, in their order.
unfoldable pub columns_fit : List OrmColumn → List Column → Bool
unfolding column_fits
columns_fit [] [] = true
columns_fit (o ∷ os) (c ∷ cs) = column_fits o c && columns_fit os cs
columns_fit os cs = false

unfoldable pub texts_equal : List Text → List Text → Bool
texts_equal [] [] = true
texts_equal (a ∷ as_) (b ∷ bs) = (a == b) && texts_equal as_ bs
texts_equal xs ys = false

unfoldable pub keys_equal : List (List Text) → List (List Text) → Bool
unfolding texts_equal
keys_equal [] [] = true
keys_equal (a ∷ as_) (b ∷ bs) = texts_equal a b && keys_equal as_ bs
keys_equal xs ys = false

-- A model and a table have the same columns and the same unique keys.
unfoldable pub model_fits : OrmModel → TableSchema → Bool
unfolding columns_fit keys_equal
model_fits m t = columns_fit m.columns t.columns && keys_equal m.unique_keys t.unique_keys
