-- ===== src/Storage/Schema/Migration.antt =====
-- alembic/versions/20260316_0001_init_auth_task_audit.py: the statements of the migration on the
-- tables of a database.
use ochestrate.Base.{true, false, List, [], ◌∷◌}
use ochestrate.Text.{Text, text_eq, codes}
use ochestrate.Dict.{Dict, set_default, remove}
use ochestrate.Storage.Schema.{
  SqlType, bigint, varchar, sql_text, mediumtext, datetime, tinyint, sql_json, decimal, Default,
  no_default, null_default, current_timestamp, auto_increment, literal, Column, TableSchema,
}

-- The tables of a database by their names.
abbrev pub DatabaseSchema : Type 0
DatabaseSchema = Dict Text TableSchema

-- `NOT NULL`
abbrev pub not_null : Text → SqlType → Default → Column
not_null name type default = record {
  name = name;
  type = type;
  nullable = false;
  default = default;
}

-- a column that may be null
abbrev pub null_able : Text → SqlType → Column
null_able name type = record { name = name; type = type; nullable = true; default = null_default }

-- `id BIGINT PRIMARY KEY AUTO_INCREMENT`
abbrev pub id_column : Column
id_column = not_null (codes "id") bigint auto_increment

-- `CREATE TABLE IF NOT EXISTS user_credentials`
abbrev pub user_credentials : TableSchema
user_credentials = record {
  columns =
      id_column
      ∷ not_null (codes "tenant_id") (varchar 64) no_default
      ∷ not_null (codes "user_id") (varchar 64) no_default
      ∷ not_null (codes "username") (varchar 128) no_default
      ∷ not_null (codes "password_hash") sql_text no_default
      ∷ not_null (codes "role") (varchar 32) (literal (codes "employee"))
      ∷ not_null (codes "status") (varchar 32) (literal (codes "active"))
      ∷ not_null (codes "created_at") datetime current_timestamp
      ∷ not_null (codes "updated_at") datetime current_timestamp
      ∷ [];
  unique_keys =
      (codes "tenant_id" ∷ codes "username" ∷ []) ∷ (codes "tenant_id" ∷ codes "user_id" ∷ []) ∷ [];
}

-- `CREATE TABLE IF NOT EXISTS refresh_tokens`
abbrev pub refresh_tokens : TableSchema
refresh_tokens = record {
  columns =
      id_column
      ∷ not_null (codes "token_id") (varchar 64) no_default
      ∷ not_null (codes "tenant_id") (varchar 64) no_default
      ∷ not_null (codes "user_id") (varchar 64) no_default
      ∷ not_null (codes "session_id") (varchar 64) no_default
      ∷ not_null (codes "refresh_token_hash") sql_text no_default
      ∷ not_null (codes "expires_at") datetime no_default
      ∷ not_null (codes "revoked") tinyint (literal (codes "0"))
      ∷ not_null (codes "created_at") datetime current_timestamp
      ∷ [];
  unique_keys = (codes "token_id" ∷ []) ∷ [];
}

-- `CREATE TABLE IF NOT EXISTS task_queue_status`
abbrev pub task_queue_status : TableSchema
task_queue_status = record {
  columns =
      id_column
      ∷ not_null (codes "task_id") (varchar 64) no_default
      ∷ not_null (codes "tenant_id") (varchar 64) no_default
      ∷ not_null (codes "user_id") (varchar 64) no_default
      ∷ not_null (codes "session_id") (varchar 64) no_default
      ∷ not_null (codes "task_type") (varchar 32) no_default
      ∷ not_null (codes "status") (varchar 32) no_default
      ∷ null_able (codes "trace_id") (varchar 64)
      ∷ not_null (codes "request_json") sql_json no_default
      ∷ null_able (codes "result_json") sql_json
      ∷ null_able (codes "error_message") sql_text
      ∷ not_null (codes "created_at") datetime current_timestamp
      ∷ not_null (codes "updated_at") datetime current_timestamp
      ∷ [];
  unique_keys = (codes "task_id" ∷ []) ∷ [];
}

-- `CREATE TABLE IF NOT EXISTS audit_events`
abbrev pub audit_events : TableSchema
audit_events = record {
  columns =
      id_column
      ∷ not_null (codes "event_id") (varchar 64) no_default
      ∷ not_null (codes "event_type") (varchar 64) no_default
      ∷ null_able (codes "trace_id") (varchar 64)
      ∷ null_able (codes "tenant_id") (varchar 64)
      ∷ not_null (codes "payload_json") sql_json no_default
      ∷ not_null (codes "created_at") datetime current_timestamp
      ∷ [];
  unique_keys = (codes "event_id" ∷ []) ∷ [];
}

-- `CREATE TABLE IF NOT EXISTS feedback_records`
abbrev pub feedback_records : TableSchema
feedback_records = record {
  columns =
      id_column
      ∷ not_null (codes "tenant_id") (varchar 64) no_default
      ∷ not_null (codes "user_id") (varchar 64) no_default
      ∷ not_null (codes "trace_id") (varchar 64) no_default
      ∷ not_null (codes "is_correct") tinyint no_default
      ∷ not_null (codes "score") (decimal 5 4) no_default
      ∷ null_able (codes "user_edit") sql_text
      ∷ null_able (codes "tags_json") sql_json
      ∷ not_null (codes "created_at") datetime current_timestamp
      ∷ [];
  unique_keys = [];
}

-- `CREATE TABLE IF NOT EXISTS knowledge_chunks`
abbrev pub knowledge_chunks : TableSchema
knowledge_chunks = record {
  columns =
      id_column
      ∷ not_null (codes "tenant_id") (varchar 64) no_default
      ∷ not_null (codes "source_id") (varchar 128) no_default
      ∷ not_null (codes "chunk_id") (varchar 64) no_default
      ∷ not_null (codes "content") mediumtext no_default
      ∷ null_able (codes "metadata_json") sql_json
      ∷ not_null (codes "created_at") datetime current_timestamp
      ∷ [];
  unique_keys = (codes "tenant_id" ∷ codes "source_id" ∷ codes "chunk_id" ∷ []) ∷ [];
}

-- `CREATE TABLE IF NOT EXISTS`
unfoldable pub create_if_not_exists : Text → TableSchema → DatabaseSchema → DatabaseSchema
create_if_not_exists name table d = set_default name table d

-- `DROP TABLE IF EXISTS`
unfoldable pub drop_if_exists : Text → DatabaseSchema → DatabaseSchema
drop_if_exists name d = remove name d

-- the tables that `upgrade` creates, in its order
abbrev pub created_tables : List (Text × TableSchema)
created_tables =
    (codes "user_credentials", user_credentials)
    ∷ (codes "refresh_tokens", refresh_tokens)
    ∷ (codes "task_queue_status", task_queue_status)
    ∷ (codes "audit_events", audit_events)
    ∷ (codes "feedback_records", feedback_records)
    ∷ (codes "knowledge_chunks", knowledge_chunks)
    ∷ []

-- the tables that `downgrade` drops, in its order
abbrev pub dropped_tables : List Text
dropped_tables =
    codes "knowledge_chunks"
    ∷ codes "feedback_records"
    ∷ codes "audit_events"
    ∷ codes "task_queue_status"
    ∷ codes "refresh_tokens"
    ∷ codes "user_credentials"
    ∷ []

unfoldable pub create_all : List (Text × TableSchema) → DatabaseSchema → DatabaseSchema
unfolding create_if_not_exists
create_all [] d = d
create_all ((name, table) ∷ tables) d = create_all tables (create_if_not_exists name table d)

unfoldable pub drop_all : List Text → DatabaseSchema → DatabaseSchema
unfolding drop_if_exists
drop_all [] d = d
drop_all (name ∷ names) d = drop_all names (drop_if_exists name d)

-- `upgrade`
unfoldable pub upgrade : DatabaseSchema → DatabaseSchema
unfolding create_all
upgrade d = create_all created_tables d

-- `downgrade`
unfoldable pub downgrade : DatabaseSchema → DatabaseSchema
unfolding drop_all
downgrade d = drop_all dropped_tables d
