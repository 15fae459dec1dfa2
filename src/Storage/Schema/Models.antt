-- ===== src/Storage/Schema/Models.antt =====
-- app/storage/models.py: the declared tables, by the names, types and nullability of their columns and
-- by their unique keys. The defaults, which the server or the caller gives, are left out.
use ochestrate.Base.{true, false, List, [], ◌∷◌}
use ochestrate.Text.{Text, codes}
use ochestrate.Storage.Schema.{
  OrmType, integer, boolean, float, json_column, text_column, datetime_column, string, OrmColumn,
  OrmModel,
}

-- `mapped_column(..., nullable=False)`
abbrev pub required : Text → OrmType → OrmColumn
required name type = record { name = name; type = type; nullable = false }

-- `mapped_column(..., nullable=True)`
abbrev pub optional : Text → OrmType → OrmColumn
optional name type = record { name = name; type = type; nullable = true }

-- `UserCredentialORM`
abbrev pub user_credential_orm : OrmModel
user_credential_orm = record {
  tablename = codes "user_credentials";
  columns =
      required (codes "id") integer
      ∷ required (codes "tenant_id") (string 64)
      ∷ required (codes "user_id") (string 64)
      ∷ required (codes "username") (string 128)
      ∷ required (codes "password_hash") text_column
      ∷ required (codes "role") (string 32)
      ∷ required (codes "status") (string 32)
      ∷ required (codes "created_at") datetime_column
      ∷ required (codes "updated_at") datetime_column
      ∷ [];
  unique_keys =
      (codes "tenant_id" ∷ codes "username" ∷ []) ∷ (codes "tenant_id" ∷ codes "user_id" ∷ []) ∷ [];
}

-- `RefreshTokenORM`
abbrev pub refresh_token_orm : OrmModel
refresh_token_orm = record {
  tablename = codes "refresh_tokens";
  columns =
      required (codes "id") integer
      ∷ required (codes "token_id") (string 64)
      ∷ required (codes "tenant_id") (string 64)
      ∷ required (codes "user_id") (string 64)
      ∷ required (codes "session_id") (string 64)
      ∷ required (codes "refresh_token_hash") text_column
      ∷ required (codes "expires_at") datetime_column
      ∷ required (codes "revoked") boolean
      ∷ required (codes "created_at") datetime_column
      ∷ [];
  unique_keys = (codes "token_id" ∷ []) ∷ [];
}

-- `TaskQueueStatusORM`
abbrev pub task_queue_status_orm : OrmModel
task_queue_status_orm = record {
  tablename = codes "task_queue_status";
  columns =
      required (codes "id") integer
      ∷ required (codes "task_id") (string 64)
      ∷ required (codes "tenant_id") (string 64)
      ∷ required (codes "user_id") (string 64)
      ∷ required (codes "session_id") (string 64)
      ∷ required (codes "task_type") (string 32)
      ∷ required (codes "status") (string 32)
      ∷ optional (codes "trace_id") (string 64)
      ∷ required (codes "request_json") json_column
      ∷ optional (codes "result_json") json_column
      ∷ optional (codes "error_message") text_column
      ∷ required (codes "created_at") datetime_column
      ∷ required (codes "updated_at") datetime_column
      ∷ [];
  unique_keys = (codes "task_id" ∷ []) ∷ [];
}

-- `AuditEventORM`
abbrev pub audit_event_orm : OrmModel
audit_event_orm = record {
  tablename = codes "audit_events";
  columns =
      required (codes "id") integer
      ∷ required (codes "event_id") (string 64)
      ∷ required (codes "event_type") (string 64)
      ∷ optional (codes "trace_id") (string 64)
      ∷ optional (codes "tenant_id") (string 64)
      ∷ required (codes "payload_json") json_column
      ∷ required (codes "created_at") datetime_column
      ∷ [];
  unique_keys = (codes "event_id" ∷ []) ∷ [];
}

-- `FeedbackRecordORM`
abbrev pub feedback_record_orm : OrmModel
feedback_record_orm = record {
  tablename = codes "feedback_records";
  columns =
      required (codes "id") integer
      ∷ required (codes "tenant_id") (string 64)
      ∷ required (codes "user_id") (string 64)
      ∷ required (codes "trace_id") (string 64)
      ∷ required (codes "is_correct") boolean
      ∷ required (codes "score") float
      ∷ optional (codes "user_edit") text_column
      ∷ optional (codes "tags_json") json_column
      ∷ required (codes "created_at") datetime_column
      ∷ [];
  unique_keys = [];
}

-- `KnowledgeChunkORM`
abbrev pub knowledge_chunk_orm : OrmModel
knowledge_chunk_orm = record {
  tablename = codes "knowledge_chunks";
  columns =
      required (codes "id") integer
      ∷ required (codes "tenant_id") (string 64)
      ∷ required (codes "source_id") (string 128)
      ∷ required (codes "chunk_id") (string 64)
      ∷ required (codes "content") text_column
      ∷ optional (codes "metadata_json") json_column
      ∷ required (codes "created_at") datetime_column
      ∷ [];
  unique_keys = (codes "tenant_id" ∷ codes "source_id" ∷ codes "chunk_id" ∷ []) ∷ [];
}

-- the models of `Base`
abbrev pub orm_models : List OrmModel
orm_models =
    user_credential_orm ∷ refresh_token_orm ∷ task_queue_status_orm ∷ audit_event_orm
    ∷ feedback_record_orm ∷ knowledge_chunk_orm ∷ []
