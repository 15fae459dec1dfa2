-- ===== src/Tasks/Database.antt =====
-- app/storage/repositories/task_repo.py in its database mode, over the tables of tasks and of audit
-- events, which SQLAlchemy keeps; and the calls of the repository, in either mode.
use ochestrate.Base.{◌&&◌, ℕ, Bool, Option, none, some, List, [], ◌∷◌, ◌==◌, keep, map}
use ochestrate.Text.{Text, text_eq, codes}
use ochestrate.Schemas.{TaskStatus, TaskType}
use ochestrate.Storage.Rows.{first, map_option}
use ochestrate.Storage.Table.{within, within_if_any, text_room, Stored, Table, test}
use ochestrate.Tasks.Repository.{TaskRecord, Repository, create, update_status, is_recoverable}

-- `TaskQueueStatusORM`
pub record TaskRow (Json : Type 0) : Type 0 where
  pub task_id : Text
  pub tenant_id : Text
  pub user_id : Text
  pub session_id : Text
  pub task_type : TaskType
  pub status : TaskStatus
  pub trace_id : Option Text
  pub request_json : Json
  pub result_json : Option Json
  pub error_message : Option Text

-- `AuditEventORM`
pub record AuditRow (Json : Type 0) : Type 0 where
  pub event_id : Text
  pub event_type : Text
  pub trace_id : Option Text
  pub tenant_id : Option Text
  pub payload_json : Json

-- the lengths of the columns; the task's type and its status are short words
unfoldable pub fits_task : {Json : Type 0} → TaskRow Json → Bool
fits_task row =
    within 64 row.task_id
    && within 64 row.tenant_id
    && within 64 row.user_id
    && within 64 row.session_id
    && within_if_any 64 row.trace_id
    && within_if_any text_room row.error_message

unfoldable pub fits_event : {Json : Type 0} → AuditRow Json → Bool
fits_event row =
    within 64 row.event_id
    && within 64 row.event_type
    && within_if_any 64 row.trace_id
    && within_if_any 64 row.tenant_id

-- What a client asks of the repository to write.
pub data Call (Json : Type 0) : Type 0 where
  creates : ℕ → TaskRecord Json → Call Json
  updates : Text → TaskStatus → Option Text → Option Json → Option Text → Call Json

module _ {Json : Type 0} where
  -- the unique columns `task_id` and `event_id`
  abbrev pub same_task : TaskRow Json → TaskRow Json → Bool
  same_task a b = b.task_id == a.task_id

  abbrev pub same_event : AuditRow Json → AuditRow Json → Bool
  same_event a b = b.event_id == a.event_id

  -- `TaskRepository._to_record`
  abbrev pub to_record : TaskRow Json → TaskRecord Json
  to_record row = record {
    task_id = row.task_id;
    tenant_id = row.tenant_id;
    user_id = row.user_id;
    session_id = row.session_id;
    task_type = row.task_type;
    status = row.status;
    trace_id = row.trace_id;
    request_json = some row.request_json;
    result_json = row.result_json;
    error_message = row.error_message;
  }

  -- `task.request_json or {}`
  abbrev pub request_or : Json → Option Json → Json
  request_or empty none = empty
  request_or empty (some request) = request

  -- the row that `create` adds
  abbrev pub row_of : Json → TaskRecord Json → TaskRow Json
  row_of empty task = record {
    task_id = task.task_id;
    tenant_id = task.tenant_id;
    user_id = task.user_id;
    session_id = task.session_id;
    task_type = task.task_type;
    status = task.status;
    trace_id = task.trace_id;
    request_json = request_or empty task.request_json;
    result_json = task.result_json;
    error_message = task.error_message;
  }

  -- the assignments of `update_status` to the row in the database
  abbrev pub update_row :
      TaskStatus → Option Text → Option Json → Option Text → TaskRow Json → TaskRow Json
  update_row status trace_id result_json error_message row = record row {
    status = status;
    trace_id = trace_id;
    result_json = result_json;
    error_message = error_message;
  }

  -- The calls one after another, in memory.
  unfoldable pub run_memory : List (Call Json) → Repository Json → Repository Json
  run_memory [] repo = repo
  run_memory (creates now task ∷ calls) repo = run_memory calls (create task repo)
  run_memory (updates task_id status t r e ∷ calls) repo =
      run_memory calls (update_status task_id status t r e repo)

module _ {Json S : Type 0} (T : Table (TaskRow Json) S) where
  unfoldable pub find_row : Text → S → Option (Stored (TaskRow Json))
  find_row task_id s = first (test (λ row. row.task_id == task_id)) (T.rows s)

  -- `TaskRepository.update_status`
  unfoldable pub update_status_in :
      Text → TaskStatus → Option Text → Option Json → Option Text → S → S
  unfolding find_row
  update_status_in task_id status trace_id result_json error_message s = elim (find_row task_id s) [
    | none ↦ s
    | some row ↦
        T.write (λ row. row.task_id == task_id)
          (update_row status trace_id result_json error_message) s
  ]

  -- `TaskRepository.get`
  unfoldable pub get_in : Text → S → Option (TaskRecord Json)
  unfolding find_row
  get_in task_id s = map_option (λ r. to_record r.columns) (find_row task_id s)

  -- `TaskRepository.list_recoverable_tasks`
  unfoldable pub list_recoverable_in : S → List (TaskRecord Json)
  list_recoverable_in s =
      map (λ r. to_record r.columns)
        (T.oldest_first (keep (test (λ row. is_recoverable row.status)) (T.rows s)))

module _ {Json S : Type 0} (empty : Json) (T : Table (TaskRow Json) S) where
  -- `TaskRepository.create`; none is its `IntegrityError` or `DataError`.
  unfoldable pub create_in : ℕ → TaskRecord Json → S → Option S
  create_in now task s = T.add now (row_of empty task) s

  -- The calls one after another, in the database; none once one of them raises.
  unfoldable pub run_database : List (Call Json) → S → Option S
  unfolding create_in update_status_in
  run_database [] s = some s
  run_database (creates now task ∷ calls) s = elim (create_in now task s) [
    | none ↦ none
    | some s' ↦ run_database calls s'
  ]
  run_database (updates task_id status t r e ∷ calls) s =
      run_database calls (update_status_in T task_id status t r e s)

module _ {Json S : Type 0} (payload_text : Text → Json → Option Text)
    (A : Table (AuditRow Json) S) where
  -- `TaskRepository.append_audit_event`, which reads two fields of the payload
  unfoldable pub append_audit_event : ℕ → Text → Text → Json → S → Option S
  append_audit_event now event_id event_type payload s =
      A.add now
        (record {
          event_id = event_id;
          event_type = event_type;
          trace_id = payload_text (codes "trace_id") payload;
          tenant_id = payload_text (codes "tenant_id") payload;
          payload_json = payload;
        })
        s
