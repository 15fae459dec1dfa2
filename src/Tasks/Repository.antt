-- ===== src/Tasks/Repository.antt =====
-- app/storage/repositories/task_repo.py in its memory mode, whose repository is a dict. JSON stands for the serialised form
-- of requests and responses, which pydantic produces.
use ochestrate.Base.{
  Bool, true, false, Option, none, some, List, ◌==◌, keep, ◌≡◌, ◌≢◌, inl, inr, arith, Option-cases,
  if◌then◌else◌,
}
use ochestrate.Text.{Text, text_eq}
use ochestrate.Dict.{Dict, lookup, insert, values, lookup-insert, beq_refl}
use ochestrate.Schemas.{TaskStatus, queued, running, completed, failed, TaskType}

pub record TaskRecord (Json : Type 0) : Type 0 where
  pub task_id : Text
  pub tenant_id : Text
  pub user_id : Text
  pub session_id : Text
  pub task_type : TaskType
  pub status : TaskStatus
  pub trace_id : Option Text
  pub request_json : Option Json
  pub result_json : Option Json
  pub error_message : Option Text

abbrev pub Repository : Type 0 → Type 0
Repository Json = Dict Text (TaskRecord Json)

-- `item.field = value` under `if value is not None`
abbrev pub overwrite {ℓ} : {A : Type ℓ} → Option A → Option A → Option A
overwrite none old = old
overwrite (some value) old = some value

-- `item.status in {"queued", "running"}`
abbrev pub is_recoverable : TaskStatus → Bool
is_recoverable queued = true
is_recoverable running = true
is_recoverable completed = false
is_recoverable failed = false

module _ {Json : Type 0} where
  -- `TaskRepository.create`
  unfoldable pub create : TaskRecord Json → Repository Json → Repository Json
  create task repo = insert task.task_id task repo

  -- the assignments of `update_status` to the item in memory
  unfoldable pub update_item :
      TaskStatus → Option Text → Option Json → Option Text → TaskRecord Json → TaskRecord Json
  update_item status trace_id result_json error_message item = record item {
    status = status;
    trace_id = overwrite trace_id item.trace_id;
    result_json = overwrite result_json item.result_json;
    error_message = overwrite error_message item.error_message;
  }

  -- `TaskRepository.update_status`
  unfoldable pub update_status :
      Text
      → TaskStatus
      → Option Text
      → Option Json
      → Option Text
      → Repository Json
      → Repository Json
  update_status task_id status trace_id result_json error_message repo =
      elim (lookup task_id repo) [
        | none ↦ repo
        | some item ↦
            insert task_id (update_item status trace_id result_json error_message item) repo
      ]

  -- `TaskRepository.list_recoverable_tasks`
  unfoldable pub list_recoverable_tasks : Repository Json → List (TaskRecord Json)
  list_recoverable_tasks repo = keep (λ item. is_recoverable item.status) (values repo)

  -- `TaskRepository.get`
  abbrev pub get : Text → Repository Json → Option (TaskRecord Json)
  get task_id repo = lookup task_id repo

  abbrev pub update_found :
      TaskStatus
      → Option Text
      → Option Json
      → Option Text
      → Option (TaskRecord Json)
      → Option (TaskRecord Json)
  update_found s t r e none = none
  update_found s t r e (some item) = some (update_item s t r e item)

  pub get-update_status :
      (id j : Text) (s : TaskStatus) (t : Option Text) (r : Option Json) (e : Option Text)
      (repo : Repository Json)
      → get j (update_status id s t r e repo)
        ≡ (if id == j then update_found s t r e (get j repo) else get j repo)
  unfolding update_status
  get-update_status id j s t r e repo = elim (Option-cases (lookup id repo)) [
    | inl absent ↦ rw (absent, update_status) (ground (arith, text_eq.beq_iff id j))
    | inr (item, found) ↦
        rw (found, update_status, lookup-insert) (ground (arith, text_eq.beq_iff id j))
  ]

  pub get-update_status_self :
      (id : Text) (s : TaskStatus) (t : Option Text) (r : Option Json) (e : Option Text)
      (repo : Repository Json) {item : TaskRecord Json}
      → get id repo ≡ some item
      → get id (update_status id s t r e repo) ≡ some (update_item s t r e item)
  get-update_status_self id s t r e repo found = rw (get-update_status, beq_refl id, found)

  pub get-update_status_ne :
      (id j : Text) (s : TaskStatus) (t : Option Text) (r : Option Json) (e : Option Text)
      (repo : Repository Json)
      → id ≢ j
      → get j (update_status id s t r e repo) ≡ get j repo
  get-update_status_ne id j s t r e repo ne =
      rw get-update_status (ground (arith, text_eq.beq_iff id j))
