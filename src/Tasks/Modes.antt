-- ===== src/Tasks/Modes.antt =====
-- The two modes of app/storage/repositories/task_repo.py, in memory and in the database, under the
-- calls of a client that keeps to the life of a task.
use ochestrate.Base.{true, ap, ◌≡◌, refl, none, some, Bool, List, [], ◌∷◌, map, count_if}
use ochestrate.Text.{Text, text_eq}
use ochestrate.Dict.{values}
use ochestrate.Storage.Table.{within_if_any, text_room, Stored, Table, IsLawful}
use ochestrate.Tasks.Repository.{
  TaskRecord, Repository, create, get, update_status, list_recoverable_tasks,
}
use ochestrate.Tasks.Database.{
  fits_task, row_of, TaskRow, Call, creates, updates, same_task, to_record, update_status_in,
  get_in, list_recoverable_in, run_memory, run_database,
}
use ochestrate.Tasks.TaskRows.{
  IsOpen, HasRequest, Agrees, get_in-get, create-Agrees, update_status-Agrees,
  count-list_recoverable,
}

module _ {Json : Type 0} where
  -- Each task is created once, with its request, and a task that is updated has not ended; and what
  -- is written is within the lengths of the columns.
  unfoldable pub IsDisciplined : Json → List (Call Json) → Repository Json → Type 0
  IsDisciplined empty [] repo = Unit
  IsDisciplined empty (creates now task ∷ calls) repo =
      (get task.task_id repo ≡ none)
      × (fits_task (row_of empty task) ≡ true)
      × HasRequest task
      × IsDisciplined empty calls (create task repo)
  IsDisciplined empty (updates task_id status t r e ∷ calls) repo =
      (within_if_any 64 t ≡ true)
      × (within_if_any text_room e ≡ true)
      × ((item : TaskRecord Json) → get task_id repo ≡ some item → IsOpen item)
      × IsDisciplined empty calls (update_status task_id status t r e repo)

  module _ {S : Type 0} (empty : Json) (T : Table (TaskRow Json) S)
      (law : IsLawful fits_task same_task T) where
    run-Agrees :
        (calls : List (Call Json)) (repo : Repository Json) (s : S)
        → IsDisciplined empty calls repo
        → Agrees empty T law repo s
        → (s' : S) × (run_database empty T calls s ≡ some s')
          × Agrees empty T law (run_memory calls repo) s'
    unfolding run_database run_memory IsDisciplined
    run-Agrees [] repo s d h = (s, refl, h)
    run-Agrees (creates now task ∷ calls) repo s (fresh, fit, given, d) h =
        let (s₁, made, h₁) = create-Agrees empty T law now task repo s h fresh fit given in
        let (s', ran, h') = run-Agrees calls (create task repo) s₁ d h₁ in
        (s', rw (made, run_database) ran, h')
    run-Agrees (updates id status t r e ∷ calls) repo s (fit, fit', opens, d) h =
        run-Agrees calls (update_status id status t r e repo) (update_status_in T id status t r e s)
          d (update_status-Agrees empty T law id status t r e repo s h fit fit' opens)

    -- Where the database compares texts exactly: from an empty table, whatever a client creates and updates in the course of tasks' lives
    -- (each task created once and with its request, and updated only while it has no trace, result
    -- or error, and what is written within the lengths of the columns) raises nothing in the database. It leaves the records there that it leaves in
    -- memory, and as recoverable the same ones, each as often.
    pub run_database-run_memory :
        (calls : List (Call Json)) (s : S)
        → T.rows s ≡ []
        → IsDisciplined empty calls []
        → (s' : S) × (run_database empty T calls s ≡ some s')
          × ((task_id : Text) → get_in T task_id s' ≡ get task_id (run_memory calls []))
          × ((p : TaskRecord Json → Bool)
              → count_if p (list_recoverable_in T s')
                ≡ count_if p (list_recoverable_tasks (run_memory calls [])))
    unfolding values
    run_database-run_memory calls s nothing d =
        let start : Agrees empty T law [] s = record {
          keyed = tt;
          same_records = ap (map (λ (r : Stored (TaskRow Json)). to_record r.columns)) nothing;
        } in
        let (s', ran, h) = run-Agrees calls [] s d start in
        (
          s',
          ran,
          λ task_id. get_in-get empty T law task_id (run_memory calls []) s' h,
          λ p. count-list_recoverable empty T law p (run_memory calls []) s' h,
        )
