-- ===== src/Tasks/TaskRows.antt =====
-- On app/storage/repositories/task_repo.py: the table of tasks under the operations of the database mode,
-- beside the dict of the memory mode.
use mathlib.Core.Path.{subst}
use mathlib.Core.List.{map-append}
use ochestrate.Base.{
  arith, true, ap, sym, ◌∙◌, ◌≡◌, refl, Option, none, some, ℕ, Bool, [], ◌∷◌, ◌++◌, map, any, keep,
  ◌==◌, inl, inr, Option-cases, count_if, false,
}
use ochestrate.Text.{Text, text_eq}
use ochestrate.Dict.{values, All-insert}
use ochestrate.Dict.Laws.{All-lookup}
use ochestrate.Schemas.{TaskStatus}
use ochestrate.Storage.Rows.{
  first, map_option, first-map, any-map, any-none, keep-map, count_if-map, change_found,
  change_first-map, change_first,
}
use ochestrate.Storage.Keyed.{
  IsKeyed, lookup-first, values-insert_new, values-insert_old, insert-IsKeyed,
}
use ochestrate.Storage.Table.{
  Keeps, within_if_any, text_room, Stored, Table, test, assign, IsLawful,
}
use ochestrate.Tasks.Repository.{
  TaskRecord, Repository, update_item, overwrite, create, get, update_status, is_recoverable,
  list_recoverable_tasks,
}
use ochestrate.Tasks.Database.{
  fits_task, TaskRow, same_task, to_record, row_of, update_row, create_in, find_row,
  update_status_in, get_in, list_recoverable_in,
}

overwrite-none {ℓ} : {A : Type ℓ} (new old : Option A) → old ≡ none → overwrite new old ≡ new
overwrite-none none old h = h
overwrite-none (some a) old h = refl

module _ {Json : Type 0} where
  -- A record of a task that has not ended.
  pub record IsOpen (task : TaskRecord Json) : Type 0 where
    pub no_trace : task.trace_id ≡ none
    pub no_result : task.result_json ≡ none
    pub no_error : task.error_message ≡ none

  -- A record that has its request.
  abbrev pub HasRequest : TaskRecord Json → Type 0
  HasRequest task = (request : Json) × (task.request_json ≡ some request)

  to_record-row_of :
      (empty : Json) (task : TaskRecord Json)
      → HasRequest task
      → to_record (row_of empty task) ≡ task
  to_record-row_of empty task (request, h) = cc h

  written_alike :
      (status : TaskStatus) (t : Option Text) (r : Option Json) (e : Option Text)
      (row : TaskRow Json)
      → IsOpen (to_record row)
      → to_record (update_row status t r e row) ≡ update_item status t r e (to_record row)
  unfolding update_item
  written_alike status t r e row h = cc (
    overwrite-none t row.trace_id h.no_trace,
    overwrite-none r row.result_json h.no_result,
    overwrite-none e row.error_message h.no_error,
  )

  abbrev record_of : Stored (TaskRow Json) → TaskRecord Json
  record_of r = to_record r.columns

  abbrev IsOwn : Text × TaskRecord Json → Type 0
  IsOwn p = p.0 ≡ p.1.task_id

  -- A task whose new trace and error have the room stays within the lengths of the columns.
  Keeps-update_row :
      (status : TaskStatus) (t : Option Text) (r : Option Json) (e : Option Text)
      → within_if_any 64 t ≡ true
      → within_if_any text_room e ≡ true
      → Keeps fits_task (update_row status t r e)
  unfolding fits_task
  Keeps-update_row status t r e fit fit' row h = ground (arith, fit, fit', h)

  module _ {S : Type 0} (empty : Json) (T : Table (TaskRow Json) S)
      (law : IsLawful fits_task same_task T) where
    -- The table has the records of the dict, in the order of the dict.
    pub record Agrees (repo : Repository Json) (s : S) : Type 0 where
      pub keyed : IsKeyed (λ (item : TaskRecord Json). item.task_id) repo
      pub same_records : map record_of (T.rows s) ≡ values repo

    pub get_in-get :
        (task_id : Text) (repo : Repository Json) (s : S)
        → Agrees repo s
        → get_in T task_id s ≡ get task_id repo
    unfolding get_in find_row
    get_in-get task_id repo s h =
        sym (first-map record_of (λ item. item.task_id == task_id) (T.rows s))
        ∙ ap (first (λ item. item.task_id == task_id)) h.same_records
        ∙ sym (lookup-first (λ item. item.task_id) task_id repo h.keyed)

    get_in_found :
        (task_id : Text) (s : S) {r : Stored (TaskRow Json)}
        → find_row T task_id s ≡ some r
        → get_in T task_id s ≡ some (record_of r)
    unfolding get_in
    get_in_found task_id s it = ap (map_option record_of) it

    fresh_row :
        (task : TaskRecord Json) (repo : Repository Json) (s : S)
        → Agrees repo s
        → get task.task_id repo ≡ none
        → any (test (same_task (row_of empty task))) (T.rows s) ≡ false
    fresh_row task repo s h fresh =
        sym (any-map record_of (λ item. item.task_id == task.task_id) (T.rows s))
        ∙ ap (any (λ item. item.task_id == task.task_id)) h.same_records
        ∙ any-none (λ item. item.task_id == task.task_id) (values repo)
            (sym (lookup-first (λ item. item.task_id) task.task_id repo h.keyed) ∙ fresh)

    pub create-Agrees :
        (now : ℕ) (task : TaskRecord Json) (repo : Repository Json) (s : S)
        → Agrees repo s
        → get task.task_id repo ≡ none
        → fits_task (row_of empty task) ≡ true
        → HasRequest task
        → (s' : S) × (create_in empty T now task s ≡ some s') × Agrees (create task repo) s'
    unfolding create_in create
    create-Agrees now task repo s h fresh fit given =
        let (s', added, rows') =
          law.rows-add now (row_of empty task) s fit (fresh_row task repo s h fresh) in
        (
          s',
          added,
          record {
            keyed = insert-IsKeyed (λ (item : TaskRecord Json). item.task_id) task repo h.keyed;
            same_records =
                ap (map record_of) rows'
                ∙ map-append record_of (T.rows s)
                    (record { created_at = now; columns = row_of empty task } ∷ [])
                ∙ ap (λ xs. xs ++ (to_record (row_of empty task) ∷ [])) h.same_records
                ∙ ap (λ item. values repo ++ (item ∷ [])) (to_record-row_of empty task given)
                ∙ sym (values-insert_new task.task_id task repo fresh);
          },
        )

    found_row :
        (task_id : Text) (repo : Repository Json) (s : S) {item : TaskRecord Json}
        → Agrees repo s
        → get task_id repo ≡ some item
        → (r : Stored (TaskRow Json)) × (find_row T task_id s ≡ some r) × (record_of r ≡ item)
    unfolding get_in find_row
    found_row task_id repo s h present = elim (Option-cases (find_row T task_id s)) [
      | inl none_found ↦ absurd (cc (get_in-get task_id repo s h, present, none_found))
      | inr (r, it) ↦ (r, it, cc (get_in-get task_id repo s h, present, get_in_found task_id s it))
    ]

    pub update_status-Agrees :
        (id : Text) (status : TaskStatus) (t : Option Text) (r : Option Json) (e : Option Text)
        (repo : Repository Json) (s : S)
        → Agrees repo s
        → within_if_any 64 t ≡ true
        → within_if_any text_room e ≡ true
        → ((item : TaskRecord Json) → get id repo ≡ some item → IsOpen item)
        → Agrees (update_status id status t r e repo) (update_status_in T id status t r e s)
    unfolding update_status update_status_in find_row update_item
    update_status-Agrees id status t r e repo s h fit fit' opens =
        elim (Option-cases (get id repo)) [
          | inl absent ↦ elim (Option-cases (find_row T id s)) [
            | inl none_found ↦ rw (absent, none_found, update_status, update_status_in) h
            | inr (row, it) ↦ absurd (cc (get_in-get id repo s h, absent, get_in_found id s it))
          ]
          | inr (item, present) ↦
              let (row, it, same) = found_row id repo s h present in
              let f = update_row status t r e in
              let opened = subst IsOpen (sym same) (opens item present) in
              rw (present, it, update_status, update_status_in)
                (record {
                  keyed =
                      All-insert IsOwn id (update_item status t r e item) repo
                        (All-lookup IsOwn id repo h.keyed present) h.keyed;
                  same_records =
                      ap (map record_of) (
                        law.rows-write (λ row. row.task_id == id) f s (λ a b. refl)
                          (Keeps-update_row status t r e fit fit')
                        ∙ change_found (test (λ row. row.task_id == id)) (assign f) (T.rows s) it)
                      ∙ change_first-map record_of (λ x. x.task_id == id) (assign f row) (T.rows s)
                      ∙ ap (change_first (λ x. x.task_id == id) (λ x. record_of (assign f row)))
                          h.same_records
                      ∙ ap
                          (λ y.
                            change_first (λ (x : TaskRecord Json). x.task_id == id) (λ x. y)
                              (values repo))
                          (written_alike status t r e row.columns opened
                            ∙ ap (update_item status t r e) same)
                      ∙ sym (
                          values-insert_old (λ (x : TaskRecord Json). x.task_id) id
                            (update_item status t r e item) repo h.keyed present);
                })
        ]

    pub count-list_recoverable :
        (p : TaskRecord Json → Bool) (repo : Repository Json) (s : S)
        → Agrees repo s
        → count_if p (list_recoverable_in T s) ≡ count_if p (list_recoverable_tasks repo)
    unfolding list_recoverable_in list_recoverable_tasks
    count-list_recoverable p repo s h =
        count_if-map record_of p (T.oldest_first _)
        ∙ law.count-oldest_first (λ r. p (record_of r)) _
        ∙ sym (count_if-map record_of p (keep (λ r. is_recoverable r.columns.status) (T.rows s)))
        ∙ ap (count_if p) (
            sym (keep-map record_of (λ item. is_recoverable item.status) (T.rows s))
            ∙ ap (keep (λ item. is_recoverable item.status)) h.same_records)
