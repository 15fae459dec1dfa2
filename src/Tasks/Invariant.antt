-- ===== src/Tasks/Invariant.antt =====
-- On app/workers/task_worker.py: the invariant of the task manager, stated for one task at a time:
-- memory and repository agree on whether the task is finished, and while the worker lives an
-- unfinished task is in the queue or is being executed.
use ochestrate.Base.{
  Bool, true, false, ◌||◌, Option, none, some, List, ◌≡◌, ◌≢◌, refl, ◌==◌, inl, inr, Option-cases,
  All, any,
}
use ochestrate.Text.{Text, text_eq}
use ochestrate.Dict.{lookup, insert, All-insert}
use ochestrate.Dict.Laws.{IsDict, insert-IsDict, All-lookup}
use ochestrate.Schemas.{TaskStatus}
use ochestrate.Tasks.Repository.{
  TaskRecord, Repository, create, update_status, update_item, get, is_recoverable,
}
use ochestrate.Tasks.Manager.{Manager, TaskEnvelope, Codec, loaded}

-- `task_id in queue`
abbrev pub has : Text → List Text → Bool
has task_id queue = any (λ x. x == task_id) queue

abbrev pub is_current : Text → Option Text → Bool
is_current task_id none = false
is_current task_id (some current) = current == task_id

abbrev pub unfinished : Option TaskEnvelope → Bool
unfinished none = false
unfinished (some e) = is_recoverable e.status

abbrev pub in_memory : Option TaskEnvelope → Bool
in_memory none = false
in_memory (some e) = true

module _ {Json : Type 0} where
  abbrev pub stored : Option (TaskRecord Json) → Bool
  stored none = false
  stored (some r) = true

  abbrev pub recoverable : Option (TaskRecord Json) → Bool
  recoverable none = false
  recoverable (some r) = is_recoverable r.status

  -- What holds of one task: the worker lives, it executes the task, the task is queued, its
  -- envelope and its record.
  pub record IsSound (alive executed queued' : Bool) (e : Option TaskEnvelope)
      (r : Option (TaskRecord Json)) : Type 0 where
    pub known : queued' ≡ true → in_memory e ≡ true
    pub saved : in_memory e ≡ true → stored r ≡ true
    pub agree : in_memory e ≡ true → unfinished e ≡ recoverable r
    pub pending : alive ≡ true → recoverable r ≡ true → (queued' || executed) ≡ true
    pub executing : executed ≡ true → in_memory e ≡ true

module _ {Json : Type 0} (codec : Codec Json) where
  -- An entry of the repository is filed under its own identifier, and its request can be read.
  pub record IsEntry (p : Text × TaskRecord Json) : Type 0 where
    pub own_key : p.1.task_id ≡ p.0
    pub readable : loaded codec p.1.request_json ≢ none

  pub record IsFiled (repo : Repository Json) : Type 0 where
    pub distinct : IsDict repo
    pub entries : All IsEntry repo

  pub record IsConsistent (m : Manager Json) : Type 0 where
    pub filed : IsFiled m.repo
    pub sound :
        (j : Text)
        → IsSound m.alive (is_current j m.current) (has j m.queue) (lookup j m.tasks) (get j m.repo)

  insert-IsFiled :
      (id : Text) (item : TaskRecord Json) (repo : Repository Json)
      → IsEntry (id, item)
      → IsFiled repo
      → IsFiled (insert id item repo)
  insert-IsFiled id item repo e h = record {
    distinct = insert-IsDict id item repo h.distinct;
    entries = All-insert IsEntry id item repo e h.entries;
  }

  pub update_status-IsFiled :
      (id : Text) (s : TaskStatus) (t : Option Text) (r : Option Json) (e : Option Text)
      (repo : Repository Json)
      → IsFiled repo
      → IsFiled (update_status id s t r e repo)
  unfolding update_status
  update_status-IsFiled id s t r e repo h = elim (Option-cases (get id repo)) [
    | inl absent ↦ rw (absent, update_status) h
    | inr (item, found) ↦
        let entry = All-lookup IsEntry id repo h.entries found in
        rw (found, update_status)
          (insert-IsFiled id (update_item s t r e item) repo
            (record {
              own_key = unfold update_item in entry.own_key;
              readable = unfold update_item in entry.readable;
            })
            h)
  ]

  pub create-IsFiled :
      (item : TaskRecord Json) (repo : Repository Json)
      → loaded codec item.request_json ≢ none
      → IsFiled repo
      → IsFiled (create item repo)
  unfolding create
  create-IsFiled item repo readable h =
      insert-IsFiled item.task_id item repo (record { own_key = refl; readable = readable }) h
