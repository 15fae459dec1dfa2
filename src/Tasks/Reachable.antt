-- ===== src/Tasks/Reachable.antt =====
-- On app/workers/task_worker.py: the states that the task manager reaches by any interleaving of
-- its coroutines, with stops, with crashes that leave the repository alone, and with restarts.
use mathlib.Core.Path.{subst}
use mathlib.Core.Bool.{false≢true}
use ochestrate.Base.{
  Bool, true, false, ◌||◌, Option, none, some, [], ◌≡◌, ◌≢◌, refl, arith, inl, inr, ◌⊎◌,
}
use ochestrate.Text.{Text, text_eq}
use ochestrate.Dict.{lookup}
use ochestrate.Schemas.{UnifiedRequest}
use ochestrate.Tasks.Repository.{TaskRecord, Repository, get, is_recoverable}
use ochestrate.Tasks.Manager.{
  Manager, TaskEnvelope, Codec, Outcome, submit, subscribe, unsubscribe, work_begin, work_finish,
  start, stop,
}
use ochestrate.Tasks.Invariant.{has, is_current, IsSound, IsFiled, IsConsistent}
use ochestrate.Tasks.Steps.{
  submit-IsConsistent, take_next-IsConsistent, execute_current-IsConsistent, stop-IsConsistent,
}
use ochestrate.Tasks.Recovery.{start-IsConsistent}

module _ {Json : Type 0} (codec : Codec Json) where
  -- A manager as its constructor makes it, over a repository.
  abbrev pub fresh : Repository Json → Manager Json
  fresh repo = record {
    tasks = [];
    queue = [];
    repo = repo;
    subscribers = [];
    alive = false;
    current = none;
  }

  pub data Step (m : Manager Json) : Manager Json → Type 0 where
    submitted : (id : Text) (request : UnifiedRequest) → Step m (submit codec id request m)
    begun : m.alive ≡ true → m.current ≡ none → Step m (work_begin codec m)
    finished : (run : UnifiedRequest → Outcome) → Step m (work_finish codec run m)
    subscribed : (number id : Text) → Step m (subscribe codec number id m)
    unsubscribed : (number : Text) → Step m (unsubscribe codec number m)
    stopped : Step m (stop codec m)
    started : Step m (start codec m)
    crashed : Step m (fresh m.repo)

  pub data Reach (s : Manager Json) : Manager Json → Type 0 where
    here : Reach s s
    next : {t u : Manager Json} → Reach s t → Step t u → Reach s u

  -- What pydantic writes of a request it can read again.
  abbrev pub Reads : Type 0
  Reads = (request : UnifiedRequest) → codec.load_request (codec.dump_request request) ≢ none

  fresh-IsSound : (r : Option (TaskRecord Json)) → IsSound false false false none r
  fresh-IsSound r = ground arith

  pub fresh-IsConsistent :
      (repo : Repository Json) → IsFiled codec repo → IsConsistent codec (fresh repo)
  unfolding lookup
  fresh-IsConsistent repo h = record { filed = h; sound = λ j. fresh-IsSound (get j repo) }

  pub Step-IsConsistent :
      {m n : Manager Json} → Reads → Step m n → IsConsistent codec m → IsConsistent codec n
  unfolding subscribe unsubscribe work_begin work_finish
  Step-IsConsistent {m} reads (submitted id request) h =
      submit-IsConsistent codec id request m (reads request) h
  Step-IsConsistent {m} reads (begun alive idle) h =
      take_next-IsConsistent codec m.queue m refl idle h
  Step-IsConsistent {m} reads (finished run) h =
      execute_current-IsConsistent codec run m.current m refl h
  Step-IsConsistent reads (subscribed number id) h = record { filed = h.filed; sound = h.sound }
  Step-IsConsistent reads (unsubscribed number) h = record { filed = h.filed; sound = h.sound }
  Step-IsConsistent {m} reads stopped h = stop-IsConsistent codec m h
  Step-IsConsistent {m} reads started h = start-IsConsistent codec m h
  Step-IsConsistent {m} reads crashed h = fresh-IsConsistent m.repo h.filed

  pub Reach-IsConsistent :
      {m n : Manager Json} → Reads → Reach m n → IsConsistent codec m → IsConsistent codec n
  Reach-IsConsistent reads here h = h
  Reach-IsConsistent reads (next r s) h = Step-IsConsistent reads s (Reach-IsConsistent reads r h)

  or_split : (a b : Bool) → (a || b) ≡ true → (a ≡ true) ⊎ (b ≡ true)
  or_split true b h = inl refl
  or_split false b h = inr h

  -- From an empty repository, where the codec reads back each request that it writes, and whatever
  -- the interleaving of submissions, turns of the worker, stops, crashes and restarts: while the
  -- worker lives, a task that the repository has as queued or running is in the queue or is the
  -- one that is being executed.
  pub no_task_is_lost :
      (m : Manager Json) (id : Text) (item : TaskRecord Json)
      → Reads
      → Reach (fresh []) m
      → m.alive ≡ true
      → get id m.repo ≡ some item
      → is_recoverable item.status ≡ true
      → (has id m.queue ≡ true) ⊎ (is_current id m.current ≡ true)
  no_task_is_lost m id item reads reach alive found open' =
      let h =
        Reach-IsConsistent reads reach
          (fresh-IsConsistent [] (record { distinct = tt; entries = tt })) in
      or_split (has id m.queue) (is_current id m.current)
        ((h.sound id).pending alive (rw found open'))

  -- In every state that submissions, turns of the worker, stops, crashes and restarts reach from an
  -- empty repository, with a codec that reads back each request, a task in memory is in the
  -- repository too, and both say alike whether it is finished.
  pub memory_agrees :
      (m : Manager Json) (id : Text) (envelope : TaskEnvelope)
      → Reads
      → Reach (fresh []) m
      → lookup id m.tasks ≡ some envelope
      → (item : TaskRecord Json) × (get id m.repo ≡ some item)
        × (is_recoverable envelope.status ≡ is_recoverable item.status)
  memory_agrees m id envelope reads reach found =
      let h =
        Reach-IsConsistent reads reach
          (fresh-IsConsistent [] (record { distinct = tt; entries = tt })) in
      agreement (get id m.repo) envelope (
        subst (λ e. IsSound m.alive (is_current id m.current) (has id m.queue) e (get id m.repo))
          found (h.sound id))
    where
      agreement :
          (r : Option (TaskRecord Json)) (e : TaskEnvelope) {a c q : Bool}
          → IsSound a c q (some e) r
          → (item : TaskRecord Json) × (r ≡ some item)
            × (is_recoverable e.status ≡ is_recoverable item.status)
      agreement none e s = absurd (false≢true (s.saved refl))
      agreement (some item) e s = (item, refl, s.agree refl)
