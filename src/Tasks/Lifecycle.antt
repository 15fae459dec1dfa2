-- ===== src/Tasks/Lifecycle.antt =====
-- On app/workers/task_worker.py: one turn of the worker takes the task at the head of the queue
-- from "queued" over "running" to its outcome, in memory and in the repository.
use ochestrate.Base.{
  map, none, some, List, [], ◌∷◌, ◌≡◌, ◌≢◌, refl, ap, ap₂, ◌∙◌, arith, ◌++◌, ◌==◌, if◌then◌else◌,
  Bool-cases, inl, inr,
}
use mathlib.Core.List.{append_assoc}
use ochestrate.Text.{Text, text_eq}
use ochestrate.Dict.{lookup, insert, lookup-insert_self, lookup-insert_ne}
use ochestrate.Schemas.{
  UnifiedRequest, UnifiedResponse, running, completed, failed, TaskStatusResponse,
}
use ochestrate.Tasks.Repository.{
  TaskRecord, update_status, get, get-update_status, get-update_status_ne, get-update_status_self,
  update_item,
}
use ochestrate.Tasks.Manager.{
  Manager, TaskEnvelope, Subscriber, Codec, Outcome, response, exception, get_status, report,
  deliver, publish_status, work_begin, work_finish, settle, take_next, mark_running, execute_known,
}

module _ {Json : Type 0} (codec : Codec Json) (task_id : Text) (a b : TaskStatusResponse) where
  deliver_both :
      (s : Subscriber)
      → deliver codec task_id b (deliver codec task_id a s)
        ≡ (if s.task_id == task_id then record s { inbox = s.inbox ++ a ∷ b ∷ [] } else s)
  unfolding deliver
  deliver_both s = elim (Bool-cases (s.task_id == task_id)) [
    | inl its ↦ rw (its, its, append_assoc) refl
    | inr others ↦ rw (others, others) refl
  ]

  -- Two snapshots that are delivered one after the other stand in this order.
  deliver_twice :
      (ss : List Subscriber)
      → map (deliver codec task_id b) (map (deliver codec task_id a) ss)
        ≡ map
            (λ s. if s.task_id == task_id then record s { inbox = s.inbox ++ a ∷ b ∷ [] } else s)
            ss
  deliver_twice [] = refl
  deliver_twice (s ∷ ss) = ap₂ (λ t ts. t ∷ ts) (deliver_both s) (deliver_twice ss)

module _ {Json : Type 0} (codec : Codec Json) (run : UnifiedRequest → Outcome) where
  abbrev pub turn : Manager Json → Manager Json
  turn m = work_finish codec run (work_begin codec m)

  -- How a task is reported that has ended so.
  abbrev pub Reports : Outcome → TaskStatusResponse → Type 0
  Reports (response r) s =
      (s.status ≡ completed) × (s.result ≡ some r) × (s.trace_id ≡ some r.trace_id)
  Reports (exception text) s = (s.status ≡ failed) × (s.error ≡ some text)

  module _ (m : Manager Json) (task_id : Text) (rest : List Text) (envelope : TaskEnvelope)
      (at_head : m.queue ≡ task_id ∷ rest) (known : lookup task_id m.tasks ≡ some envelope) where
    queue-settle :
        (o : Outcome) (e : TaskEnvelope) (m' : Manager Json)
        → (settle codec task_id e o m').queue ≡ m'.queue
    unfolding settle publish_status
    queue-settle (response r) e m' = refl
    queue-settle (exception text) e m' = refl

    marked : Manager Json
    marked = record m {
      tasks = insert task_id (record envelope { status = running }) m.tasks;
      queue = rest;
      repo = update_status task_id running none none none m.repo;
      current = some task_id;
    }

    work_begin_lem : work_begin codec m ≡ publish_status codec task_id marked
    unfolding work_begin marked
    work_begin_lem =
        ap (λ q. take_next codec q m) at_head
        ∙ ap (λ o. mark_running codec task_id o (record m { queue = rest })) known

    work_finish_lem :
        turn m
        ≡ settle codec task_id
            (record envelope { status = running })
            (run envelope.request)
            (publish_status codec task_id marked)
    unfolding work_finish marked publish_status
    work_finish_lem =
        ap (work_finish codec run) work_begin_lem
        ∙ ap (λ o. execute_known codec run task_id o (publish_status codec task_id marked))
            (lookup-insert_self task_id (record envelope { status = running }) m.tasks)

    Reports-settle :
        (o : Outcome) (e : TaskEnvelope) (m' : Manager Json)
        → Reports o (get_status codec task_id (settle codec task_id e o m'))
    unfolding settle get_status publish_status
    Reports-settle (response r) e m' = rw lookup-insert_self (refl, refl, refl)
    Reports-settle (exception text) e m' = rw lookup-insert_self (refl, refl)

    -- With a task in memory at the head of the queue, the first half of a turn reports it as
    -- running; the whole turn reports it as the orchestrator's outcome says, and leaves the rest
    -- of the queue.
    turn-Reports :
        ((get_status codec task_id (work_begin codec m)).status ≡ running)
        × Reports (run envelope.request) (get_status codec task_id (turn m))
        × ((turn m).queue ≡ rest)
    unfolding publish_status marked
    turn-Reports = (
      rw work_begin_lem (unfold get_status publish_status marked in rw lookup-insert_self),
      rw work_finish_lem (
          Reports-settle (run envelope.request) (record envelope { status = running })
            (publish_status codec task_id marked)),
      rw work_finish_lem (
          queue-settle (run envelope.request) (record envelope { status = running })
            (publish_status codec task_id marked)),
    )

    settle_others :
        (j : Text) (o : Outcome) (e : TaskEnvelope) (m' : Manager Json)
        → task_id ≢ j
        → get_status codec j (settle codec task_id e o m') ≡ get_status codec j m'
    unfolding settle get_status publish_status
    settle_others j (response r) e m' ne =
        simp (lookup-insert_ne, get-update_status) (ground (arith, ne, text_eq.beq_iff task_id j))
    settle_others j (exception text) e m' ne =
        simp (lookup-insert_ne, get-update_status) (ground (arith, ne, text_eq.beq_iff task_id j))

    -- With a task in memory at the head of the queue, a turn changes the report of no other task.
    pub turn_others : (j : Text) → task_id ≢ j → get_status codec j (turn m) ≡ get_status codec j m
    unfolding get_status publish_status marked
    turn_others j ne =
        rw
          (
            work_finish_lem,
            settle_others j (run envelope.request) (record envelope { status = running })
                (publish_status codec task_id marked) ne,
          )
          (ap₂ (report codec j) (lookup-insert_ne task_id j _ m.tasks ne)
            (get-update_status_ne task_id j _ _ _ _ m.repo ne))

    persisted :
        (o : Outcome) (e : TaskEnvelope) (m' : Manager Json) {item : TaskRecord Json}
        → ((r : UnifiedResponse) → codec.load_response (codec.dump_response r) ≡ some r)
        → get task_id m'.repo ≡ some item
        → Reports o (get_status codec task_id (record (settle codec task_id e o m') { tasks = [] }))
    unfolding settle get_status publish_status lookup update_item
    persisted (response r) e m' trip found =
        rw (get-update_status_self task_id _ _ _ _ m'.repo found) (refl, trip r, refl)
    persisted (exception text) e m' trip found =
        rw (get-update_status_self task_id _ _ _ _ m'.repo found) (refl, refl)

    -- With a task in memory and in the repository at the head of the queue, the turn's outcome is
    -- in the repository too: a process that has lost its memory of the tasks, and whose codec
    -- reads back each response that it wrote, reports the task in the same way.
    pub turn_persists :
        {item : TaskRecord Json}
        → ((r : UnifiedResponse) → codec.load_response (codec.dump_response r) ≡ some r)
        → get task_id m.repo ≡ some item
        → Reports (run envelope.request) (get_status codec task_id (record (turn m) { tasks = [] }))
    unfolding publish_status marked
    turn_persists trip found = rw work_finish_lem (
        persisted (run envelope.request) (record envelope { status = running })
          (publish_status codec task_id marked) trip
          (get-update_status_self task_id running none none none m.repo found))

    snapshot-settle :
        (o : Outcome) (e : TaskEnvelope) (m' : Manager Json)
        → (settle codec task_id e o m').subscribers
          ≡ map
              (deliver codec task_id (get_status codec task_id (settle codec task_id e o m')))
              m'.subscribers
    unfolding settle publish_status get_status
    snapshot-settle (response r) e m' = refl
    snapshot-settle (exception text) e m' = refl

    delivered :
        (turn m).subscribers
        ≡ map (deliver codec task_id (get_status codec task_id (turn m))) (
            map
              (deliver codec task_id (get_status codec task_id (work_begin codec m)))
              m.subscribers)
    unfolding publish_status marked get_status
    delivered =
        rw (work_finish_lem, work_begin_lem)
          (snapshot-settle (run envelope.request) (record envelope { status = running })
            (publish_status codec task_id marked))

    -- With a task in memory at the head of the queue, a turn puts two snapshots behind what is in
    -- the queue of each subscriber of that task, one that reports it as running and then one that
    -- reports the outcome of the orchestrator; every other subscriber is left as it is.
    pub turn_delivers :
        (begun : TaskStatusResponse) × (ended : TaskStatusResponse) × (begun.status ≡ running)
        × Reports (run envelope.request) ended
        × ((turn m).subscribers
            ≡ map
                (λ s.
                  if s.task_id == task_id
                  then record s { inbox = s.inbox ++ begun ∷ ended ∷ [] }
                  else s)
                m.subscribers)
    turn_delivers =
        let begun = get_status codec task_id (work_begin codec m) in
        let ended = get_status codec task_id (turn m) in
        (
          begun,
          ended,
          turn-Reports.0,
          turn-Reports.1,
          delivered ∙ deliver_twice codec task_id begun ended m.subscribers,
        )

    current-settle :
        (o : Outcome) (e : TaskEnvelope) (m' : Manager Json)
        → (settle codec task_id e o m').current ≡ none
    unfolding settle publish_status
    current-settle (response r) e m' = refl
    current-settle (exception text) e m' = refl

    alive-settle :
        (o : Outcome) (e : TaskEnvelope) (m' : Manager Json)
        → (settle codec task_id e o m').alive ≡ m'.alive
    unfolding settle publish_status
    alive-settle (response r) e m' = refl
    alive-settle (exception text) e m' = refl

    -- what a whole turn leaves of the worker's state
    pub turn_advances :
        ((turn m).queue ≡ rest) × ((turn m).current ≡ none) × ((turn m).alive ≡ m.alive)
    unfolding publish_status marked
    turn_advances =
        let e = record envelope { status = running } in
        let p = publish_status codec task_id marked in
        rw work_finish_lem (
          queue-settle (run envelope.request) e p,
          current-settle (run envelope.request) e p,
          alive-settle (run envelope.request) e p,
        )
