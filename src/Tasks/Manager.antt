-- ===== src/Tasks/Manager.antt =====
-- app/workers/task_worker.py. The worker's iteration is two steps, since other coroutines run while
-- it publishes the status "running": `work_begin` ends with that publication, and `work_finish` is
-- the call of the orchestrator with what follows. The queue is `InMemoryQueueBackend`.
use ochestrate.Base.{
  Bool, true, false, Option, none, some, List, [], ◌∷◌, ◌++◌, map, ◌==◌, if◌then◌else◌, keep,
}
use ochestrate.Text.{Text, text_eq, codes}
use ochestrate.Dict.{Dict, lookup, insert}
use ochestrate.Schemas.{
  UnifiedRequest, UnifiedResponse, TaskStatus, queued, running, completed, failed,
  TaskStatusResponse,
}
use ochestrate.Tasks.Repository.{
  TaskRecord, Repository, create, update_status, list_recoverable_tasks, get,
}

pub record TaskEnvelope : Type 0 where
  pub task_id : Text
  pub request : UnifiedRequest
  pub status : TaskStatus
  pub result : Option UnifiedResponse
  pub error : Option Text

-- A subscription and the snapshots that its `asyncio.Queue` has been given, the oldest first.
pub record Subscriber : Type 0 where
  pub number : Text
  pub task_id : Text
  pub inbox : List TaskStatusResponse

-- `TaskManager`: `alive` says that the worker coroutine runs, and `current` is the task that it has
-- marked as running and not yet executed.
pub record Manager (Json : Type 0) : Type 0 where
  pub tasks : Dict Text TaskEnvelope
  pub queue : List Text
  pub repo : Repository Json
  pub subscribers : List Subscriber
  pub alive : Bool
  pub current : Option Text

-- How `OrchestratorService.run` ends: with a response, or with an exception of that text.
pub data Outcome : Type 0 where
  response : UnifiedResponse → Outcome
  exception : Text → Outcome

-- How pydantic writes requests and responses as JSON and reads them back.
pub record Codec (Json : Type 0) : Type 0 where
  pub dump_request : UnifiedRequest → Json
  pub load_request : Json → Option UnifiedRequest
  pub dump_response : UnifiedResponse → Json
  pub load_response : Json → Option UnifiedResponse

abbrev pub or_blank : Option Text → Text
or_blank none = []
or_blank (some t) = t

module _ {Json : Type 0} (codec : Codec Json) where
  abbrev pub trace_of : Option UnifiedResponse → Option Text
  trace_of none = none
  trace_of (some r) = some r.trace_id

  -- `UnifiedResponse.model_validate` of the stored result; the codec reads back what it has written,
  -- and where it does not, the error that is raised is taken as no result.
  abbrev pub load_result : Option Json → Option UnifiedResponse
  load_result none = none
  load_result (some j) = codec.load_response j

  unfoldable pub from_memory : TaskEnvelope → TaskStatusResponse
  from_memory task = record {
    task_id = task.task_id;
    status = task.status;
    trace_id = trace_of task.result;
    result = task.result;
    error = task.error;
  }

  unfoldable pub from_record : Text → Option (TaskRecord Json) → TaskStatusResponse
  from_record task_id none = record {
    task_id = task_id;
    status = failed;
    trace_id = none;
    result = none;
    error = some (codes "task_not_found");
  }
  from_record task_id (some persistent) = record {
    task_id = persistent.task_id;
    status = persistent.status;
    trace_id = persistent.trace_id;
    result = load_result persistent.result_json;
    error = persistent.error_message;
  }

  abbrev pub report : Text → Option TaskEnvelope → Option (TaskRecord Json) → TaskStatusResponse
  report task_id (some task) persistent = from_memory task
  report task_id none persistent = from_record task_id persistent

  -- `TaskManager.get_status`
  unfoldable pub get_status : Text → Manager Json → TaskStatusResponse
  unfolding from_memory from_record
  get_status task_id m = report task_id (lookup task_id m.tasks) (get task_id m.repo)

  -- `await queue.put(snapshot)` for a subscriber of the task
  unfoldable pub deliver : Text → TaskStatusResponse → Subscriber → Subscriber
  deliver task_id snapshot s =
      if s.task_id == task_id then record s { inbox = s.inbox ++ snapshot ∷ [] } else s

  -- `TaskManager._publish_status`
  unfoldable pub publish_status : Text → Manager Json → Manager Json
  unfolding deliver
  publish_status task_id m = record m {
    subscribers = map (deliver task_id (get_status task_id m)) m.subscribers;
  }

  -- `TaskManager.submit`, with the identifier that `uuid4` gives
  unfoldable pub submit : Text → UnifiedRequest → Manager Json → Manager Json
  submit task_id request m = publish_status task_id (record m {
    tasks =
        insert task_id
          (record {
            task_id = task_id;
            request = request;
            status = queued;
            result = none;
            error = none;
          })
          m.tasks;
    repo =
        create
          (record {
            task_id = task_id;
            tenant_id = or_blank request.tenant_id;
            user_id = or_blank request.user_id;
            session_id = request.session_id;
            task_type = request.task_type;
            status = queued;
            trace_id = none;
            request_json = some (codec.dump_request request);
            result_json = none;
            error_message = none;
          })
          m.repo;
    queue = m.queue ++ task_id ∷ [];
  })

  -- the start of `TaskManager.subscribe_status`: the new queue holds the current snapshot
  unfoldable pub subscribe : Text → Text → Manager Json → Manager Json
  subscribe number task_id m = record m {
    subscribers =
        m.subscribers
        ++ record { number = number; task_id = task_id; inbox = get_status task_id m ∷ [] } ∷ [];
  }

  -- the `finally` of `TaskManager.subscribe_status`
  unfoldable pub unsubscribe : Text → Manager Json → Manager Json
  unsubscribe number m = record m {
    subscribers = keep (λ s. if s.number == number then false else true) m.subscribers;
  }

  unfoldable pub mark_running : Text → Option TaskEnvelope → Manager Json → Manager Json
  mark_running task_id none m = m
  mark_running task_id (some envelope) m = publish_status task_id (record m {
    tasks = insert task_id (record envelope { status = running }) m.tasks;
    repo = update_status task_id running none none none m.repo;
    current = some task_id;
  })

  unfoldable pub take_next : List Text → Manager Json → Manager Json
  take_next [] m = m
  take_next (task_id ∷ rest) m =
      mark_running task_id (lookup task_id m.tasks) (record m { queue = rest })

  -- one turn of `TaskManager._worker_loop`, up to the call of the orchestrator
  unfoldable pub work_begin : Manager Json → Manager Json
  unfolding take_next mark_running
  work_begin m = take_next m.queue m

  unfoldable pub settle : Text → TaskEnvelope → Outcome → Manager Json → Manager Json
  settle task_id envelope (response r) m = publish_status task_id (record m {
    tasks = insert task_id (record envelope { status = completed; result = some r }) m.tasks;
    repo =
        update_status task_id completed (some r.trace_id) (some (codec.dump_response r)) none
          m.repo;
    current = none;
  })
  settle task_id envelope (exception text) m = publish_status task_id (record m {
    tasks = insert task_id (record envelope { status = failed; error = some text }) m.tasks;
    repo = update_status task_id failed none none (some text) m.repo;
    current = none;
  })

  unfoldable pub execute_known :
      (UnifiedRequest → Outcome) → Text → Option TaskEnvelope → Manager Json → Manager Json
  execute_known run task_id none m = m
  execute_known run task_id (some envelope) m = settle task_id envelope (run envelope.request) m

  unfoldable pub execute_current :
      (UnifiedRequest → Outcome) → Option Text → Manager Json → Manager Json
  execute_current run none m = m
  execute_current run (some task_id) m = execute_known run task_id (lookup task_id m.tasks) m

  -- the rest of that turn, for the outcome of `OrchestratorService.run` on the task's request
  unfoldable pub work_finish : (UnifiedRequest → Outcome) → Manager Json → Manager Json
  unfolding execute_current execute_known settle
  work_finish run m = execute_current run m.current m

  unfoldable pub requeue : TaskRecord Json → Option UnifiedRequest → Manager Json → Manager Json
  requeue item none m = m
  requeue item (some request) m = record m {
    tasks =
        insert item.task_id
          (record {
            task_id = item.task_id;
            request = request;
            status = queued;
            result = none;
            error = none;
          })
          m.tasks;
    queue = m.queue ++ item.task_id ∷ [];
  }

  abbrev pub loaded : Option Json → Option UnifiedRequest
  loaded none = none
  loaded (some j) = codec.load_request j

  -- the loop of `TaskManager._recover_pending_tasks`
  unfoldable pub recover : List (TaskRecord Json) → Manager Json → Manager Json
  unfolding requeue
  recover [] m = m
  recover (item ∷ items) m = recover items (requeue item (loaded item.request_json) m)

  -- `TaskManager.start`
  unfoldable pub start : Manager Json → Manager Json
  start m =
      if m.alive then m else record (recover (list_recoverable_tasks m.repo) m) { alive = true }

  -- `TaskManager.stop`: the cancelled worker leaves its task as it stands
  unfoldable pub stop : Manager Json → Manager Json
  stop m = record m { alive = false; current = none }
