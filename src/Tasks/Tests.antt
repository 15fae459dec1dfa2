-- ===== src/Tasks/Tests.antt =====
-- On app/workers/task_worker.py: task managers with one task, to which the theorems are applied.
use ochestrate.Base.{
  true, false, none, some, [], ◌≡◌, refl, ◌⊎◌, text_beq, map, length, Bool, Option, List, ◌∷◌,
  count_if, ◌++◌, ◌==◌, if◌then◌else◌,
}
use mathlib.Core.Path.{subst}
use ochestrate.Storage.Rows.{some_inj}
use ochestrate.Text.{Text, text_eq, codes}
use ochestrate.Dict.{lookup, insert, values}
use ochestrate.Schemas.{
  completed, TaskStatusResponse, UnifiedRequest, UnifiedResponse, ExecutionPolicy, low, qa, queued,
  running, auto,
}
use ochestrate.Tasks.Repository.{
  update_status, update_item, TaskRecord, create, get, list_recoverable_tasks, is_recoverable,
}
use ochestrate.Tasks.Manager.{
  Manager, TaskEnvelope, Codec, Outcome, response, get_status, publish_status, submit, subscribe,
  start, recover,
}
use ochestrate.Tasks.Lifecycle.{turn, Reports, turn_persists, turn_delivers}
use ochestrate.Tasks.Invariant.{has, is_current}
use ochestrate.Tasks.Reachable.{
  fresh, Reach, Reads, here, next, started, submitted, subscribed, no_task_is_lost, memory_agrees,
}
use ochestrate.Storage.Table.{Stored}
use ochestrate.Storage.Lists.{listed, listed-IsLawful}
use ochestrate.Tasks.Database.{
  fits_task, TaskRow, Call, creates, updates, same_task, get_in, list_recoverable_in, run_memory,
  run_database,
}
use ochestrate.Tasks.TaskRows.{IsOpen}
use ochestrate.Tasks.Modes.{IsDisciplined, run_database-run_memory}
use ochestrate.Tasks.Drain.{turns, turns_finish_tasks}

data Document : Type 0 where
  written_request : UnifiedRequest → Document
  written_response : UnifiedResponse → Document

abbrev codec : Codec Document
codec = record {
  dump_request = λ r. written_request r;
  load_request = λ j. elim j [ written_request r ↦ some r | written_response r ↦ none ];
  dump_response = λ r. written_response r;
  load_response = λ j. elim j [ written_request r ↦ none | written_response r ↦ some r ];
}

codec_reads : Reads codec
codec_reads request e = cc e

abbrev policy : ExecutionPolicy
policy = record {
  sensitivity = low;
  max_cost_usd = 100;
  auto_execute = true;
  require_human_review = false;
  timeout_seconds = 60;
  confirm_write = false;
}

abbrev question : UnifiedRequest
question = record {
  tenant_id = some (codes "acme");
  user_id = some (codes "ann");
  session_id = codes "s1";
  task_type = qa;
  input = codes "hello";
  context_refs = [];
  policy = policy;
  metadata = [];
  tool_payload = none;
  tool_overrides = [];
  skill_context_mode = auto;
}

abbrev answer : UnifiedResponse
answer = record {
  answer = codes "hi";
  citations = [];
  actions = [];
  confidence = 40;
  trace_id = codes "trace";
  memory_updates = [];
  fallback_triggered = false;
}

abbrev answers : UnifiedRequest → Outcome
answers request = response answer

abbrev first : Text
first = codes "t1"

abbrev envelope : TaskEnvelope
envelope = record {
  task_id = first;
  request = question;
  status = queued;
  result = none;
  error = none;
}

abbrev stored : TaskRecord Document
stored = record {
  task_id = first;
  tenant_id = codes "acme";
  user_id = codes "ann";
  session_id = codes "s1";
  task_type = qa;
  status = queued;
  trace_id = none;
  request_json = some (written_request question);
  result_json = none;
  error_message = none;
}

-- a started manager with one submitted task and a subscriber to it
abbrev busy : Manager Document
busy =
    subscribe codec (codes "1") first (submit codec first question (start codec (fresh codec [])))

busy_reached : Reach codec (fresh codec []) busy
busy_reached =
    next (next (next here started) (submitted first question)) (subscribed (codes "1") first)

no_task_is_lost_example : (has first busy.queue ≡ true) ⊎ (is_current first busy.current ≡ true)
unfolding subscribe submit start recover publish_status list_recoverable_tasks values create insert
    lookup text_beq
no_task_is_lost_example =
    no_task_is_lost codec busy first stored codec_reads busy_reached refl refl refl

memory_agrees_example :
    (item : TaskRecord Document) × (get first busy.repo ≡ some item)
    × (is_recoverable envelope.status ≡ is_recoverable item.status)
unfolding subscribe submit start recover publish_status list_recoverable_tasks values create insert
    lookup text_beq
memory_agrees_example = memory_agrees codec busy first envelope codec_reads busy_reached refl

turns_finish_tasks_example :
    ((turns codec answers (length busy.queue) busy).queue ≡ [])
    × ((id : Text) (item : TaskRecord Document)
        → get id (turns codec answers (length busy.queue) busy).repo ≡ some item
        → is_recoverable item.status ≡ false)
unfolding subscribe submit start recover publish_status list_recoverable_tasks values
turns_finish_tasks_example =
    turns_finish_tasks codec answers busy codec_reads busy_reached
      (record { lives = refl; waits = refl })

turn_persists_example :
    Reports codec answers
      (response answer)
      (get_status codec first (record (turn codec answers busy) { tasks = [] }))
unfolding subscribe submit start recover publish_status list_recoverable_tasks values create insert
    lookup text_beq
turn_persists_example =
    turn_persists codec answers busy first [] envelope refl refl {item = stored} (λ r. refl) refl

turn_delivers_example :
    (begun : TaskStatusResponse) × (ended : TaskStatusResponse) × (begun.status ≡ running)
    × Reports codec answers (response answer) ended
    × ((turn codec answers busy).subscribers
        ≡ map
            (λ s.
              if s.task_id == first then record s { inbox = s.inbox ++ begun ∷ ended ∷ [] } else s)
            busy.subscribers)
unfolding subscribe submit start recover publish_status list_recoverable_tasks values create insert
    lookup text_beq
turn_delivers_example = turn_delivers codec answers busy first [] envelope refl refl

abbrev written : List (Call Document)
written =
    creates 5 stored
    ∷ updates stored.task_id running none none none
    ∷ updates stored.task_id completed (some (codes "trace")) (some (written_response answer)) none
    ∷ []

opened :
    (x item : TaskRecord Document)
    → IsOpen x
    → ◌≡◌ {A = Option (TaskRecord Document)} (some x) (some item)
    → IsOpen item
opened x item h e = subst IsOpen (some_inj e) h

abbrev begun : TaskRecord Document
begun = record stored { status = running }

new : IsOpen stored
new = record { no_trace = refl; no_result = refl; no_error = refl }

new_begun : IsOpen begun
new_begun = record { no_trace = refl; no_result = refl; no_error = refl }

written-IsDisciplined : IsDisciplined (written_request question) written []
unfolding fits_task IsDisciplined create update_status update_item insert lookup text_beq
written-IsDisciplined = (
  refl,
  refl,
  (written_request question, refl),
  (
    refl,
    refl,
    λ item. opened stored item new,
    (refl, refl, λ item. opened begun item new_begun, tt),
  ),
)

run_database-run_memory_example :
    (s' : List (Stored (TaskRow Document))) × (run_database
        (written_request question)
        (listed fits_task same_task)
        written
        []
      ≡ some s')
    × ((task_id : Text)
        → get_in (listed fits_task same_task) task_id s' ≡ get task_id (run_memory written []))
    × ((p : TaskRecord Document → Bool)
        → count_if p (list_recoverable_in (listed fits_task same_task) s')
          ≡ count_if p (list_recoverable_tasks (run_memory written [])))
run_database-run_memory_example =
    run_database-run_memory (written_request question) (listed fits_task same_task)
      (listed-IsLawful fits_task same_task) written [] refl written-IsDisciplined
