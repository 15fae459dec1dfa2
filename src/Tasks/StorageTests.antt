-- ===== src/Tasks/StorageTests.antt =====
-- On app/workers/queue_backend.py and app/observability/audit.py: a server with one list, and two events.
use ochestrate.Base.{none, some, [], ◌≡◌, refl, text_beq, map, Option, List, ◌∷◌, ◌++◌, arith}
use ochestrate.Text.{Text, text_eq, codes}
use ochestrate.Storage.Lists.{listed, listed-IsLawful}
use ochestrate.Tasks.Database.{fits_event, same_event}
use ochestrate.Tasks.Queue.{
  Redis, IsLawful, QueueCall, enqueues, dequeues, in_memory_backend, redis_backend, run_queue,
  put_in, handed_out, run_queue_fifo,
}
use ochestrate.Tasks.Audit.{
  AuditLine, AreApart, record_events, columns_of, audit_row, record_events_lem,
}

-- a server with one list, whatever its name
abbrev server : Redis (List Text)
server = record {
  items = λ name r. r;
  rpush = λ name item r. r ++ (item ∷ []);
  blpop = λ name seconds r. elim r [ [] ↦ (none, []) | item ∷ items ↦ (some (name, item), items) ];
}

server-IsLawful : IsLawful server (codes "agent_tasks")
server-IsLawful = record {
  items-rpush = λ item r. refl;
  blpop_empty = λ seconds r enough empty. rw (empty) (refl, refl);
  blpop_first = λ seconds r item rest enough there. rw (there) (refl, refl);
}

abbrev asked : List QueueCall
asked =
    enqueues (codes "a")
    ∷ enqueues (codes "b")
    ∷ dequeues 20
    ∷ dequeues 20
    ∷ dequeues 20
    ∷ enqueues (codes "c")
    ∷ []

run_queue_fifo_example :
    let memory = run_queue in_memory_backend asked [] in
    let redis = run_queue (redis_backend server (codes "agent_tasks")) asked [] in
    (redis.0 ≡ memory.0)
    × (handed_out memory.0 ++ memory.1 ≡ put_in asked)
    × (handed_out redis.0 ++ server.items (codes "agent_tasks") redis.1 ≡ put_in asked)
run_queue_fifo_example =
    run_queue_fifo server (codes "agent_tasks") server-IsLawful asked []
      (omega arith, (omega arith, (omega arith, tt))) refl

abbrev audited : Text → AuditLine Text
audited id = record {
  event_id = id;
  event_type = codes "tool_invoke";
  timestamp = 3;
  payload = codes "{}";
}

abbrev events : List (AuditLine Text)
events = audited (codes "e1") ∷ audited (codes "e2") ∷ []

abbrev no_text : Text → Text → Option Text
no_text key payload = none

events_apart : AreApart events
unfolding text_beq
events_apart = ((λ same. cc ((text_eq.beq_iff (codes "e1") (codes "e2")).1 same), tt), (tt, tt))

record_events_lem_example :
    ((record_events no_text (listed fits_event same_event) events ([], [])).0 ≡ events)
    × (columns_of
          (listed fits_event same_event)
          (record_events no_text (listed fits_event same_event) events ([], [])).1
        ≡ map (audit_row no_text) events)
unfolding fits_event
record_events_lem_example =
    record_events_lem no_text (listed fits_event same_event) (listed-IsLawful fits_event same_event)
      events [] refl events_apart (refl, (refl, tt))
