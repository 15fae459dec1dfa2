-- ===== src/Tasks/Queue.antt =====
-- app/workers/queue_backend.py. `asyncio.Queue` is a list; a `dequeue` is taken at the moment at which
-- its waiting ends. The client of Redis is a parameter, with the documented behaviour of its two
-- commands as laws. Times are hundredths of a second.
use ochestrate.Base.{
  ◌≡◌, ◌≤◌, refl, ap, sym, ◌∙◌, ℕ, max, ◌/◌, Option, none, some, List, [], ◌∷◌, ◌++◌, arith,
  Bool-cases, inl, inr, nat_beq, false, if◌then◌else◌,
}
use mathlib.Core.List.{append-nil, append_assoc}
use ochestrate.Text.{Text, codes}
use ochestrate.Tools.Hub.{Result, ok, raised, failure}
use ochestrate.Storage.Rows.{map_option}

-- `QueueBackend`, over a state of the queue
pub record QueueBackend (Q : Type 0) : Type 0 where
  pub enqueue : Text → Q → Q
  pub dequeue : ℕ → Q → Option Text × Q

-- `asyncio.Queue`: what a `get()` that is waited for returns, where none is a `TimeoutError`
unfoldable pub get_first : List Text → Option Text × List Text
get_first [] = (none, [])
get_first (item ∷ items) = (some item, items)

-- `asyncio.wait_for(queue.get(), timeout)`: without time to wait, the `get()` is cancelled before it has
-- begun, whatever is in the queue.
unfoldable pub get_within : ℕ → List Text → Option Text × List Text
unfolding get_first
get_within timeout_seconds queue =
    if nat_beq timeout_seconds 0 then (none, queue) else get_first queue

-- `InMemoryQueueBackend`
unfoldable pub in_memory_backend : QueueBackend (List Text)
unfolding get_within
in_memory_backend = record {
  enqueue = λ item queue. queue ++ (item ∷ []);
  dequeue = λ timeout_seconds queue. get_within timeout_seconds queue;
}

-- `redis.asyncio.Redis` over the state of the server: the items of a list by its name, `rpush`, and
-- `blpop` with a timeout in whole seconds, which answers with the name and the item
pub record Redis (R : Type 0) : Type 0 where
  pub items : Text → R → List Text
  pub rpush : Text → Text → R → R
  pub blpop : Text → ℕ → R → Option (Text × Text) × R

-- What is relied on of Redis for one list. A timeout of 0 would block for good, and nothing is said of
-- it.
pub record IsLawful {R : Type 0} (client : Redis R) (name : Text) : Type 0 where
  pub items-rpush :
      (item : Text) (r : R)
      → client.items name (client.rpush name item r) ≡ client.items name r ++ (item ∷ [])
  pub blpop_empty :
      (seconds : ℕ) (r : R)
      → 1 ≤ seconds
      → client.items name r ≡ []
      → ((client.blpop name seconds r).0 ≡ none)
        × (client.items name (client.blpop name seconds r).1 ≡ [])
  pub blpop_first :
      (seconds : ℕ) (r : R) (item : Text) (rest : List Text)
      → 1 ≤ seconds
      → client.items name r ≡ item ∷ rest
      → ((client.blpop name seconds r).0 ≡ some (name, item))
        × (client.items name (client.blpop name seconds r).1 ≡ rest)

-- `int(max(timeout_seconds, 1))`
abbrev pub whole_seconds : ℕ → ℕ
whole_seconds timeout_seconds = max timeout_seconds 100 / 100

-- `_, value = result`
abbrev pub value_of : Option (Text × Text) → Option Text
value_of result = map_option (λ (pair : Text × Text). pair.1) result

-- `RedisQueueBackend`
unfoldable pub redis_backend : {R : Type 0} → Redis R → Text → QueueBackend R
redis_backend client queue_name = record {
  enqueue = λ item r. client.rpush queue_name item r;
  dequeue = λ timeout_seconds r.
      let (result, r') = client.blpop queue_name (whole_seconds timeout_seconds) r in
      (value_of result, r');
}

-- `RedisQueueBackend.__init__`, where the package may be missing
unfoldable pub open_redis_backend : {R : Type 0} → Option (Redis R) → Text → Result (QueueBackend R)
unfolding redis_backend
open_redis_backend none queue_name = raised (failure (codes "redis package is not available"))
open_redis_backend (some client) queue_name = ok (redis_backend client queue_name)

-- What the workers ask of a queue.
pub data QueueCall : Type 0 where
  enqueues : Text → QueueCall
  dequeues : ℕ → QueueCall

-- The calls one after another: the answers of those that dequeue, and what the queue is after them.
unfoldable pub run_queue :
    {Q : Type 0} → QueueBackend Q → List QueueCall → Q → List (Option Text) × Q
run_queue b [] q = ([], q)
run_queue b (enqueues item ∷ calls) q = run_queue b calls (b.enqueue item q)
run_queue b (dequeues timeout ∷ calls) q =
    let (item, q₁) = b.dequeue timeout q in
    let (items, q') = run_queue b calls q₁ in (item ∷ items, q')

-- the items of the calls that enqueue
unfoldable pub put_in : List QueueCall → List Text
put_in [] = []
put_in (enqueues item ∷ calls) = item ∷ put_in calls
put_in (dequeues timeout ∷ calls) = put_in calls

-- the items among the answers
unfoldable pub handed_out : List (Option Text) → List Text
handed_out [] = []
handed_out (none ∷ answers) = handed_out answers
handed_out (some item ∷ answers) = item ∷ handed_out answers

-- The items come out in the order in which they went in.
fifo :
    (calls : List QueueCall) (queue : List Text)
    → handed_out (run_queue in_memory_backend calls queue).0
        ++ (run_queue in_memory_backend calls queue).1
      ≡ queue ++ put_in calls
unfolding run_queue in_memory_backend get_within get_first put_in handed_out
fifo [] queue = sym (append-nil queue)
fifo (enqueues item ∷ calls) queue =
    fifo calls (queue ++ (item ∷ [])) ∙ append_assoc queue (item ∷ []) (put_in calls)
fifo (dequeues timeout ∷ calls) [] = elim (Bool-cases (nat_beq timeout 0)) [
  | inl at_once ↦ rw (at_once, handed_out) (fifo calls [])
  | inr waits ↦ rw (waits, handed_out) (fifo calls [])
]
fifo (dequeues timeout ∷ calls) (item ∷ queue) = elim (Bool-cases (nat_beq timeout 0)) [
  | inl at_once ↦ rw (at_once, handed_out) (fifo calls (item ∷ queue))
  | inr waits ↦ rw (waits, handed_out) (ap (λ items. item ∷ items) (fifo calls queue))
]

-- No call is made without time to wait.
abbrev pub GivesTime : List QueueCall → Type 0
GivesTime [] = Unit
GivesTime (enqueues item ∷ calls) = GivesTime calls
GivesTime (dequeues timeout ∷ calls) = (1 ≤ timeout) × GivesTime calls

positive : (n : ℕ) → 1 ≤ n → nat_beq n 0 ≡ false
positive n h = ground arith

get_within-positive :
    (timeout : ℕ) (queue : List Text) → 1 ≤ timeout → get_within timeout queue ≡ get_first queue
unfolding get_within
get_within-positive timeout queue h = rw (positive timeout h)

at_least_a_second : (timeout : ℕ) → 1 ≤ whole_seconds timeout
at_least_a_second timeout = omega arith

module _ {R : Type 0} (client : Redis R) (queue_name : Text)
    (law : IsLawful client queue_name) where
  abbrev after : List QueueCall → R → List (Option Text) × R
  after calls r = run_queue (redis_backend client queue_name) calls r

  -- Redis answers as the queue in memory does and has the items that are in it.
  follows :
      (calls : List QueueCall) (queue : List Text) (r : R)
      → GivesTime calls
      → client.items queue_name r ≡ queue
      → ((after calls r).0 ≡ (run_queue in_memory_backend calls queue).0)
        × (client.items queue_name (after calls r).1 ≡ (run_queue in_memory_backend calls queue).1)
  unfolding run_queue in_memory_backend redis_backend get_first
  follows [] queue r time h = (refl, h)
  follows (enqueues item ∷ calls) queue r time h =
      follows calls (queue ++ (item ∷ [])) (client.rpush queue_name item r) time
        (law.items-rpush item r ∙ ap (λ items. items ++ (item ∷ [])) h)
  follows (dequeues timeout ∷ calls) [] r time h =
      let seconds = whole_seconds timeout in
      let (nothing, left) = law.blpop_empty seconds r (at_least_a_second timeout) h in
      let (answers, rest) = follows calls [] (client.blpop queue_name seconds r).1 time.1 left in
      rw (get_within-positive timeout [] time.0) (cc (nothing, answers), rest)
  follows (dequeues timeout ∷ calls) (item ∷ queue) r time h =
      let seconds = whole_seconds timeout in
      let (first, left) = law.blpop_first seconds r item queue (at_least_a_second timeout) h in
      let (answers, rest) = follows calls queue (client.blpop queue_name seconds r).1 time.1 left in
      rw (get_within-positive timeout (item ∷ queue) time.0) (cc (first, answers), rest)

  -- Under the same calls, each of which gives some time to wait, a queue in Redis whose list is empty
  -- before answers as one in memory. In both, what has been handed out and, behind it, what is still in the queue are the
  -- items that were put in, in their order: none is lost, doubled or overtaken.
  pub run_queue_fifo :
      (calls : List QueueCall) (r : R)
      → GivesTime calls
      → client.items queue_name r ≡ []
      → let memory = run_queue in_memory_backend calls [] in
        let redis = run_queue (redis_backend client queue_name) calls r in
        (redis.0 ≡ memory.0)
        × (handed_out memory.0 ++ memory.1 ≡ put_in calls)
        × (handed_out redis.0 ++ client.items queue_name redis.1 ≡ put_in calls)
  run_queue_fifo calls r time h =
      let (answers, rest) = follows calls [] r time h in
      (answers, fifo calls [], cc (answers, rest, fifo calls []))
