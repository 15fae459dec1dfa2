-- ===== src/Tasks/Drain.antt =====
-- On app/workers/task_worker.py: the worker empties its queue: as many turns as the queue is long
-- finish every task.
use ochestrate.Base.{
  ℕ, zero, suc, Bool, true, false, Option, none, some, List, [], ◌∷◌, ◌≡◌, ◌∙◌, ap, refl, arith,
  ◌⊎◌, length,
}
use ochestrate.Text.{Text, text_eq}
use ochestrate.Dict.{lookup, beq_refl}
use ochestrate.Schemas.{UnifiedRequest}
use ochestrate.Tasks.Repository.{TaskRecord, get, is_recoverable}
use ochestrate.Tasks.Manager.{Manager, TaskEnvelope, Codec, Outcome}
use ochestrate.Tasks.Invariant.{has, is_current, in_memory, IsConsistent}
use ochestrate.Tasks.Lifecycle.{turn, turn_advances}
use ochestrate.Tasks.Reachable.{
  fresh-IsConsistent, begun, finished, Reach, next, fresh, Reads, Reach-IsConsistent,
  no_task_is_lost,
}

module _ {Json : Type 0} (codec : Codec Json) (run : UnifiedRequest → Outcome) where
  -- `n` turns of the worker with nothing submitted meanwhile
  pub turns : ℕ → Manager Json → Manager Json
  turns zero m = m
  turns (suc n) m = turns n (turn codec run m)

  -- The worker lives and waits for the queue.
  pub record IsIdle (m : Manager Json) : Type 0 where
    pub lives : m.alive ≡ true
    pub waits : m.current ≡ none

  head_known :
      (id : Text) (rest : List Text) (m : Manager Json)
      → m.queue ≡ id ∷ rest
      → IsConsistent codec m
      → in_memory (lookup id m.tasks) ≡ true
  head_known id rest m eq h = (h.sound id).known (ap (has id) eq ∙ ground (arith, beq_refl id))

  envelope_of : (o : Option TaskEnvelope) → in_memory o ≡ true → (e : TaskEnvelope) × (o ≡ some e)
  envelope_of none h = cc
  envelope_of (some e) h = (e, refl)

  -- One turn leaves the worker idle again, with the rest of the queue.
  turn-IsIdle :
      (id : Text) (rest : List Text) (m : Manager Json)
      → m.queue ≡ id ∷ rest
      → IsConsistent codec m
      → IsIdle m
      → IsIdle (turn codec run m) × ((turn codec run m).queue ≡ rest)
  turn-IsIdle id rest m eq h idle =
      let (e, known) = envelope_of (lookup id m.tasks) (head_known id rest m eq h) in
      let (q, c, a) = turn_advances codec run m id rest e eq known in
      (record { lives = a ∙ idle.lives; waits = c }, q)

  turns_empty :
      (queue : List Text) (m m₀ : Manager Json)
      → Reads codec
      → m.queue ≡ queue
      → Reach codec m₀ m
      → IsConsistent codec m₀
      → IsIdle m
      → Reach codec m₀ (turns (length queue) m)
        × IsIdle (turns (length queue) m)
        × ((turns (length queue) m).queue ≡ [])
  unfolding turns
  turns_empty [] m m₀ reads eq r h idle = (r, idle, eq)
  turns_empty (id ∷ rest) m m₀ reads eq r h idle =
      let (idle', q) = turn-IsIdle id rest m eq (Reach-IsConsistent codec reads r h) idle in
      turns_empty rest (turn codec run m) m₀ reads q
        (next (next r (begun idle.lives idle.waits)) (finished run)) h idle'

  not_both :
      (b : Bool) {q c : Bool}
      → (b ≡ true → (q ≡ true) ⊎ (c ≡ true))
      → q ≡ false
      → c ≡ false
      → b ≡ false
  not_both b h eq ec = ground (arith, h)

  -- From every state reached from an empty repository in which the worker lives and waits, where
  -- the codec reads back each request: as many turns as the queue is long leave the queue empty
  -- and every task of the repository completed or failed.
  pub turns_finish_tasks :
      (m : Manager Json)
      → Reads codec
      → Reach codec (fresh codec []) m
      → IsIdle m
      → ((turns (length m.queue) m).queue ≡ [])
        × ((id : Text) (item : TaskRecord Json)
            → get id (turns (length m.queue) m).repo ≡ some item
            → is_recoverable item.status ≡ false)
  turns_finish_tasks m reads r idle =
      let (r', idle', q) =
        turns_empty m.queue m (fresh codec []) reads refl r
          (fresh-IsConsistent codec [] (record { distinct = tt; entries = tt })) idle in
      (
        q,
        λ id item found.
            not_both (is_recoverable item.status)
              (no_task_is_lost codec (turns (length m.queue) m) id item reads r' idle'.lives found)
              (ap (has id) q) (ap (is_current id) idle'.waits),
      )
