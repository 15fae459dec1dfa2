-- ===== src/Tasks/Steps.antt =====
-- On app/workers/task_worker.py: each operation of the task manager keeps the invariant, so every
-- state that it reaches by any interleaving of its coroutines has it.
use mathlib.Core.Path.{subst, subst₂}
use ochestrate.Base.{
  Bool, true, false, ◌||◌, Option, none, some, List, [], ◌∷◌, ◌++◌, ◌≡◌, ◌≢◌, ◌∙◌, ap, refl, sym,
  arith, ◌==◌, if◌then◌else◌,
}
use ochestrate.Text.{Text, text_eq}
use ochestrate.Dict.{lookup, lookup-insert}
use ochestrate.Schemas.{UnifiedRequest, TaskStatus, running, completed, failed}
use ochestrate.Tasks.Repository.{
  TaskRecord, create, update_item, update_found, get, get-update_status, is_recoverable,
}
use ochestrate.Tasks.Manager.{
  Manager, TaskEnvelope, Codec, Outcome, response, exception, submit, publish_status, take_next,
  mark_running, settle, execute_known, execute_current, stop,
}
use ochestrate.Tasks.Invariant.{
  has, is_current, IsSound, IsConsistent, update_status-IsFiled, create-IsFiled,
}

pub has-append : (j id : Text) (q : List Text) → has j (q ++ id ∷ []) ≡ (has j q || id == j)
has-append j id [] = ground arith
has-append j id (x ∷ q) = ground (arith, has-append j id q)

module _ {Json : Type 0} (codec : Codec Json) where
  submit-IsSound :
      (alive c q same : Bool) (e : Option TaskEnvelope) (r : Option (TaskRecord Json))
      (e' : TaskEnvelope) (r' : TaskRecord Json)
      → is_recoverable e'.status ≡ true
      → is_recoverable r'.status ≡ true
      → IsSound alive c q e r
      → IsSound alive c (q || same) (if same then some e' else e) (if same then some r' else r)
  submit-IsSound alive c q true e r e' r' he hr h = ground arith
  submit-IsSound alive c q false e r e' r' he hr h = ground arith

  -- A submitted task is in memory, in the repository and in the queue.
  pub submit-IsConsistent :
      (id : Text) (request : UnifiedRequest) (m : Manager Json)
      → codec.load_request (codec.dump_request request) ≢ none
      → IsConsistent codec m
      → IsConsistent codec (submit codec id request m)
  unfolding submit publish_status
  submit-IsConsistent id request m trip h = record {
    filed = create-IsFiled codec _ m.repo trip h.filed;
    sound = λ j.
        rw (has-append, lookup-insert)
          (unfold create in
            rw lookup-insert (submit-IsSound m.alive _ _ (id == j) _ _ _ _ refl refl (h.sound j)));
  }

  mark-IsSound :
      (alive same q : Bool) (e : Option TaskEnvelope) (r : Option (TaskRecord Json))
      (e' : TaskEnvelope)
      → (same ≡ true → e ≡ some e')
      → IsSound alive false (same || q) e r
      → IsSound alive same q
          (if same then some (record e' { status = running }) else e)
          (if same then update_found running none none none r else r)
  unfolding update_item
  mark-IsSound alive true q e none e' k h = ground (arith, k refl)
  mark-IsSound alive true q e (some item) e' k h = ground (arith, k refl)
  mark-IsSound alive false q e r e' k h = ground arith

  skip-IsSound :
      (alive same q : Bool) (e : Option TaskEnvelope) (r : Option (TaskRecord Json))
      → (same ≡ true → e ≡ none)
      → IsSound alive false (same || q) e r
      → IsSound alive false q e r
  skip-IsSound alive true q e r k h = ground (arith, k refl)
  skip-IsSound alive false q e r k h = ground arith

  at_turn :
      (j id : Text) (rest : List Text) (m : Manager Json)
      → m.queue ≡ id ∷ rest
      → m.current ≡ none
      → IsConsistent codec m
      → IsSound m.alive false (id == j || has j rest) (lookup j m.tasks) (get j m.repo)
  at_turn j id rest m eq idle h =
      subst₂ (λ c q. IsSound m.alive (is_current j c) (has j q) (lookup j m.tasks) (get j m.repo))
        idle eq (h.sound j)

  found_same :
      (j id : Text) (o : Option TaskEnvelope) (m : Manager Json)
      → lookup id m.tasks ≡ o
      → (id == j) ≡ true
      → lookup j m.tasks ≡ o
  found_same j id o m found same =
      ap (λ k. lookup k m.tasks) (sym ((text_eq.beq_iff id j).0 same)) ∙ found

  mark_running-IsConsistent :
      (id : Text) (rest : List Text) (o : Option TaskEnvelope) (m : Manager Json)
      → m.queue ≡ id ∷ rest
      → m.current ≡ none
      → lookup id m.tasks ≡ o
      → IsConsistent codec m
      → IsConsistent codec (mark_running codec id o (record m { queue = rest }))
  unfolding mark_running publish_status
  mark_running-IsConsistent id rest none m eq idle found h = record {
    filed = h.filed;
    sound = λ j.
        subst (λ c. IsSound m.alive (is_current j c) (has j rest) (lookup j m.tasks) (get j m.repo))
          (sym idle)
          (skip-IsSound m.alive (id == j) (has j rest) _ _ (found_same j id none m found)
            (at_turn j id rest m eq idle h));
  }
  mark_running-IsConsistent id rest (some envelope) m eq idle found h = record {
    filed = update_status-IsFiled codec id running none none none m.repo h.filed;
    sound = λ j.
        rw (lookup-insert, get-update_status)
          (mark-IsSound m.alive (id == j) (has j rest) _ _ envelope
            (found_same j id (some envelope) m found) (at_turn j id rest m eq idle h));
  }

  -- The first half of a turn, by a worker that executes nothing.
  pub take_next-IsConsistent :
      (queue : List Text) (m : Manager Json)
      → m.queue ≡ queue
      → m.current ≡ none
      → IsConsistent codec m
      → IsConsistent codec (take_next codec queue m)
  unfolding take_next
  take_next-IsConsistent [] m eq idle h = h
  take_next-IsConsistent (id ∷ rest) m eq idle h =
      mark_running-IsConsistent id rest (lookup id m.tasks) m eq idle refl h

  settle-IsSound :
      (alive same q : Bool) (e : Option TaskEnvelope) (r : Option (TaskRecord Json))
      (e' : TaskEnvelope) (s : TaskStatus) (t : Option Text) (j : Option Json) (x : Option Text)
      → is_recoverable e'.status ≡ false
      → is_recoverable s ≡ false
      → IsSound alive same q e r
      → IsSound alive false q
          (if same then some e' else e)
          (if same then update_found s t j x r else r)
  unfolding update_item
  settle-IsSound alive true q e none e' s t j x he hs h = ground arith
  settle-IsSound alive true q e (some item) e' s t j x he hs h = ground arith
  settle-IsSound alive false q e r e' s t j x he hs h = ground arith

  settle-IsConsistent :
      (id : Text) (o : Outcome) (e : TaskEnvelope) (m : Manager Json)
      → m.current ≡ some id
      → IsConsistent codec m
      → IsConsistent codec (settle codec id e o m)
  unfolding settle publish_status
  settle-IsConsistent id (response v) e m busy h = record {
    filed = update_status-IsFiled codec id completed _ _ _ m.repo h.filed;
    sound = λ j.
        rw (lookup-insert, get-update_status)
          (settle-IsSound m.alive (id == j) _ _ _ _ _ _ _ _ refl refl (rw busy at (h.sound j)));
  }
  settle-IsConsistent id (exception text) e m busy h = record {
    filed = update_status-IsFiled codec id failed _ _ _ m.repo h.filed;
    sound = λ j.
        rw (lookup-insert, get-update_status)
          (settle-IsSound m.alive (id == j) _ _ _ _ _ _ _ _ refl refl (rw busy at (h.sound j)));
  }

  execute_known-IsConsistent :
      (run : UnifiedRequest → Outcome) (id : Text) (o : Option TaskEnvelope) (m : Manager Json)
      → m.current ≡ some id
      → IsConsistent codec m
      → IsConsistent codec (execute_known codec run id o m)
  unfolding execute_known
  execute_known-IsConsistent run id none m busy h = h
  execute_known-IsConsistent run id (some e) m busy h =
      settle-IsConsistent id (run e.request) e m busy h

  -- The second half of a turn.
  pub execute_current-IsConsistent :
      (run : UnifiedRequest → Outcome) (o : Option Text) (m : Manager Json)
      → m.current ≡ o
      → IsConsistent codec m
      → IsConsistent codec (execute_current codec run o m)
  unfolding execute_current
  execute_current-IsConsistent run none m idle h = h
  execute_current-IsConsistent run (some id) m busy h =
      execute_known-IsConsistent run id (lookup id m.tasks) m busy h

  stop-IsSound :
      (alive c q : Bool) (e : Option TaskEnvelope) (r : Option (TaskRecord Json))
      → IsSound alive c q e r
      → IsSound false false q e r
  stop-IsSound alive c q e r h = ground arith

  pub stop-IsConsistent :
      (m : Manager Json) → IsConsistent codec m → IsConsistent codec (stop codec m)
  unfolding stop
  stop-IsConsistent m h = record {
    filed = h.filed;
    sound = λ j. stop-IsSound m.alive _ _ _ _ (h.sound j);
  }
