-- ===== src/Tasks/Recovery.antt =====
-- On app/workers/task_worker.py: what `start` does for the tasks that an earlier run left
-- unfinished.
use mathlib.Core.Path.{subst}
use ochestrate.Base.{
  Bool, true, false, ◌||◌, ◌&&◌, Option, none, some, List, [], ◌∷◌, ◌≡◌, ◌≢◌, ◌∙◌, ap, refl, sym,
  arith, ◌==◌, inl, inr, Bool-cases, if◌then◌else◌, All, any, keep, All-keep, All-keep_sub,
  All-both,
}
use ochestrate.Text.{Text, text_eq}
use ochestrate.Dict.{lookup, values, lookup-insert}
use ochestrate.Dict.Laws.{entries_found, All-values}
use ochestrate.Schemas.{UnifiedRequest}
use ochestrate.Tasks.Repository.{
  TaskRecord, Repository, list_recoverable_tasks, get, is_recoverable,
}
use ochestrate.Tasks.Manager.{Manager, TaskEnvelope, Codec, loaded, requeue, recover, start}
use ochestrate.Tasks.Invariant.{has, recoverable, IsSound, IsEntry, IsFiled, IsConsistent}
use ochestrate.Tasks.Steps.{has-append}

module _ {Json : Type 0} (codec : Codec Json) where
  -- The record is the one that the repository has under its identifier, and is unfinished.
  abbrev Pending : Repository Json → TaskRecord Json → Type 0
  Pending repo item = (get item.task_id repo ≡ some item) × (is_recoverable item.status ≡ true)

  requeue-IsSound :
      (alive c q same : Bool) (e : Option TaskEnvelope) (r : Option (TaskRecord Json))
      (e' : TaskEnvelope) (item : TaskRecord Json)
      → (same ≡ true → r ≡ some item)
      → is_recoverable item.status ≡ true
      → is_recoverable e'.status ≡ true
      → IsSound alive c q e r
      → IsSound alive c (q || same) (if same then some e' else e) r
  requeue-IsSound alive c q true e r e' item k hi he h = ground (arith, k refl)
  requeue-IsSound alive c q false e r e' item k hi he h = ground arith

  requeue-IsConsistent :
      (item : TaskRecord Json) (o : Option UnifiedRequest) (m : Manager Json)
      → Pending m.repo item
      → IsConsistent codec m
      → IsConsistent codec (requeue codec item o m)
  unfolding requeue
  requeue-IsConsistent item none m p h = h
  requeue-IsConsistent item (some request) m p h = record {
    filed = h.filed;
    sound = λ j.
        rw (has-append, lookup-insert)
          (requeue-IsSound m.alive _ _ (item.task_id == j) _ _ _ item
            (λ same. ap (λ k. get k m.repo) (sym ((text_eq.beq_iff item.task_id j).0 same)) ∙ p.0)
            p.1 refl (h.sound j));
  }

  repo-requeue :
      (item : TaskRecord Json) (o : Option UnifiedRequest) (m : Manager Json)
      → (requeue codec item o m).repo ≡ m.repo
  unfolding requeue
  repo-requeue item none m = refl
  repo-requeue item (some request) m = refl

  recover-IsConsistent :
      (items : List (TaskRecord Json)) (m : Manager Json)
      → All (Pending m.repo) items
      → IsConsistent codec m
      → IsConsistent codec (recover codec items m)
  unfolding recover
  recover-IsConsistent [] m ps h = h
  recover-IsConsistent (item ∷ items) m ps h =
      recover-IsConsistent items (requeue codec item (loaded codec item.request_json) m)
        (subst (λ repo. All (Pending repo) items)
          (sym (repo-requeue item (loaded codec item.request_json) m)) ps.1)
        (requeue-IsConsistent item (loaded codec item.request_json) m ps.0 h)

  recoverable_Pending :
      (repo : Repository Json)
      → IsFiled codec repo
      → All (Pending repo) (list_recoverable_tasks repo)
  unfolding list_recoverable_tasks
  recoverable_Pending repo h =
      All-both (λ item. get item.task_id repo ≡ some item)
        (λ item. is_recoverable item.status ≡ true) _
        (All-keep_sub (λ item. get item.task_id repo ≡ some item)
          (λ item. is_recoverable item.status) (values repo)
          (All-values (λ item. get item.task_id repo ≡ some item) repo
            (λ p both. ap (λ k. get k repo) both.1.own_key ∙ both.0)
            (All-both (λ p. get p.0 repo ≡ some p.1) (IsEntry codec) repo
              (entries_found repo h.distinct) h.entries)))
        (All-keep (λ item. is_recoverable item.status) (values repo))

  abbrev readable : Option UnifiedRequest → Bool
  readable none = false
  readable (some request) = true

  -- one of the records is that task's, and its request can be read
  abbrev lists : Text → List (TaskRecord Json) → Bool
  lists j items = any (λ item. item.task_id == j && readable (loaded codec item.request_json)) items

  has-requeue :
      (j : Text) (item : TaskRecord Json) (o : Option UnifiedRequest) (m : Manager Json)
      → has j (requeue codec item o m).queue ≡ (has j m.queue || (item.task_id == j && readable o))
  unfolding requeue
  has-requeue j item none m = ground arith
  has-requeue j item (some request) m = rw has-append (ground arith)

  has-recover :
      (j : Text) (items : List (TaskRecord Json)) (m : Manager Json)
      → has j (recover codec items m).queue ≡ (has j m.queue || lists j items)
  unfolding recover
  has-recover j [] m = ground arith
  has-recover j (item ∷ items) m =
      has-recover j items (requeue codec item (loaded codec item.request_json) m)
      ∙ rw (has-requeue) (ground arith)

  readable_of_entry : (o : Option UnifiedRequest) → o ≢ none → readable o ≡ true
  readable_of_entry none h = absurd (h refl)
  readable_of_entry (some request) h = refl

  own_listed :
      (j k : Text) (item : TaskRecord Json)
      → IsEntry codec (k, item)
      → (k == j) ≡ true
      → (item.task_id == j && readable (loaded codec item.request_json)) ≡ true
  own_listed j k item h same =
      rw (h.own_key, same, readable_of_entry (loaded codec item.request_json) h.readable)

  lists-keep :
      (j : Text) (item : TaskRecord Json) (rest : List (TaskRecord Json))
      → lists j (keep (λ x. is_recoverable x.status) rest) ≡ true
      → lists j (keep (λ x. is_recoverable x.status) (item ∷ rest)) ≡ true
  lists-keep j item rest h = elim (Bool-cases (is_recoverable item.status)) [
    | inl open' ↦ rw (open', keep) (ground (arith, h))
    | inr done ↦ rw (done, keep) h
  ]

  -- An unfinished record of the repository is among those that are recovered.
  lists-recoverable :
      (j : Text) (repo : Repository Json) {found_item : TaskRecord Json}
      → All (IsEntry codec) repo
      → get j repo ≡ some found_item
      → is_recoverable found_item.status ≡ true
      → lists j (keep (λ x. is_recoverable x.status) (values repo)) ≡ true
  unfolding values lookup
  lists-recoverable j [] h found r = cc
  lists-recoverable j ((k, item) ∷ repo) {found_item} h found r = elim (Bool-cases (k == j)) [
    | inl same ↦
        let e : item ≡ found_item = cc (rw (same, lookup) at found) in
        rw (ap (λ x. is_recoverable x.status) e ∙ r, keep)
          (ground (arith, own_listed j k item h.0 same))
    | inr other ↦
        lists-keep j item (values repo)
          (lists-recoverable j repo h.1 (rw (other, lookup) at found) r)
  ]

  repo-recover :
      (items : List (TaskRecord Json)) (m : Manager Json) → (recover codec items m).repo ≡ m.repo
  unfolding recover
  repo-recover [] m = refl
  repo-recover (item ∷ items) m =
      repo-recover items (requeue codec item (loaded codec item.request_json) m)
      ∙ repo-requeue item (loaded codec item.request_json) m

  -- After the recovery every unfinished task of the repository is in the queue.
  recover_queues :
      (j : Text) (o : Option (TaskRecord Json)) (m : Manager Json)
      → IsFiled codec m.repo
      → get j m.repo ≡ o
      → recoverable o ≡ true
      → has j (recover codec (list_recoverable_tasks m.repo) m).queue ≡ true
  unfolding list_recoverable_tasks
  recover_queues j none m h found r = cc
  recover_queues j (some item) m h found r =
      has-recover j (keep (λ x. is_recoverable x.status) (values m.repo)) m
      ∙ ground (arith, lists-recoverable j m.repo h.entries found r)

  live-IsSound :
      (alive c q : Bool) (e : Option TaskEnvelope) (r : Option (TaskRecord Json))
      → (recoverable r ≡ true → q ≡ true)
      → IsSound alive c q e r
      → IsSound true c q e r
  live-IsSound alive c q e r k h = record {
    known = h.known;
    saved = h.saved;
    agree = h.agree;
    pending = λ _ open'. ground (arith, k open');
    executing = h.executing;
  }

  abbrev recovered : Manager Json → Manager Json
  recovered m = recover codec (list_recoverable_tasks m.repo) m

  recovered-IsConsistent :
      (m : Manager Json) → IsConsistent codec m → IsConsistent codec (recovered m)
  recovered-IsConsistent m h =
      recover-IsConsistent (list_recoverable_tasks m.repo) m (recoverable_Pending m.repo h.filed) h

  live-IsConsistent :
      (m : Manager Json)
      → IsConsistent codec m
      → IsConsistent codec (record (recovered m) { alive = true })
  live-IsConsistent m h =
      let r = recovered-IsConsistent m h in
      record {
        filed = r.filed;
        sound = λ j.
            live-IsSound (recovered m).alive _ _ _ _
              (recover_queues j (get j (recovered m).repo) m h.filed
                (ap (get j) (sym (repo-recover (list_recoverable_tasks m.repo) m))))
              (r.sound j);
      }

  start_by :
      (up : Bool) (m : Manager Json)
      → IsConsistent codec m
      → IsConsistent codec (if up then m else record (recovered m) { alive = true })
  start_by true m h = h
  start_by false m h = live-IsConsistent m h

  pub start-IsConsistent :
      (m : Manager Json) → IsConsistent codec m → IsConsistent codec (start codec m)
  unfolding start
  start-IsConsistent m h = start_by m.alive m h
