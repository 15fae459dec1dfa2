-- ===== src/Api/Streams.antt =====
-- `stream_task_status` of app/api/v1/tasks.py: the frames that a client gets of the snapshots that a
-- subscription yields, each with whether the client is gone by then.
use ochestrate.Base.{◌≡◌, refl, ap, map, All, Bool, true, false, List, [], ◌∷◌, ◌++◌, if◌then◌else◌}
use ochestrate.Text.{Text, text_eq, codes}
use ochestrate.Schemas.{TaskStatus, TaskStatusResponse, queued, running, completed, failed}
use ochestrate.Tasks.Manager.{Manager, Codec}
use ochestrate.Tasks.Repository.{get}
use ochestrate.Auth.Service.Data.{AuthContext}
use ochestrate.Api.{forbidden, Response, returned, refused, task_tenant_access}

-- `_format_sse`
unfoldable pub format_sse : Text → Text → Text
format_sse event payload =
    codes "event: " ++ (event ++ (codes "\ndata: " ++ (payload ++ codes "\n\n")))

-- `current.status in {"completed", "failed"}`
abbrev pub is_over : TaskStatus → Bool
is_over queued = false
is_over running = false
is_over completed = true
is_over failed = true

-- the generator `event_stream`
unfoldable pub event_stream :
    (TaskStatusResponse → Text) → List (Bool × TaskStatusResponse) → List Text
unfolding format_sse
event_stream dump [] = []
event_stream dump ((gone, current) ∷ rest) =
    let later = event_stream dump rest in
    if gone
    then []
    else (format_sse (codes "task_status") (dump current)
        ∷ (if is_over current.status then [] else later))

module _ {Json : Type 0} (codec : Codec Json) where
  -- `stream_task_status`
  unfoldable pub stream_task_status :
      (TaskStatusResponse → Text)
      → Text
      → AuthContext
      → List (Bool × TaskStatusResponse)
      → Manager Json
      → Response (List Text)
  unfolding event_stream
  stream_task_status dump task_id auth snapshots m =
      if task_tenant_access codec auth (get task_id m.repo)
      then returned (event_stream dump snapshots)
      else refused (forbidden (codes "cross-tenant task access denied"))

-- Snapshots that end nothing, for a client that is there.
abbrev pub Waiting : List (Bool × TaskStatusResponse) → Type 0
Waiting snapshots = All (λ s. (s.0 ≡ false) × (is_over s.1.status ≡ false)) snapshots

-- A client that stays gets a frame for each snapshot up to the first that is finished, and none after.
pub event_stream-Waiting :
    (dump : TaskStatusResponse → Text) (snapshots : List (Bool × TaskStatusResponse))
    (current : TaskStatusResponse) (rest : List (Bool × TaskStatusResponse))
    → Waiting snapshots
    → is_over current.status ≡ true
    → event_stream dump (snapshots ++ ((false, current) ∷ rest))
      ≡ map
          (λ s. format_sse (codes "task_status") (dump s.1))
          (snapshots ++ ((false, current) ∷ []))
unfolding event_stream
event_stream-Waiting dump [] current rest waiting over = rw (over) refl
event_stream-Waiting dump ((gone, snapshot) ∷ snapshots) current rest waiting over =
    rw (waiting.0.0, waiting.0.1)
      (ap (λ frames. format_sse (codes "task_status") (dump snapshot) ∷ frames)
        (event_stream-Waiting dump snapshots current rest waiting.1 over))
