-- ===== src/Api/Agent.antt =====
-- app/api/v1: agent.py, feedback.py, knowledge.py and webhook.py, for a request that has passed
-- `require_auth_context`.
mod Tests
use ochestrate.Base.{ℕ, Option, none, some, List, [], ◌∷◌, ◌++◌, length, ◌≡◌, arith}
use ochestrate.Text.{Text, codes}
use ochestrate.Schemas.{Value, Params, UnifiedRequest, UnifiedResponse}
use ochestrate.Prompts.{SkillContextItem}
use ochestrate.Memory.{read_short}
use ochestrate.Memory.Sessions.{NoColon}
use ochestrate.Rag.{KnowledgeStore, ingest_text, add_chunks}
use ochestrate.Tools.Values.{fields_of}
use ochestrate.Tools.Hub.{AuditEvent}
use ochestrate.Learning.{FeedbackRequest, FeedbackStats, Pipeline, submit_feedback, process_batch}
use ochestrate.Auth.Service.Data.{AuthContext}
use ochestrate.Orchestration
use ochestrate.Orchestration.Data.{Runtime, Orchestrator, State, or_blank}
use ochestrate.Orchestration.{run}
use ochestrate.Orchestration.StateGraph.{LangGraph}
use ochestrate.Orchestration.Effects.{run-read_short_ne}
use ochestrate.Api.{bind_unified_request_auth}

pub record IngestTextRequest : Type 0 where
  pub tenant_id : Option Text
  pub source_id : Text
  pub text : Text

-- `bind_feedback_auth`
unfoldable pub bind_feedback_auth : FeedbackRequest → AuthContext → FeedbackRequest
bind_feedback_auth request auth = record request {
  tenant_id = some auth.tenant_id;
  user_id = some auth.user_id;
}

-- `bind_ingest_auth`
unfoldable pub bind_ingest_auth : IngestTextRequest → AuthContext → IngestTextRequest
bind_ingest_auth request auth = record request { tenant_id = some auth.tenant_id }

-- `submit_feedback`
unfoldable pub post_feedback :
    FeedbackRequest → AuthContext → Pipeline → Option FeedbackStats × Pipeline
unfolding bind_feedback_auth
post_feedback request auth p = process_batch (submit_feedback (bind_feedback_auth request auth) p)

-- `tool_callback`, with the identifier of the audit event
unfoldable pub tool_callback : Text → Params → AuthContext → List AuditEvent → List AuditEvent
tool_callback event_id payload auth audit =
    audit
    ++ record {
      event_id = event_id;
      event_type = codes "webhook.tool_callback";
      payload =
          (codes "tenant_id", Value.str auth.tenant_id)
          ∷ (codes "user_id", Value.str auth.user_id)
          ∷ (codes "role", Value.str auth.role)
          ∷ (codes "payload", Value.obj (fields_of payload))
          ∷ [];
    }
      ∷ []

module _ (md5 : Text → Text) (show_int : ℕ → Text) where
  -- `ingest_text`, whose chunks have the size that the pipeline was made with
  unfoldable pub post_text :
      Option (Text → List Text)
      → ℕ
      → IngestTextRequest
      → AuthContext
      → KnowledgeStore
      → ℕ × KnowledgeStore
  unfolding bind_ingest_auth
  post_text splitter chunk_size payload auth store =
      let scoped = bind_ingest_auth payload auth in
      let chunks =
        ingest_text md5 show_int splitter (or_blank scoped.tenant_id) scoped.source_id scoped.text
          chunk_size in
      (length chunks, add_chunks chunks store)

module _ (rt : Runtime) {W : Type 0} (uuid : ℕ → Text) (now : ℕ)
    (skills : List SkillContextItem) where
  -- `run_agent`
  unfoldable pub run_agent :
      Option (LangGraph (State × Orchestrator W))
      → UnifiedRequest
      → AuthContext
      → Orchestrator W
      → UnifiedResponse × Orchestrator W
  unfolding bind_unified_request_auth
  run_agent graph request auth o =
      run rt uuid now skills graph (bind_unified_request_auth request auth) o

  -- Whatever tenant, user and session a request names, it runs in the session of its token: without
  -- LangGraph, and for identifiers of users and sessions without colons, the turns of every other
  -- session are afterwards what they were.
  pub run_agent-read_short :
      (request : UnifiedRequest) (auth : AuthContext) (o : Orchestrator W) (t u s : Text)
      → NoColon auth.user_id
      → NoColon auth.session_id
      → NoColon u
      → NoColon s
      → ¬ ((auth.tenant_id ≡ t) × (auth.user_id ≡ u) × (auth.session_id ≡ s))
      → read_short t u s (run_agent none request auth o).1.memory ≡ read_short t u s o.memory
  unfolding run_agent bind_unified_request_auth
  run_agent-read_short request auth o t u s hu hs hu' hs' ne =
      run-read_short_ne rt uuid now skills (bind_unified_request_auth request auth) o t u s hu hs
        hu' hs' ne
