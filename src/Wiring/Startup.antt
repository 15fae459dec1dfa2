-- ===== src/Wiring/Startup.antt =====
-- On `ServiceContainer.__init__` of app/core/dependencies.py: what a container has that has been built in
-- production.
use mathlib.Core.Path.{subst}
use ochestrate.Base.{
  ◌≡◌, ◌≢◌, refl, sym, ap, ◌∙◌, inl, inr, true, Option, none, some, ◌==◌, All, Bool-cases,
}
use ochestrate.Text.{text_eq, codes, strip}
use ochestrate.Schemas.{UnifiedRequest}
use ochestrate.Tools.Hub.{Result, ok, raised}
use ochestrate.Tools.Raising.{returned_from}
use ochestrate.Agents.Planner.{plan}
use ochestrate.Models.Loading
use ochestrate.Wiring.{
  QueueBackend, in_memory_queue, redis_queue, or_default, is_prod_env, build_mysql_engine,
  build_queue_backend,
}
use ochestrate.Wiring.Config.{AppSettings}
use ochestrate.Wiring.Registered.{IsRunnable, plan-IsRunnable, prod-no_fall_back}
use ochestrate.Wiring.Container.{
  Surroundings, Container, choices, toolbox, security, bare_hub, build_orchestrator, container_of,
  construct,
}

ok_inj : {A : Type 0} {a b : A} → ok a ≡ ok b → a ≡ b
ok_inj h = cc

not_in_memory : (q : QueueBackend) → q ≢ in_memory_queue → q ≡ redis_queue
not_in_memory in_memory_queue h = absurd (h refl)
not_in_memory redis_queue h = refl

-- All that is kept in the database stands on the engine of MySQL.
pub record StandsOn {W E : Type 0} (engine : E) (c : Container W E) : Type 0 where
  pub mysql : c.mysql_engine ≡ some engine
  pub tasks : c.task_repository ≡ some engine
  pub audit : c.audit_sink ≡ some engine
  pub users : c.auth_repository ≡ some engine
  pub feedback : c.feedback_repository ≡ some engine
  pub knowledge : c.knowledge_repository ≡ some engine

module _ {W E : Type 0} (s : Surroundings W E) (settings : AppSettings) (w : W) where
  engine_found :
      (probe : Result E) (o : Option E)
      → build_mysql_engine s.lower (choices s.host_and_port settings) probe ≢ ok none
      → build_mysql_engine s.lower (choices s.host_and_port settings) probe ≡ ok o
      → (engine : E) × (probe ≡ ok engine) × (o ≡ some engine)
  unfolding build_mysql_engine
  engine_found (ok engine) o no_fall_back h = (engine, refl, sym (ok_inj h))
  engine_found (raised e) none no_fall_back h = absurd (no_fall_back h)
  engine_found (raised e) (some engine) no_fall_back h =
      absurd (elim (Bool-cases (is_prod_env s.lower (choices s.host_and_port settings))) [
        | inl prod ↦ cc (rw (prod) at h)
        | inr other ↦ cc (rw (other) at h)
      ])

  -- Whenever a container has been built in production with Redis as its queue: the probe of MySQL has
  -- succeeded, and every repository and the audit stand on its engine; the queue is that of Redis;
  -- and each tool of each plan is registered in the hub that the orchestrator works with.
  pub construct-StandsOn :
      (c : Container W E) (request : UnifiedRequest)
      → is_prod_env s.lower (choices s.host_and_port settings) ≡ true
      → (s.lower (strip (or_default (codes "memory") (some settings.task_queue_backend)))
          == codes "redis")
        ≡ true
      → construct s settings w ≡ ok c
      → ((engine : E) × (s.connect_mysql settings.mysql_dsn ≡ ok engine) × StandsOn engine c)
        × (c.queue_backend ≡ redis_queue)
        × All (IsRunnable c.orchestrator.hub) (plan s.lower request)
  unfolding construct container_of build_orchestrator
  construct-StandsOn c request prod asks h =
      let routed = Loading.from_file (s.read_routing settings.model_routing_path w) in
      let queued =
        build_queue_backend s.lower (choices s.host_and_port settings) s.connects
          (s.redis_client settings.redis_url settings.redis_queue_name) in
      let (engine, has_engine, h₁) = returned_from _ _ h in
      let (router, has_router, h₂) = returned_from routed _ h₁ in
      let (queue, has_queue, h₃) = returned_from queued _ h₂ in
      let (mysql, redis) =
        prod-no_fall_back s.lower (choices s.host_and_port settings) prod
          (s.connect_mysql settings.mysql_dsn) s.connects
          (s.redis_client settings.redis_url settings.redis_queue_name) asks in
      let (found, connected, is_found) = engine_found _ engine mysql has_engine in
      let built : container_of s settings w engine router queue ≡ c = ok_inj h₃ in
      (
        (
          found,
          connected,
          subst (StandsOn found) built (record {
            mysql = is_found;
            tasks = is_found;
            audit = is_found;
            users = is_found;
            feedback = is_found;
            knowledge = is_found;
          }),
        ),
        sym (ap (λ (x : Container W E). x.queue_backend) built)
            ∙ not_in_memory queue (λ e. redis (has_queue ∙ ap (λ q. ok q) e)),
        subst (λ (x : Container W E). All (IsRunnable x.orchestrator.hub) (plan s.lower request))
            built
            (plan-IsRunnable (toolbox s settings w (security s settings w)) (bare_hub s settings w)
              refl s.lower request),
      )
