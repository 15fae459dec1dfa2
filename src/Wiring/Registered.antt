-- ===== src/Wiring/Registered.antt =====
-- On app/core/dependencies.py: the container has every tool that a plan names, and falls back to
-- memory only outside production.
use mathlib.Core.Path.{subst}
use ochestrate.Base.{
  ◌≡◌, ◌≢◌, refl, sym, ap, ◌∙◌, inl, inr, Bool, true, Option, none, some, List, [], ◌∷◌, ◌==◌, All,
  All-imp, text_beq, text_beq_iff, if◌then◌else◌, Bool-cases, ℕ,
}
use ochestrate.Text.{Text, text_eq, codes, strip}
use ochestrate.Dict.{has_key, lookup, insert}
use ochestrate.Schemas.{UnifiedRequest}
use ochestrate.Tools.Hub.{Result, ok, raised, ToolError, failure, ToolHub, register}
use ochestrate.Tools.Security.Admission.{Among, any-Among}
use ochestrate.Agents.Planner.{Step, validate_permissions, respond, tool, plan}
use ochestrate.Agents.Planner.Shape.{known_tools, IsAction, IsPlan, guarded, answered, plan-IsPlan}
use ochestrate.Wiring.{
  Settings, in_memory_queue, redis_queue, or_default, is_prod_env, build_mysql_engine,
  is_redis_reachable, client_or_fall_back, build_queue_backend, Toolbox, register_tools,
}

of_all :
    {A : Type 0} (P : A → Type 0) (x : A) (xs : List A) → Among (λ u. u ≡ x) xs → All P xs → P x
of_all P x [] among all = absurd among
of_all P x (y ∷ ys) (inl same) all = subst P same all.0
of_all P x (y ∷ ys) (inr rest) all = of_all P x ys rest all.1

abbrev none_of : (E : Type 0) → Option E
none_of E = none

raised_ok {ℓ} : {A : Type ℓ} {a : A} {e : ToolError} → raised e ≡ ok a → ⊥
raised_ok h = cc

redis_memory : ok redis_queue ≡ ok in_memory_queue → ⊥
redis_memory h = cc

some-none {ℓ} : {A : Type ℓ} {a : A} → ok (some a) ≡ ok none → ⊥
some-none h = cc

-- a step whose tool the hub has
abbrev pub IsRunnable : {W : Type 0} → ToolHub W → Step → Type 0
IsRunnable h validate_permissions = Unit
IsRunnable h (respond instruction) = Unit
IsRunnable h (tool tool_name params) = has_key tool_name h.registry ≡ true

module _ {W : Type 0} (t : Toolbox W) (h : ToolHub W) (empty : h.registry ≡ []) where
  tools_there : All (λ u. has_key u (register_tools t h).registry ≡ true) known_tools
  unfolding register_tools register has_key lookup insert text_beq
  tools_there = rw (empty) (refl, (refl, (refl, (refl, (refl, (refl, tt))))))

  action-IsRunnable : (s : Step) → IsAction s → IsRunnable (register_tools t h) s
  action-IsRunnable validate_permissions a = tt
  action-IsRunnable (respond instruction) a = tt
  action-IsRunnable (tool tool_name params) a =
      of_all (λ u. has_key u (register_tools t h).registry ≡ true) tool_name known_tools
        (any-Among (λ u. u == tool_name) (λ u. u ≡ tool_name)
          (λ u e. (text_beq_iff u tool_name).0 e) known_tools a)
        tools_there

  planned-IsRunnable : (ss : List Step) → IsPlan ss → All (IsRunnable (register_tools t h)) ss
  planned-IsRunnable ss (guarded s rest actions) =
      (tt, All-imp (s ∷ rest) action-IsRunnable actions)
  planned-IsRunnable ss (answered instruction) = (tt, tt)

  -- Every step of every plan that needs a tool needs one that the container registers, in a hub
  -- that has none before.
  pub plan-IsRunnable :
      (lower : Text → Text) (request : UnifiedRequest)
      → All (IsRunnable (register_tools t h)) (plan lower request)
  plan-IsRunnable lower request =
      planned-IsRunnable (plan lower request) (plan-IsPlan lower request)

abbrev engine_error : ToolError
engine_error = failure (codes "mysql unavailable in prod")

abbrev client_error : ToolError
client_error = failure (codes "redis backend init failed in prod")

abbrev redis_error : ToolError
redis_error = failure (codes "redis backend required in prod but redis is unreachable")

module _ (lower : Text → Text) (settings : Settings)
    (prod : is_prod_env lower settings ≡ true) where
  engine-no_fall_back :
      {E : Type 0} (probe : Result E) → build_mysql_engine lower settings probe ≡ ok none → ⊥
  unfolding build_mysql_engine
  engine-no_fall_back (ok engine) h = some-none h
  engine-no_fall_back {E} (raised e) h =
      raised_ok (sym (ap (λ b. if b then raised engine_error else ok (none_of E)) prod) ∙ h)

  client-no_fall_back :
      (client : Result (Unit {0}))
      → client_or_fall_back lower settings client ≡ ok in_memory_queue
      → ⊥
  unfolding client_or_fall_back
  client-no_fall_back (ok done) h = redis_memory h
  client-no_fall_back (raised e) h =
      raised_ok (sym (ap (λ b. if b then raised client_error else ok in_memory_queue) prod) ∙ h)

  -- In production, construction does not go on without the services: MySQL is never replaced by the
  -- memory, and where Redis is asked for as the queue, it is not replaced by a queue in memory.
  pub prod-no_fall_back :
      {E : Type 0} (probe : Result E) (connects : Text → ℕ → Bool) (client : Result (Unit {0}))
      → (lower (strip (or_default (codes "memory") settings.task_queue_backend)) == codes "redis")
        ≡ true
      → (build_mysql_engine lower settings probe ≢ ok none)
        × (build_queue_backend lower settings connects client ≢ ok in_memory_queue)
  unfolding build_queue_backend
  prod-no_fall_back probe connects client asks = (
    engine-no_fall_back probe,
    λ h. elim (Bool-cases (is_redis_reachable lower settings connects)) [
      | inl reachable ↦ client-no_fall_back client (sym (rw (asks, reachable) refl) ∙ h)
      | inr unreachable ↦ raised_ok {e = redis_error} (sym (rw (asks, unreachable, prod) refl) ∙ h)
    ],
  )
