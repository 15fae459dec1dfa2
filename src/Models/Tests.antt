-- ===== src/Models/Tests.antt =====
-- On app/models: a router whose cloud client is down.
use ochestrate.Base.{none, [], ◌∷◌}
use ochestrate.Text.{codes}
use ochestrate.Models.{ModelRouter, local_generate}

abbrev router : ModelRouter
router = record {
  default_provider = codes "cloud";
  provider_configs = [];
  rules =
      record { task_type = codes "qa"; sensitivity = codes "high"; provider = codes "local" } ∷ [];
  fallback_order = codes "local" ∷ [];
  clients = (codes "local", local_generate) ∷ (codes "cloud", λ prompt config. none) ∷ [];
}
