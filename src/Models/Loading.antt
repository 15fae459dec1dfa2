-- ===== src/Models/Loading.antt =====
-- `ModelRouter.from_file` of app/models/router.py. What the YAML library reads is a record with the keys
-- of the file, each of which may be missing.
use ochestrate.Base.{Option, List, [], ◌∷◌}
use ochestrate.Text.{Text, codes}
use ochestrate.Dict.{Dict}
use ochestrate.Tools.Hub.{Result, ok, raised, failure}
use ochestrate.Models.{ProviderConfig, ModelRouteRule, ModelRouter, built_in_clients, get_or}

pub record RoutingFile : Type 0 where
  pub rules : Option (List ModelRouteRule)
  pub default_provider : Option Text
  pub providers : Option (Dict Text ProviderConfig)
  pub fallback_order : Option (List Text)

-- What `config_path` leads to: an empty document is read as `None`.
pub data RoutingSource : Type 0 where
  missing_file empty_document : RoutingSource
  routing_keys : RoutingFile → RoutingSource

-- `ModelRouter.from_file`
unfoldable pub from_file : RoutingSource → Result ModelRouter
from_file missing_file = raised (failure (codes "No such file or directory"))
from_file empty_document = raised (failure (codes "'NoneType' object has no attribute 'get'"))
from_file (routing_keys raw) = ok (record {
  default_provider = get_or raw.default_provider (codes "cloud");
  provider_configs = get_or raw.providers [];
  rules = get_or raw.rules [];
  fallback_order = get_or raw.fallback_order (codes "cloud" ∷ []);
  clients = built_in_clients;
})
