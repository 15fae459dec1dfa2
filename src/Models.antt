-- ===== src/Models.antt =====
-- app/models: the choice of a provider by rules, and the generation with its fallback. The clients
-- are functions; `none` is an exception of one. A provider's entry of the YAML file is a record.
pub mod Loading
mod Tests
use ochestrate.Base.{
  ℕ, ◌≡◌, ◌↔◌, refl, arith, Bool, true, false, ◌&&◌, Option, none, some, List, [], ◌∷◌, ◌++◌, ◌==◌,
  if◌then◌else◌, take, inl, inr, ◌⊎◌, Option-cases,
}
use ochestrate.Text.{Text, text_eq, codes}
use ochestrate.Dict.{Dict, lookup}

pub record ModelConfig : Type 0 where
  pub name : Text
  pub timeout_seconds : ℕ
  pub max_tokens : ℕ
  pub provider : Text

pub record RoutedModel : Type 0 where
  pub provider : Text
  pub config : ModelConfig

pub record ModelRouteRule : Type 0 where
  pub task_type : Text
  pub sensitivity : Text
  pub provider : Text

-- an entry of `provider_configs`
pub record ProviderConfig : Type 0 where
  pub model : Option Text
  pub timeout_seconds : Option ℕ
  pub max_tokens : Option ℕ

abbrev pub Client : Type 0
Client = Text → ModelConfig → Option Text

pub record ModelRouter : Type 0 where
  pub default_provider : Text
  pub provider_configs : Dict Text ProviderConfig
  pub rules : List ModelRouteRule
  pub fallback_order : List Text
  pub clients : Dict Text Client

-- `LocalModelClient.generate`
abbrev pub local_generate : Client
local_generate prompt config =
    some (codes "[local:" ++ (config.name ++ (codes "] " ++ take config.max_tokens prompt)))

-- `CloudModelClient.generate`
abbrev pub cloud_generate : Client
cloud_generate prompt config =
    some (codes "[cloud:" ++ (config.name ++ (codes "] " ++ take config.max_tokens prompt)))

-- the clients that the constructor makes
abbrev pub built_in_clients : Dict Text Client
built_in_clients = (codes "local", local_generate) ∷ (codes "cloud", cloud_generate) ∷ []

-- `cfg.get(key, default)`
abbrev pub get_or {ℓ} : {A : Type ℓ} → Option A → A → A
get_or none default = default
get_or (some a) default = a

abbrev pub no_config : ProviderConfig
no_config = record { model = none; timeout_seconds = none; max_tokens = none }

unfoldable pub config_of : Text → ProviderConfig → RoutedModel
config_of provider cfg = record {
  provider = provider;
  config = record {
    name = get_or cfg.model (codes "unknown-model");
    timeout_seconds = get_or cfg.timeout_seconds 20;
    max_tokens = get_or cfg.max_tokens 1024;
    provider = provider;
  };
}

-- `ModelRouter._make_routed`
unfoldable pub make_routed : Text → ModelRouter → RoutedModel
unfolding config_of
make_routed provider m = config_of provider (get_or (lookup provider m.provider_configs) no_config)

abbrev pub matches : Text → Text → ModelRouteRule → Bool
matches task_type sensitivity rule =
    rule.task_type == task_type && (rule.sensitivity == sensitivity)

-- the provider of the first rule that matches, or the default
unfoldable pub provider_for : Text → Text → Text → List ModelRouteRule → Text
provider_for task_type sensitivity default_provider [] = default_provider
provider_for task_type sensitivity default_provider (rule ∷ rules) =
    if matches task_type sensitivity rule
    then rule.provider
    else provider_for task_type sensitivity default_provider rules

-- `ModelRouter.route`
unfoldable pub route : Text → Text → ModelRouter → RoutedModel
unfolding provider_for
route task_type sensitivity m =
    make_routed (provider_for task_type sensitivity m.default_provider m.rules) m

-- what a provider answers: nothing where it has no client, or where its client raises
unfoldable pub answer_of : Text → Text → ModelRouter → Option Text
answer_of prompt provider m = elim (lookup provider m.clients) [
  | none ↦ none
  | some client ↦ client prompt (make_routed provider m).config
]

-- the loop over `fallback_order`, and the prompt where nobody answers
unfoldable pub fall_back : Text → List Text → ModelRouter → Text × Bool
unfolding answer_of
fall_back prompt [] m = (prompt, true)
fall_back prompt (provider ∷ providers) m =
    let rest = fall_back prompt providers m in
    elim (answer_of prompt provider m) [ none ↦ rest | some text ↦ (text, true) ]

unfoldable pub answer_or_fall_back : Text → Option Text → ModelRouter → Text × Bool
answer_or_fall_back prompt (some text) m = (text, false)
answer_or_fall_back prompt none m = fall_back prompt m.fallback_order m

unfoldable pub generate_with : Text → RoutedModel → Option Client → ModelRouter → Text × Bool
unfolding answer_or_fall_back fall_back
generate_with prompt routed none m = (prompt, true)
generate_with prompt routed (some client) m =
    answer_or_fall_back prompt (client prompt routed.config) m

-- `ModelRouter.generate`
unfoldable pub generate : Text → Text → Text → ModelRouter → Text × Bool
unfolding generate_with
generate prompt task_type sensitivity m =
    let routed = route task_type sensitivity m in
    generate_with prompt routed (lookup routed.provider m.clients) m

-- What comes out of a generation: the routed provider's answer, unflagged; or flagged, the prompt
-- itself or the answer of a provider of the fallback order.
pub data Generation (prompt : Text) (routed : Text) (m : ModelRouter) : Text × Bool → Type 0 where
  answered :
      (text : Text)
      → answer_of prompt routed m ≡ some text
      → Generation prompt routed m (text, false)
  echoed : Generation prompt routed m (prompt, true)
  fell_back :
      (provider text : Text)
      → answer_of prompt provider m ≡ some text
      → Generation prompt routed m (text, true)

module _ (prompt : Text) (routed : Text) (m : ModelRouter) where
  fall_back-Generation :
      (providers : List Text) → Generation prompt routed m (fall_back prompt providers m)
  unfolding fall_back
  fall_back-Generation [] = echoed
  fall_back-Generation (provider ∷ providers) = elim (Option-cases (answer_of prompt provider m)) [
    | inl silent ↦ rw (silent, fall_back) (fall_back-Generation providers)
    | inr (text, spoke) ↦ rw (spoke, fall_back) (fell_back provider text spoke)
  ]

  answer_or_fall_back-Generation :
      (o : Option Text)
      → answer_of prompt routed m ≡ o
      → Generation prompt routed m (answer_or_fall_back prompt o m)
  unfolding answer_or_fall_back
  answer_or_fall_back-Generation none e = fall_back-Generation m.fallback_order
  answer_or_fall_back-Generation (some text) e = answered text e

  generate_with-Generation :
      (o : Option Client)
      → lookup routed m.clients ≡ o
      → Generation prompt routed m (generate_with prompt (make_routed routed m) o m)
  unfolding generate_with make_routed config_of
  generate_with-Generation none e = echoed
  generate_with-Generation (some client) e =
      answer_or_fall_back-Generation (client prompt (make_routed routed m).config)
        (rw (e, answer_of) refl)

-- A generation ends unflagged with the answer of the routed provider, or flagged with the answer
-- of some provider or with the prompt itself.
generate-Generation :
    (prompt task_type sensitivity : Text) (m : ModelRouter)
    → Generation prompt
        (provider_for task_type sensitivity m.default_provider m.rules)
        m
        (generate prompt task_type sensitivity m)
unfolding generate route make_routed config_of
generate-Generation prompt task_type sensitivity m =
    let routed = provider_for task_type sensitivity m.default_provider m.rules in
    generate_with-Generation prompt routed m (lookup routed m.clients) refl
