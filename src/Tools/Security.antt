-- ===== src/Tools/Security.antt =====
-- app/tools/security.py: which URLs the tools may ask for. `urlparse`, `ipaddress.ip_address`,
-- `socket.getaddrinfo` and `str.lower` are fields of `Network`; what a name resolves to depends on
-- the world.
pub mod Admission
use ochestrate.Base.{
  ℕ, Bool, true, false, ◌&&◌, ◌||◌, not, Option, none, some, List, [], ◌∷◌, ◌++◌, ◌==◌, any, map,
  if◌then◌else◌,
}
use ochestrate.Text.{Text, text_eq, codes, is_empty, ends_with}
use ochestrate.Tools.Hub.{Result, ok, raised}
use ochestrate.Tools.Raising.{◌>>=◌}

-- what `urlparse` returns, with `hostname` being None where there is no host
pub record ParsedUrl : Type 0 where
  pub scheme : Text
  pub netloc : Text
  pub hostname : Option Text
  pub path : Text
  pub query : Text

pub record IpAddress : Type 0 where
  pub is_private : Bool
  pub is_loopback : Bool
  pub is_link_local : Bool
  pub is_reserved : Bool
  pub is_multicast : Bool

-- The modules of Python: `urlparse` may raise, `ip_address` has none for a text that is no address,
-- and `getaddrinfo` has none where it raises `gaierror`, and may raise another exception.
pub record Network (W : Type 0) : Type 0 where
  pub lower : Text → Text
  pub urlparse : Text → Result ParsedUrl
  pub ip_address : Text → Option IpAddress
  pub getaddrinfo : Text → W → Result (Option (List Text))

-- the fields of `ToolSecurityConfig` that are about the network
pub record WebPolicy : Type 0 where
  pub allowed_domains : List Text
  pub allowed_schemes : Option (List Text)
  pub block_private_networks : Bool
  pub max_fetch_chars : ℕ
  pub max_redirects : ℕ
  pub search_provider : Text
  pub search_result_limit : ℕ

-- `self.allowed_schemes or ["https", "http"]`
abbrev pub schemes_or_default : Option (List Text) → List Text
schemes_or_default none = codes "https" ∷ codes "http" ∷ []
schemes_or_default (some []) = codes "https" ∷ codes "http" ∷ []
schemes_or_default (some (s ∷ ss)) = s ∷ ss

abbrev pub is_one_of : Text → List Text → Bool
is_one_of t ts = any (λ s. s == t) ts

-- one of the properties of an address that keep it from being asked
abbrev pub is_internal : IpAddress → Bool
is_internal ip =
    ip.is_private || ip.is_loopback || ip.is_link_local || ip.is_reserved || ip.is_multicast

-- `parsed.hostname or ""`
abbrev pub host_or_empty : Option Text → Text
host_or_empty none = []
host_or_empty (some h) = h

module _ {W : Type 0} (n : Network W) where
  unfoldable pub is_internal_text : Text → Bool
  is_internal_text candidate = elim (n.ip_address candidate) [
    | none ↦ false
    | some ip ↦ is_internal ip
  ]

  unfoldable pub resolved_private : Option (List Text) → Result Bool
  resolved_private none = ok true
  resolved_private (some candidates) = ok (any is_internal_text candidates)

  -- `ToolSecurityConfig._is_private_host`
  unfoldable pub is_private_host : Text → W → Result Bool
  is_private_host host w = elim (n.ip_address host) [
    | none ↦ n.getaddrinfo host w >>= resolved_private
    | some ip ↦ ok (is_internal ip)
  ]

  -- the host as `is_domain_allowed` looks at it, below one of the domains
  unfoldable pub is_below : Text → Text → Bool
  is_below host d = (host == n.lower d) || ends_with (codes "." ++ n.lower d) host

  module _ (policy : WebPolicy) where
    unfoldable pub is_scheme_allowed : ParsedUrl → Bool
    is_scheme_allowed parsed =
        is_one_of (n.lower parsed.scheme) (map n.lower (schemes_or_default policy.allowed_schemes))

    unfoldable pub is_host_allowed : Text → Bool
    unfolding is_below
    is_host_allowed host =
        if is_empty host
        then false
        else if is_one_of (codes "*") policy.allowed_domains
        then true
        else any (is_below host) policy.allowed_domains

    -- `ToolSecurityConfig.is_domain_allowed`
    unfoldable pub is_domain_allowed : Text → Result Bool
    unfolding is_scheme_allowed is_host_allowed
    is_domain_allowed url = do
      parsed ← n.urlparse url
      if is_scheme_allowed parsed
          then ok (is_host_allowed (n.lower (host_or_empty parsed.hostname)))
          else ok false

    -- the tests of `is_url_safe` behind the domain
    unfoldable pub is_host_safe : Text → W → Result Bool
    is_host_safe host w =
        if is_empty host
        then ok false
        else if policy.block_private_networks
        then (is_private_host host w >>= λ private. ok (not private))
        else ok true

    -- `ToolSecurityConfig.is_url_safe`
    unfoldable pub is_url_safe : Text → W → Result Bool
    unfolding is_host_safe
    is_url_safe url w = do
      parsed ← n.urlparse url
      if is_scheme_allowed parsed
          then (is_domain_allowed url >>= λ allowed.
              if allowed then is_host_safe (host_or_empty parsed.hostname) w else ok false)
          else ok false
