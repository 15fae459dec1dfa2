-- ===== src/Tools/Security/Admission.antt =====
-- On app/tools/security.py: what a URL is that is judged safe.
use ochestrate.Base.{
  ◌≡◌, ◌⊎◌, inl, inr, refl, sym, ap, arith, Bool, true, false, ◌||◌, not, Option, none, some, List,
  [], ◌∷◌, ◌++◌, ◌==◌, any, map, Bool-cases, if◌then◌else◌, text_beq_iff, ◌∙◌, All,
}
use ochestrate.Text.{Text, text_eq, codes, is_empty, ends_with, ends_with-suffix}
use ochestrate.Tools.Hub.{Result, ok}
use ochestrate.Tools.Raising.{◌>>=◌, returned_from}
use ochestrate.Tools.Security.{
  ParsedUrl, IpAddress, Network, WebPolicy, schemes_or_default, is_one_of, is_internal,
  host_or_empty, is_internal_text, resolved_private, is_private_host, is_scheme_allowed, is_below,
  is_host_allowed, is_domain_allowed, is_host_safe, is_url_safe,
}

-- an item of a list
abbrev pub Among {ℓ} : {A : Type ℓ} → (A → Type 0) → List A → Type 0
Among P [] = ⊥
Among P (x ∷ xs) = P x ⊎ Among P xs

pub any-Among {ℓ} :
    {A : Type ℓ} (p : A → Bool) (P : A → Type 0)
    → ((x : A) → p x ≡ true → P x)
    → (xs : List A) → any p xs ≡ true
    → Among P xs
any-Among p P imp [] h = cc
any-Among p P imp (x ∷ xs) h = elim (Bool-cases (p x)) [
  | inl holds ↦ inl (imp x holds)
  | inr fails ↦ inr (any-Among p P imp xs (sym (ap (λ b. b || any p xs) fails) ∙ h))
]

none-All {ℓ} :
    {A : Type ℓ} (p : A → Bool) (P : A → Type 0)
    → ((x : A) → p x ≡ false → P x)
    → (xs : List A) → any p xs ≡ false
    → All P xs
none-All p P imp [] h = tt
none-All p P imp (x ∷ xs) h = elim (Bool-cases (p x)) [
  | inl holds ↦ absurd (ground arith)
  | inr fails ↦ (imp x fails, none-All p P imp xs (sym (ap (λ b. b || any p xs) fails) ∙ h))
]

passes :
    (b : Bool) (m : Result Bool)
    → (if b then m else ok false) ≡ ok true
    → (b ≡ true) × (m ≡ ok true)
passes true m h = (refl, h)
passes false m h = cc

ok_true : (b : Bool) → ok b ≡ ok true → b ≡ true
ok_true true h = refl
ok_true false h = cc

not-true : (b : Bool) → ok (not b) ≡ ok true → b ≡ false
not-true true h = cc
not-true false h = refl

module _ {W : Type 0} (n : Network W) where
  -- The host is the domain, or a name below it; case is that of `lower`.
  abbrev pub Below : Text → Text → Type 0
  Below host d = (host ≡ n.lower d) ⊎ ((p : Text) × (host ≡ p ++ (codes "." ++ n.lower d)))

  is_below-Below : (host d : Text) → is_below n host d ≡ true → Below host d
  unfolding is_below
  is_below-Below host d h = elim (Bool-cases (host == n.lower d)) [
    | inl same ↦ inl ((text_beq_iff host (n.lower d)).0 same)
    | inr other ↦ inr (
        ends_with-suffix (codes "." ++ n.lower d) host
          (sym (ap (λ b. b || ends_with (codes "." ++ n.lower d) host) other) ∙ h))
  ]

  -- The text is an address, and that has none of the properties of an internal one.
  abbrev pub External : Text → Type 0
  External t =
      (ip : IpAddress) × (n.ip_address t ≡ some ip)
      × (ip.is_private ≡ false)
      × (ip.is_loopback ≡ false)
      × (ip.is_link_local ≡ false)
      × (ip.is_reserved ≡ false)
      × (ip.is_multicast ≡ false)

  -- The host is an external address; or it is no address, and is looked up, and each of what is
  -- found is an external address or none.
  abbrev pub Public : Text → W → Type 0
  Public host w =
      External host
      ⊎ ((n.ip_address host ≡ none)
          × ((candidates : List Text) × (n.getaddrinfo host w ≡ ok (some candidates))
              × All (λ c. (n.ip_address c ≡ none) ⊎ External c) candidates))

  not_internal-External :
      (t : Text) (ip : IpAddress) → n.ip_address t ≡ some ip → is_internal ip ≡ false → External t
  not_internal-External t ip found h =
      (ip, found, ground arith, ground arith, ground arith, ground arith, ground arith)

  candidate-External :
      (c : Text) → is_internal_text n c ≡ false → (n.ip_address c ≡ none) ⊎ External c
  unfolding is_internal_text
  candidate-External c h = by_address (n.ip_address c) refl h
    where
      by_address :
          (o : Option IpAddress)
          → n.ip_address c ≡ o
          → (elim o [ none ↦ false | some ip ↦ is_internal ip ]) ≡ false
          → (n.ip_address c ≡ none) ⊎ External c
      by_address none absent e = inl absent
      by_address (some ip) present e = inr (not_internal-External c ip present e)

  resolved-External :
      (found : Option (List Text))
      → resolved_private n found ≡ ok false
      → (candidates : List Text) × (found ≡ some candidates)
        × All (λ c. (n.ip_address c ≡ none) ⊎ External c) candidates
  unfolding resolved_private
  resolved-External none h = cc
  resolved-External (some candidates) h =
      (candidates, refl, none-All (is_internal_text n) _ candidate-External candidates cc)

  is_private_host-Public :
      (host : Text) (w : W) → is_private_host n host w ≡ ok false → Public host w
  unfolding is_private_host
  is_private_host-Public host w h = by_address (n.ip_address host) refl h
    where
      by_address :
          (o : Option IpAddress)
          → n.ip_address host ≡ o
          → (elim o [
            | none ↦ n.getaddrinfo host w >>= resolved_private n
            | some ip ↦ ok (is_internal ip)
          ])
            ≡ ok false
          → Public host w
      by_address none absent e =
          let (found, looked, clear) =
            returned_from (n.getaddrinfo host w) (resolved_private n) e in
          let (candidates, same, external) = resolved-External found clear in
          inr (absent, (candidates, looked ∙ ap (λ o. ok o) same, external))
      by_address (some ip) present e = inl (not_internal-External host ip present cc)

  module _ (policy : WebPolicy) where
    -- the host is one that the allow-list admits
    abbrev pub Listed : Text → Type 0
    Listed host =
        (is_one_of (codes "*") policy.allowed_domains ≡ true)
        ⊎ Among (Below host) policy.allowed_domains

    -- what is so of a URL that may be asked for
    pub record Admitted (url : Text) (w : W) : Type 0 where
      pub parsed : ParsedUrl
      pub is_parsed : n.urlparse url ≡ ok parsed
      pub scheme_listed :
          is_one_of
            (n.lower parsed.scheme)
            (map n.lower (schemes_or_default policy.allowed_schemes))
          ≡ true
      pub host_listed : Listed (n.lower (host_or_empty parsed.hostname))
      pub has_host : is_empty (host_or_empty parsed.hostname) ≡ false
      pub is_public :
          policy.block_private_networks ≡ true → Public (host_or_empty parsed.hostname) w

    is_host_allowed-Listed : (host : Text) → is_host_allowed n policy host ≡ true → Listed host
    unfolding is_host_allowed
    is_host_allowed-Listed host h = elim (Bool-cases (is_empty host)) [
      | inl empty ↦ ground arith
      | inr some_host ↦ elim (Bool-cases (is_one_of (codes "*") policy.allowed_domains)) [
        | inl wild ↦ inl wild
        | inr listed ↦ inr (
            any-Among (is_below n host) (Below host) (is_below-Below host) policy.allowed_domains
              (ground arith))
      ]
    ]

    is_host_safe_blocks :
        (host : Text) (w : W)
        → is_empty host ≡ false
        → policy.block_private_networks ≡ true
        → is_host_safe n policy host w ≡ (is_private_host n host w >>= λ private. ok (not private))
    unfolding is_host_safe
    is_host_safe_blocks host w some_host blocks = rw (some_host, blocks)

    is_host_safe-named :
        (host : Text) (w : W) → is_host_safe n policy host w ≡ ok true → is_empty host ≡ false
    unfolding is_host_safe
    is_host_safe-named host w h = ground arith

    is_host_safe-Public :
        (host : Text) (w : W)
        → is_host_safe n policy host w ≡ ok true
        → policy.block_private_networks ≡ true
        → Public host w
    is_host_safe-Public host w h blocks =
        let some_host = is_host_safe-named host w h in
        let (private, looked, e) =
          returned_from (is_private_host n host w) (λ private. ok (not private))
            (sym (is_host_safe_blocks host w some_host blocks) ∙ h) in
        is_private_host-Public host w (looked ∙ ap (λ b. ok b) (not-true private e))

    is_domain_allowed_parsed :
        (url : Text) (parsed : ParsedUrl)
        → n.urlparse url ≡ ok parsed
        → is_domain_allowed n policy url ≡ (
            if is_scheme_allowed n policy parsed
            then ok (is_host_allowed n policy (n.lower (host_or_empty parsed.hostname)))
            else ok false)
    unfolding is_domain_allowed
    is_domain_allowed_parsed url parsed is_parsed = rw (is_parsed)

    is_domain_allowed-host :
        (url : Text) (parsed : ParsedUrl)
        → n.urlparse url ≡ ok parsed
        → is_domain_allowed n policy url ≡ ok true
        → is_host_allowed n policy (n.lower (host_or_empty parsed.hostname)) ≡ true
    is_domain_allowed-host url parsed is_parsed d =
        ok_true (is_host_allowed n policy (n.lower (host_or_empty parsed.hostname)))
          (passes (is_scheme_allowed n policy parsed)
            (ok (is_host_allowed n policy (n.lower (host_or_empty parsed.hostname))))
            (sym (is_domain_allowed_parsed url parsed is_parsed) ∙ d)).1

    -- A URL that is judged safe parses, to a scheme that is allowed and a host that is one of the
    -- allowed domains or lies below one, or any where all domains are allowed; and where private
    -- networks are blocked, the host is an address that is not internal, or it is a name that
    -- resolves, and nothing that it resolves to is an internal address.
    pub is_url_safe-Admitted :
        (url : Text) (w : W) → is_url_safe n policy url w ≡ ok true → Admitted url w
    unfolding is_url_safe is_domain_allowed is_scheme_allowed
    is_url_safe-Admitted url w h =
        let (parsed, is_parsed, e) = returned_from (n.urlparse url) _ h in
        let (scheme, e') = passes (is_scheme_allowed n policy parsed) _ e in
        let (allowed, d, e'') = returned_from (is_domain_allowed n policy url) _ e' in
        let (is_allowed, safe) = passes allowed _ e'' in
        let host = host_or_empty parsed.hostname in
        record {
          parsed = parsed;
          is_parsed = is_parsed;
          scheme_listed = scheme;
          host_listed =
              is_host_allowed-Listed (n.lower host)
                (is_domain_allowed-host url parsed is_parsed (d ∙ ap (λ b. ok b) is_allowed));
          has_host = is_host_safe-named host w safe;
          is_public = is_host_safe-Public host w safe;
        }
