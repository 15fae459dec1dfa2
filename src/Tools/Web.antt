-- ===== src/Tools/Web.antt =====
-- app/tools/web_tools.py: `WebFetchTool`. requests, BeautifulSoup, `urljoin` and the interpreter's
-- `str` and `int` are the fields of `Library`; every request acts on the world. A body that was
-- read once is not read again.
pub mod Search
pub mod Hops
mod Tests
use ochestrate.Base.{
  ℕ, zero, suc, ◌*◌, Bool, true, false, ◌&&◌, not, Option, none, some, List, [], ◌∷◌, any, length,
  take, ltb, if◌then◌else◌,
}
use ochestrate.Text.{Text, text_eq, codes, is_empty, strip, contains}
use ochestrate.Dict.{Dict, lookup}
use ochestrate.Schemas.{Value, Params}
use ochestrate.Tools.Hub.{Tool, Result, ok, raised, permission, failure}
use ochestrate.Tools.Values.{ℤ, exceeds, text_or_empty}
use ochestrate.Tools.Raising
use ochestrate.Tools.Acting.{Act, ◌>>=◌, looks, give, raise}
use ochestrate.Tools.Security.{Network, WebPolicy, is_url_safe}

-- `requests.Response`; the names of headers are in lower case
pub record Response : Type 0 where
  pub url : Text
  pub status_code : ℕ
  pub headers : Dict Text Text
  pub is_redirect : Bool

pub record Library (W : Type 0) : Type 0 where
  -- `session.get`, which follows no redirect, and `requests.get`, which does
  pub get : Text → Act W Response
  pub get_following : Text → Act W Response
  -- `resp.text`, which reads the body
  pub text : Response → Act W Text
  -- `resp._content = text.encode(resp.encoding or "utf-8")`
  pub set_content : Text → Response → Result Response
  pub urljoin : Text → Text → Result Text
  pub int : Text → Option ℤ
  pub show_value : Value → Text
  -- `soup.title`, none where there is none, with its `string`; and `soup.get_text`
  pub html_title : Text → Option (Option Text)
  pub html_text : Text → Text

-- `response.headers.get(name) or ""`
abbrev pub header_or_empty : Text → Response → Text
header_or_empty name resp = elim (lookup name resp.headers) [ none ↦ [] | some v ↦ v ]

-- the location of a response that redirects and has one
unfoldable pub redirect_target : Response → Option Text
redirect_target resp =
    let location = header_or_empty (codes "location") resp in
    if not (is_empty location) && resp.is_redirect then some location else none

abbrev pub accepted_types : List Text
accepted_types = codes "text" ∷ codes "json" ∷ codes "xml" ∷ codes "html" ∷ codes "markdown" ∷ []

-- `(soup.title.string or "").strip() if soup.title else ""`
abbrev pub title_text : Option (Option Text) → Text
title_text none = []
title_text (some none) = []
title_text (some (some t)) = strip t

module _ {W : Type 0} (n : Network W) (l : Library W) (policy : WebPolicy) where
  unfoldable pub check_length : Text → Result (Unit {0})
  check_length content_length =
      if is_empty content_length then ok tt else (elim (l.int content_length) [
        | none ↦ raised (failure (codes "invalid literal for int"))
        | some z ↦
            if exceeds z (policy.max_fetch_chars * 4)
            then raised (failure (codes "response body is too large"))
            else ok tt
      ])

  -- `WebFetchTool._validate_content_headers`
  unfoldable pub validate_content_headers : Response → Result (Unit {0})
  unfolding check_length
  validate_content_headers resp =
      let content_type = n.lower (header_or_empty (codes "content-type") resp) in
      if any (λ x. contains x content_type) accepted_types
      then check_length (header_or_empty (codes "content-length") resp)
      else raised (failure (codes "unsupported content type"))

  unfoldable pub cut_content : Text → Response → Result Response
  cut_content text resp =
      if ltb policy.max_fetch_chars (length text)
      then l.set_content (take policy.max_fetch_chars text) resp
      else ok resp

  -- what `_safe_get` does with a response that is no redirect
  unfoldable pub land : Response → Act W Response
  unfolding validate_content_headers cut_content
  land resp = do
    _ ← looks (λ w. validate_content_headers resp)
    text ← l.text resp
    looks (λ w. cut_content text resp)

  unfoldable pub judge : Text → Bool → Result Text
  judge next_url safe =
      if safe then ok next_url else raised (permission (codes "redirect target is not allowed"))

  -- the target of a redirect, once it is judged safe
  unfoldable pub next_hop : Text → Text → W → Result Text
  next_hop current location w =
      Raising.◌>>=◌ (l.urljoin current location)
        (λ next_url. Raising.◌>>=◌ (is_url_safe n policy next_url w) (judge next_url))

  -- `WebFetchTool._safe_get` within a number of requests
  unfoldable pub safe_get : ℕ → Text → Act W Response
  safe_get zero current w = (raised (failure (codes "too many redirects")), w)
  safe_get (suc k) current w =
      ((l.get current) >>= λ resp. elim (redirect_target resp) [
        | none ↦ land resp
        | some location ↦ looks (next_hop current location) >>= λ next_url. safe_get k next_url
      ])
        w

  -- the title and the text of a body
  unfoldable pub readable : Text → Text → Result (Text × Text)
  readable content_type body =
      if contains (codes "html") content_type
      then ok (title_text (l.html_title body), l.html_text body)
      else if contains (codes "json") content_type
      then ok ([], body)
      else if not (contains (codes "text") content_type)
      then raised (failure (codes "unsupported content type"))
      else ok ([], body)

  unfoldable pub fetched : Response → Text → Text × Text → Params
  fetched resp content_type (title, body) =
      (codes "url", Value.str resp.url)
      ∷ (codes "status_code", Value.num resp.status_code)
      ∷ (codes "content_type", Value.str content_type)
      ∷ (codes "title", Value.str title)
      ∷ (codes "text", Value.str (take policy.max_fetch_chars body))
      ∷ []

  unfoldable pub fetch_safe : Text → Act W Params
  unfolding readable fetched
  fetch_safe url = do
    resp ← safe_get (suc policy.max_redirects) url
    let content_type = n.lower (header_or_empty (codes "content-type") resp)
    body ← l.text resp
    parts ← looks (λ w. readable content_type body)
    give (fetched resp content_type parts)

  -- `WebFetchTool.run`
  unfoldable pub fetch : Params → Act W Params
  fetch params =
      let url = strip (text_or_empty l.show_value (lookup (codes "url") params)) in
      if is_empty url
      then raise (failure (codes "url is required"))
      else (looks (is_url_safe n policy url) >>= λ safe.
          if safe then fetch_safe url else raise (permission (codes "domain is not allowed")))

  -- `WebFetchTool`
  abbrev pub web_fetch_tool : Tool W
  web_fetch_tool = record {
    name = codes "web_fetch_tool";
    description = codes "Fetch URL content with domain allow-list and content-type controls.";
    required_roles = codes "employee" ∷ codes "manager" ∷ codes "admin" ∷ [];
    idempotent = true;
    run = fetch;
  }
