-- ===== src/Tools/Web/Tests.antt =====
-- Runs of the web tools on a network that notes the URLs that are asked for: `intern.example`
-- resolves to an internal address, and `go.example` redirects to where its path says.
use ochestrate.Base.{
  ◌≡◌, refl, ◌⊎◌, Bool, true, false, Option, none, some, List, [], ◌∷◌, ◌++◌, ◌==◌, text_beq, drop,
  if◌then◌else◌,
}
use ochestrate.Text.{Text, text_eq, codes, contains, starts_with, ends_with, strip}
use ochestrate.Dict.{lookup}
use ochestrate.Schemas.{Value}
use ochestrate.Tools.Hub.{Result, ok}
use ochestrate.Tools.Values.{given_or, text_of, int_of_value, pos}
use ochestrate.Tools.Security.{
  Network, ParsedUrl, WebPolicy, IpAddress, is_url_safe, is_domain_allowed, is_private_host,
  resolved_private, is_internal_text,
}
use ochestrate.Tools.Security.Admission.{Admitted, is_url_safe-Admitted}
use ochestrate.Tools.Web.{
  Library, Response, fetch, safe_get, fetch_safe, judge, next_hop, judge, redirect_target,
}
use ochestrate.Tools.Web.Hops.{Session, fetch-Session, Fetches}
use ochestrate.Tools.Web.Search.{Page, search, search_url, query_of}
use ochestrate.Tools.Web.Search.Results.{search-Fetches}

-- URLs of the shape `https://host/…`, of which the host is what these tests tell apart
parse : Text → Result ParsedUrl
parse url = ok (record {
  scheme = codes "https";
  netloc = host_of url;
  hostname = some (host_of url);
  path = [];
  query = [];
})
  where
    host_of : Text → Text
    host_of u =
        if starts_with (codes "https://intern.") u
        then codes "intern.example"
        else if starts_with (codes "https://go.") u
        then codes "go.example"
        else codes "docs.example"

address : Text → Option IpAddress
address t =
    if starts_with (codes "10.") t
    then some (ip true)
    else if starts_with (codes "93.") t
    then some (ip false)
    else none
  where
    ip : Bool → IpAddress
    ip b = record {
      is_private = b;
      is_loopback = false;
      is_link_local = false;
      is_reserved = false;
      is_multicast = false;
    }

abbrev network : Network (List Text)
network = record {
  lower = λ t. t;
  urlparse = parse;
  ip_address = address;
  getaddrinfo = λ host w.
      ok (
        some
          ((if host == codes "intern.example" then codes "10.0.0.1" else codes "93.1.1.1") ∷ []));
}

abbrev answer : Text → Response
answer url = record {
  url = url;
  status_code = if starts_with (codes "https://go") url then 302 else 200;
  headers =
      if starts_with (codes "https://go") url
      then (codes "location", drop 19 url) ∷ []
      else (codes "content-type", codes "text/plain") ∷ [];
  is_redirect = starts_with (codes "https://go") url;
}

abbrev library : Library (List Text)
library = record {
  get = λ url w. (ok (answer url), w ++ url ∷ []);
  get_following = λ url w. (ok (answer url), w ++ url ∷ []);
  text = λ resp w. (ok (codes "body"), w);
  set_content = λ text resp. ok resp;
  urljoin = λ current location. ok location;
  int = λ t. none;
  show_value = λ v. [];
  html_title = λ t. none;
  html_text = λ t. t;
}

abbrev page : Page
page = record {
  select_results = λ t.
      record {
        anchor = some (record { href = some (codes "https://docs.example/a"); text = codes "A" });
        snippet = none;
      }
      ∷ [];
  quote_plus = λ t. t;
  unquote = λ t. t;
}

abbrev policy : WebPolicy
policy = record {
  allowed_domains = codes "example" ∷ [];
  allowed_schemes = none;
  block_private_networks = true;
  max_fetch_chars = 8000;
  max_redirects = 3;
  search_provider = codes "duckduckgo";
  search_result_limit = 5;
}

-- A redirect to an internal host is not followed.
internal_redirect :
    (fetch network library policy
      ((codes "url", Value.str (codes "https://go.example/https://intern.example/")) ∷ [])
      []).1
    ≡ codes "https://go.example/https://intern.example/" ∷ []
unfolding fetch safe_get fetch_safe next_hop judge redirect_target lookup text_beq is_url_safe
    is_domain_allowed is_private_host resolved_private is_internal_text ends_with contains
    starts_with parse address text_of strip
internal_redirect = refl

docs_safe : is_url_safe network policy (codes "https://docs.example/") [] ≡ ok true
unfolding is_url_safe is_domain_allowed is_private_host resolved_private is_internal_text ends_with
    contains starts_with parse address text_beq
docs_safe = refl

is_url_safe-Admitted_example : Admitted network policy (codes "https://docs.example/") []
is_url_safe-Admitted_example =
    is_url_safe-Admitted network policy (codes "https://docs.example/") [] docs_safe

abbrev fetch_params : List (Text × Value)
fetch_params = (codes "url", Value.str (codes "https://go.example/https://docs.example/")) ∷ []

fetch-Session_example :
    Session network library policy 4 [] ((fetch network library policy fetch_params []).1)
fetch-Session_example = fetch-Session network library policy fetch_params []

abbrev search_params : List (Text × Value)
search_params = (codes "query", Value.str (codes "a")) ∷ (codes "max_results", Value.num 1) ∷ []

one_asked :
    int_of_value library.int (given_or (Value.num 5) (lookup (codes "max_results") search_params))
    ≡ some (pos 1)
unfolding lookup text_beq
one_asked = refl

search-Fetches_example :
    ((search network library page policy search_params []).1 ≡ [])
    ⊎ Fetches network library policy
        ((library.get_following (search_url page (query_of library search_params)) []).1)
        ((search network library page policy search_params []).1)
search-Fetches_example = search-Fetches network library page policy search_params []
