-- ===== src/Tools/Web/Search.antt =====
-- app/tools/web_tools.py: `WebSearchTool`. What BeautifulSoup finds on the page, `quote_plus` and
-- `unquote` are parameters.
pub mod Results
use ochestrate.Base.{
  ℕ, Bool, true, false, ◌&&◌, not, Option, none, some, List, [], ◌∷◌, ◌++◌, ◌==◌, drop, length,
  if◌then◌else◌,
}
use ochestrate.Text.{Text, text_eq, codes, is_empty, strip, contains, starts_with, split_on}
use ochestrate.Dict.{lookup, insert}
use ochestrate.Schemas.{Value, Params}
use ochestrate.Tools.Hub.{Tool, Result, ok, raised, ToolError, permission, failure}
use ochestrate.Tools.Values.{
  or_next, given_or, ℤ, pos, reaches, int_of_value, objects, truthy, text_of, text_or_empty,
}
use ochestrate.Tools.Raising
use ochestrate.Tools.Acting.{Act, ◌>>=◌, looks, give, raise}
use ochestrate.Tools.Security.{ParsedUrl, Network, WebPolicy, is_url_safe}
use ochestrate.Tools.Web.{Response, Library, fetch}

pub record Anchor : Type 0 where
  pub href : Option Text
  pub text : Text

-- an element of `soup.select(".result")`, with its anchor and the text of its snippet
pub record Hit : Type 0 where
  pub anchor : Option Anchor
  pub snippet : Option Text

pub record Page : Type 0 where
  pub select_results : Text → List Hit
  pub quote_plus : Text → Text
  pub unquote : Text → Text

-- `value or ""`
abbrev pub text_or_blank : Option Text → Text
text_or_blank none = []
text_or_blank (some t) = t

-- `str(exc)`
abbrev pub exception_text : ToolError → Text
exception_text (permission t) = t
exception_text (failure t) = t

-- the first part of a query that begins with `uddg=`, without that
unfoldable pub uddg_target : List Text → Option Text
uddg_target [] = none
uddg_target (part ∷ parts) =
    let rest = uddg_target parts in
    if starts_with (codes "uddg=") part then some (drop 5 part) else rest

unfoldable pub target_of : Page → Text → ParsedUrl → Text
unfolding uddg_target
target_of page url parsed =
    if contains (codes "duckduckgo.com") parsed.netloc && starts_with (codes "/l/") parsed.path
    then (elim (uddg_target (split_on 38 parsed.query)) [ none ↦ url | some t ↦ page.unquote t ])
    else url

abbrev pub item_of : Anchor → Hit → Text → Params
item_of anchor hit href =
    (codes "title", Value.str anchor.text)
    ∷ (codes "url", Value.str href)
    ∷ (codes "snippet", Value.str (text_or_blank hit.snippet))
    ∷ []

abbrev pub search_url : Page → Text → Text
search_url page query = codes "https://duckduckgo.com/html/?q=" ++ page.quote_plus query

abbrev pub query_of : {W : Type 0} → Library W → Params → Text
query_of l params = strip (
    text_or_empty l.show_value
      (or_next (lookup (codes "query") params) (lookup (codes "q") params)))

abbrev pub found_results : WebPolicy → Text → List Params → Params
found_results policy query results =
    (codes "query", Value.str query)
    ∷ (codes "provider", Value.str policy.search_provider)
    ∷ (codes "results", Value.arr (objects results))
    ∷ []

module _ {W : Type 0} (n : Network W) (l : Library W) (page : Page) (policy : WebPolicy) where
  -- `WebSearchTool._normalize_result_url`
  unfoldable pub normalize_result_url : Text → Result Text
  unfolding target_of
  normalize_result_url url =
      Raising.◌>>=◌ (n.urlparse url) (λ parsed. ok (target_of page url parsed))

  unfoldable pub with_excerpt : Params → Result Params → Params
  with_excerpt item (ok fetched) =
      insert (codes "fetched_excerpt") (given_or (Value.str []) (lookup (codes "text") fetched))
        item
  with_excerpt item (raised e) = insert (codes "fetch_error") (Value.str (exception_text e)) item

  -- the second fetch of a result, whose failure is noted
  unfoldable pub fetch_excerpt : Text → Params → Act W Params
  unfolding with_excerpt
  fetch_excerpt href item w =
      let (r, w') = fetch n l policy ((codes "url", Value.str href) ∷ []) w in
      (ok (with_excerpt item r), w')

  unfoldable pub fetch_if_safe : Bool → Text → Params → Act W Params
  unfolding fetch_excerpt
  fetch_if_safe include_fetch href item =
      if include_fetch && not (is_empty href)
      then (looks (is_url_safe n policy href) >>= λ safe.
          if safe then fetch_excerpt href item else give item)
      else give item

  unfoldable pub read_anchor : Bool → Hit → Option Anchor → Act W (Option Params)
  unfolding normalize_result_url fetch_if_safe
  read_anchor include_fetch hit none = give none
  read_anchor include_fetch hit (some anchor) =
      looks (λ w. normalize_result_url (text_or_blank anchor.href)) >>= λ href.
      fetch_if_safe include_fetch href (item_of anchor hit href) >>= λ item. give (some item)

  -- a result of the page, none where it has no anchor
  unfoldable pub read_hit : Bool → Hit → Act W (Option Params)
  unfolding read_anchor
  read_hit include_fetch hit = read_anchor include_fetch hit hit.anchor

  -- the loop over the results of the page
  unfoldable pub collect : ℤ → Bool → List Hit → List Params → Act W (List Params)
  collect max_results include_fetch [] results w = (ok results, w)
  collect max_results include_fetch (hit ∷ hits) results w =
      ((read_hit include_fetch hit) >>= λ found. elim found [
        | none ↦ collect max_results include_fetch hits results
        | some item ↦
            if reaches (length (results ++ item ∷ [])) max_results
            then give (results ++ item ∷ [])
            else collect max_results include_fetch hits (results ++ item ∷ [])
      ])
        w

  unfoldable pub search_page : Text → ℤ → Bool → Act W Params
  search_page query max_results include_fetch = do
    resp ← l.get_following (search_url page query)
    text ← l.text resp
    results ← collect max_results include_fetch (page.select_results text) []
    give (found_results policy query results)

  -- `WebSearchTool.run`
  unfoldable pub search : Params → Act W Params
  search params =
      let query = query_of l params in
      if is_empty query
      then raise (failure (codes "query is required"))
      else (elim (int_of_value l.int
          (given_or (Value.num policy.search_result_limit) (lookup (codes "max_results") params))) [
            | none ↦ raise (failure (codes "int() argument"))
            | some max_results ↦
                if n.lower policy.search_provider == codes "duckduckgo"
                then search_page query max_results
                    (truthy (given_or (Value.bool true) (lookup (codes "include_fetch") params)))
                else raise (failure (codes "unsupported search provider"))
          ])

  -- `WebSearchTool`
  abbrev pub web_search_tool : Tool W
  web_search_tool = record {
    name = codes "web_search_tool";
    description = codes "Search web by keyword and optionally fetch top result contents.";
    required_roles = codes "employee" ∷ codes "manager" ∷ codes "admin" ∷ [];
    idempotent = true;
    run = search;
  }
