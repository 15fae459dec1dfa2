-- ===== src/Tools/Web/Search/Results.antt =====
-- On app/tools/web_tools.py: how many results `WebSearchTool` returns, and which requests it makes.
use ochestrate.Base.{
  ℕ, suc, ◌≤◌, ◌<◌, max, ◌≡◌, ◌⊎◌, inl, inr, refl, arith, Bool, true, false, ◌&&◌, not, ◌==◌,
  Option, none, some, Option-cases, Bool-cases, List, [], ◌∷◌, ◌++◌, length, length-append,
  text_beq,
}
use ochestrate.Text.{Text, text_eq, codes, is_empty}
use ochestrate.Dict.{lookup}
use ochestrate.Schemas.{Value, Params}
use ochestrate.Tools.Hub.{Result, ok, raised}
use ochestrate.Tools.Values.{given_or, ℤ, pos, reaches, int_of_value, objects, truthy}
use ochestrate.Tools.Acting.{continue, continue-kept, Returns, continue-Returns, looks, give}
use ochestrate.Tools.Security.{Network, WebPolicy, is_url_safe}
use ochestrate.Tools.Web.{Library}
use ochestrate.Tools.Web.Hops.{over, read, Fetches, join-Fetches, fetch-Session}
use ochestrate.Tools.Web.Search.{
  Hit, Page, Anchor, normalize_result_url, fetch_excerpt, fetch_if_safe, read_anchor, read_hit,
  collect, search_url, query_of, found_results, search_page, search, text_or_blank, item_of,
}

module _ {W : Type 0} (n : Network W) (l : Library W) (page : Page) (policy : WebPolicy) where
  module _ (bound : ℕ) (z : ℤ) (stops : (k : ℕ) → reaches k z ≡ false → k < bound) where
    collect-bounded :
        (inc : Bool) (hits : List Hit) (results : List Params) (w : W)
        → length results < bound
        → Returns (λ rs. length rs ≤ bound) ((collect n l page policy z inc hits results w).0)
    unfolding collect
    collect-bounded inc [] results w h = omega arith
    collect-bounded inc (hit ∷ hits) results w h =
        continue-Returns (λ rs. length rs ≤ bound) (read_hit n l page policy inc hit w) _
          (λ found w'. elim (Option-cases found) [
            | inl absent ↦ rw (absent) (collect-bounded inc hits results w' h)
            | inr (item, present) ↦
                rw (present) (elim (Bool-cases (reaches (length (results ++ item ∷ [])) z)) [
                  | inl enough ↦ rw (enough) (rw (length-append) (omega arith))
                  | inr more ↦ rw (more) (
                      collect-bounded inc hits (results ++ item ∷ []) w'
                        (stops (length (results ++ item ∷ [])) more))
                ])
          ])

  -- an output whose results are as many as the limit at most, or one
  abbrev pub Listed : ℕ → Params → Type 0
  Listed m out =
      (rs : List Params) × (lookup (codes "results") out ≡ some (Value.arr (objects rs)))
      × (length rs ≤ max 1 m)

  below_limit : (m k : ℕ) → reaches k (pos m) ≡ false → k < max 1 m
  below_limit m k h = grind arith

  results_given :
      (query : Text) (rs : List Params)
      → lookup (codes "results") (found_results policy query rs) ≡ some (Value.arr (objects rs))
  unfolding lookup text_beq
  results_given query rs = refl

  found-Listed :
      (m : ℕ) (query : Text) (hits : List Hit) (inc : Bool) (w : W)
      → Returns (Listed m) (
          (continue
            (collect n l page policy (pos m) inc hits [] w)
            (λ rs. give (found_results policy query rs))).0)
  found-Listed m query hits inc w =
      returned (collect n l page policy (pos m) inc hits [] w)
        (collect-bounded (max 1 m) (pos m) (below_limit m) inc hits [] w (omega arith))
    where
      returned :
          (r : Result (List Params) × W)
          → Returns (λ rs. length rs ≤ max 1 m) r.0
          → Returns (Listed m) ((continue r (λ rs. give (found_results policy query rs))).0)
      returned (ok rs, w') few = (rs, results_given query rs, few)
      returned (raised e, w') few = tt

  -- A search for which `max_results` is read as `m` returns at most `m` results, or one where `m` is
  -- zero.
  pub search-results :
      (params : Params) (m : ℕ) (w : W)
      → int_of_value l.int
          (given_or (Value.num policy.search_result_limit) (lookup (codes "max_results") params))
        ≡ some (pos m)
      → Returns (Listed m) ((search n l page policy params w).0)
  unfolding search search_page
  search-results params m w limit = elim (Bool-cases (is_empty (query_of l params))) [
    | inl empty ↦ rw (empty) tt
    | inr given ↦ elim (Bool-cases (n.lower policy.search_provider == codes "duckduckgo")) [
      | inr other ↦ rw (given, limit, other) tt
      | inl known ↦
          rw (given, limit, known)
            (continue-Returns (Listed m) (l.get_following (search_url page (query_of l params)) w) _
              (λ resp w'.
                continue-Returns (Listed m) (l.text resp w') _ (λ text w''.
                  found-Listed m (query_of l params) (page.select_results text) _ w'')))
    ]
  ]

  fetch_excerpt-Fetches :
      (href : Text) (item : Params) (w : W)
      → Fetches n l policy w ((fetch_excerpt n l page policy href item w).1)
  unfolding fetch_excerpt
  fetch_excerpt-Fetches href item w =
      (suc policy.max_redirects, fetch-Session n l policy ((codes "url", Value.str href) ∷ []) w)

  fetch_if_safe-Fetches :
      (inc : Bool) (href : Text) (item : Params) (w : W)
      → Fetches n l policy w ((fetch_if_safe n l page policy inc href item w).1)
  unfolding fetch_if_safe
  fetch_if_safe-Fetches inc href item w = elim (Bool-cases (inc && not (is_empty href))) [
    | inr skipped ↦ rw (skipped) (0, over)
    | inl asked_for ↦ rw (asked_for) (
        continue-kept (Fetches n l policy w) (looks (is_url_safe n policy href) w) _ (0, over)
          (λ safe judged. elim (Bool-cases safe) [
            | inl is_safe ↦ rw (is_safe) (fetch_excerpt-Fetches href item w)
            | inr refused ↦ rw (refused) (0, over)
          ]))
  ]

  read_anchor-Fetches :
      (inc : Bool) (hit : Hit) (anchor : Option Anchor) (w : W)
      → Fetches n l policy w ((read_anchor n l page policy inc hit anchor w).1)
  unfolding read_anchor
  read_anchor-Fetches inc hit none w = (0, over)
  read_anchor-Fetches inc hit (some anchor) w =
      continue-kept (Fetches n l policy w)
        (looks (λ _. normalize_result_url n l page policy (text_or_blank anchor.href)) w) _
        (0, over)
        (λ href normalized.
          let item = item_of anchor hit href in
          continue-kept (Fetches n l policy w) (fetch_if_safe n l page policy inc href item w)
            (λ item. give (some item)) (fetch_if_safe-Fetches inc href item w)
            (λ item' returned. fetch_if_safe-Fetches inc href item w))

  read_hit-Fetches :
      (inc : Bool) (hit : Hit) (w : W)
      → Fetches n l policy w ((read_hit n l page policy inc hit w).1)
  unfolding read_hit
  read_hit-Fetches inc hit w = read_anchor-Fetches inc hit hit.anchor w

  collect-Fetches :
      (z : ℤ) (inc : Bool) (hits : List Hit) (results : List Params) (w : W)
      → Fetches n l policy w ((collect n l page policy z inc hits results w).1)
  unfolding collect
  collect-Fetches z inc [] results w = (0, over)
  collect-Fetches z inc (hit ∷ hits) results w =
      let (k, s) = read_hit-Fetches inc hit w in
      let w' = (read_hit n l page policy inc hit w).1 in
      continue-kept (Fetches n l policy w) (read_hit n l page policy inc hit w) _ (k, s)
        (λ found returned. elim (Option-cases found) [
          | inl absent ↦
              rw (absent)
                (join-Fetches n l policy k w w' _ s (collect-Fetches z inc hits results w'))
          | inr (item, present) ↦
              rw (present) (elim (Bool-cases (reaches (length (results ++ item ∷ [])) z)) [
                | inl enough ↦ rw (enough) (k, s)
                | inr more ↦ rw (more) (
                    join-Fetches n l policy k w w' _ s
                      (collect-Fetches z inc hits (results ++ item ∷ []) w'))
              ])
        ])

  search_page-Fetches :
      (query : Text) (z : ℤ) (inc : Bool) (w : W)
      → Fetches n l policy
          ((l.get_following (search_url page query) w).1)
          ((search_page n l page policy query z inc w).1)
  unfolding search_page
  search_page-Fetches query z inc w =
      let w' = (l.get_following (search_url page query) w).1 in
      continue-kept (Fetches n l policy w') (l.get_following (search_url page query) w) _ (0, over)
        (λ resp answered.
          continue-kept (Fetches n l policy w') (l.text resp w') _ (0, read resp over)
            (λ text came.
              let w'' = (l.text resp w').1 in
              let collected =
                join-Fetches n l policy 0 w' w'' _ (read resp over)
                  (collect-Fetches z inc (page.select_results text) [] w'') in
              continue-kept (Fetches n l policy w')
                (collect n l page policy z inc (page.select_results text) [] w'')
                (λ rs. give (found_results policy query rs)) collected (λ rs returned. collected)))

  -- A search either leaves the world alone or asks for the page of the search provider; what it
  -- does after that is what fetches do: requests of URLs that are judged safe at the time, and
  -- reading of bodies.
  pub search-Fetches :
      (params : Params) (w : W)
      → ((search n l page policy params w).1 ≡ w)
        ⊎ Fetches n l policy
            ((l.get_following (search_url page (query_of l params)) w).1)
            ((search n l page policy params w).1)
  unfolding search
  search-Fetches params w = elim (Bool-cases (is_empty (query_of l params))) [
    | inl empty ↦ rw (empty) (inl refl)
    | inr given ↦
        elim (Option-cases (
          int_of_value l.int (
            given_or (Value.num policy.search_result_limit)
              (lookup (codes "max_results") params)))) [
                | inl unread ↦ rw (given, unread) (inl refl)
                | inr (z, limit) ↦
                    elim (Bool-cases (n.lower policy.search_provider == codes "duckduckgo")) [
                      | inr other ↦ rw (given, limit, other) (inl refl)
                      | inl known ↦
                          rw (given, limit, known)
                            (inr (
                              search_page-Fetches (query_of l params) z
                                (truthy (
                                  given_or (Value.bool true)
                                    (lookup (codes "include_fetch") params)))
                                w))
                    ]
              ]
  ]
