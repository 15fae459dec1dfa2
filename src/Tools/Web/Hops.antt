-- ===== src/Tools/Web/Hops.antt =====
-- On app/tools/web_tools.py: which requests `WebFetchTool` makes, and how many.
use ochestrate.Base.{
  ℕ, zero, suc, ◌≡◌, refl, ap, ◌∙◌, inl, inr, Option-cases, Bool, true, false, Bool-cases,
}
use mathlib.Core.Path.{subst}
use ochestrate.Text.{Text, text_eq, codes, is_empty, strip}
use ochestrate.Dict.{lookup}
use ochestrate.Schemas.{Params}
use ochestrate.Tools.Hub.{ok}
use ochestrate.Tools.Values.{text_or_empty}
use ochestrate.Tools.Raising.{returned_from}
use ochestrate.Tools.Acting.{continue-kept, looks, give}
use ochestrate.Tools.Security.{Network, WebPolicy, is_url_safe}
use ochestrate.Tools.Web.{
  Response, Library, header_or_empty, land, validate_content_headers, judge, next_hop,
  redirect_target, safe_get, readable, fetched, fetch_safe, fetch,
}

module _ {W : Type 0} (n : Network W) (l : Library W) (policy : WebPolicy) where
  -- What a fetch does to the world: requests of URLs that are judged safe at that time, as many as
  -- the number says at most, and reading of bodies.
  pub data Session : ℕ → W → W → Type 0 where
    over : {k : ℕ} {w : W} → Session k w w
    asked :
        {k : ℕ} {w w' : W} (url : Text)
        → is_url_safe n policy url w ≡ ok true
        → Session k ((l.get url w).1) w'
        → Session (suc k) w w'
    read : {k : ℕ} {w w' : W} (resp : Response) → Session k ((l.text resp w).1) w' → Session k w w'

  -- any number of such requests
  abbrev pub Fetches : W → W → Type 0
  Fetches w w' = (k : ℕ) × Session k w w'

  pub join-Fetches : (k : ℕ) (w w' w'' : W) → Session k w w' → Fetches w' w'' → Fetches w w''
  join-Fetches k w w' w'' over t = t
  join-Fetches (suc k) w w' w'' (asked url safe s) t =
      let (m, joined) = join-Fetches k _ w' w'' s t in (suc m, asked url safe joined)
  join-Fetches k w w' w'' (read resp s) t =
      let (m, joined) = join-Fetches k _ w' w'' s t in (m, read resp joined)

  then_read :
      (k : ℕ) (w w' : W) (resp : Response) → Session k w w' → Session k w ((l.text resp w').1)
  then_read k w w' resp over = read resp over
  then_read (suc k) w w' resp (asked url safe s) = asked url safe (then_read k _ w' resp s)
  then_read k w w' resp (read r s) = read r (then_read k _ w' resp s)

  judge-safe : (u v : Text) (safe : Bool) → judge n l policy u safe ≡ ok v → (safe ≡ true) × (u ≡ v)
  unfolding judge
  judge-safe u v true h = (refl, cc)
  judge-safe u v false h = cc

  -- A hop leads to a URL that is judged safe.
  next_hop-safe :
      (current location v : Text) (w : W)
      → next_hop n l policy current location w ≡ ok v
      → is_url_safe n policy v w ≡ ok true
  unfolding next_hop
  next_hop-safe current location v w h =
      let (u, joined, e) = returned_from (l.urljoin current location) _ h in
      let (safe, judged, e') = returned_from (is_url_safe n policy u w) (judge n l policy u) e in
      let (is_safe, same) = judge-safe u v safe e' in
      subst (λ x. is_url_safe n policy x w ≡ ok true) same (judged ∙ ap (λ b. ok b) is_safe)

  land-Session : (k : ℕ) (resp : Response) (w : W) → Session k w ((land n l policy resp w).1)
  unfolding land
  land-Session k resp w =
      continue-kept (Session k w) (looks (λ _. validate_content_headers n l policy resp) w) _ over
        (λ _ valid.
          continue-kept (Session k w) (l.text resp w) _ (read resp over)
            (λ text returned. read resp over))

  safe_get-Session :
      (k : ℕ) (url : Text) (w : W)
      → is_url_safe n policy url w ≡ ok true
      → Session k w ((safe_get n l policy k url w).1)
  unfolding safe_get
  safe_get-Session zero url w safe = over
  safe_get-Session (suc k) url w safe = asked url safe (
      continue-kept (Session k ((l.get url w).1)) (l.get url w) _ over (λ resp answered.
        elim (Option-cases (redirect_target resp)) [
          | inl lands ↦ rw (lands) (land-Session k resp ((l.get url w).1))
          | inr (location, redirects) ↦ rw (redirects) (
              continue-kept (Session k ((l.get url w).1))
                (looks (next_hop n l policy url location) ((l.get url w).1)) _ over
                (λ next_url hopped.
                  safe_get-Session k next_url ((l.get url w).1)
                    (next_hop-safe url location next_url ((l.get url w).1) hopped)))
        ]))

  fetch_safe-Session :
      (url : Text) (w : W)
      → is_url_safe n policy url w ≡ ok true
      → Session (suc policy.max_redirects) w ((fetch_safe n l policy url w).1)
  unfolding fetch_safe
  fetch_safe-Session url w safe =
      let got = safe_get-Session (suc policy.max_redirects) url w safe in
      continue-kept (Session (suc policy.max_redirects) w)
        (safe_get n l policy (suc policy.max_redirects) url w) _ got
        (λ resp returned.
          continue-kept (Session (suc policy.max_redirects) w) (l.text resp _) _
            (then_read (suc policy.max_redirects) w _ resp got)
            (λ body came.
              let content_type = n.lower (header_or_empty (codes "content-type") resp) in
              continue-kept {B = Params} (Session (suc policy.max_redirects) w)
                (looks (λ _. readable n l policy content_type body) _)
                (λ parts. give (fetched n l policy resp content_type parts))
                (then_read (suc policy.max_redirects) w _ resp got)
                (λ parts fit. then_read (suc policy.max_redirects) w _ resp got)))

  -- Whatever a fetch is called with and however the network answers, it only makes requests of URLs
  -- that are judged safe at the time, redirects included, at most one more than `max_redirects`,
  -- and reads bodies.
  pub fetch-Session :
      (params : Params) (w : W)
      → Session (suc policy.max_redirects) w ((fetch n l policy params w).1)
  unfolding fetch
  fetch-Session params w =
      let url = strip (text_or_empty l.show_value (lookup (codes "url") params)) in
      elim (Bool-cases (is_empty url)) [
        | inl empty ↦ rw (empty) over
        | inr given ↦ rw (given) (
            continue-kept (Session (suc policy.max_redirects) w)
              (looks (is_url_safe n policy url) w) _ over
              (λ safe judged. elim (Bool-cases safe) [
                | inl is_safe ↦
                    rw (is_safe) (fetch_safe-Session url w (judged ∙ ap (λ b. ok b) is_safe))
                | inr refused ↦ rw (refused) over
              ]))
      ]
