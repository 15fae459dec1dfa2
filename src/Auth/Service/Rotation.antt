-- ===== src/Auth/Service/Rotation.antt =====
-- On app/auth/service.py: a refresh token serves once: the refresh that accepts it, or a logout,
-- revokes it, and nothing that the service does later brings it back.
use mathlib.Core.Path.{subst}
use mathlib.Core.Bool.{false≢true}
use ochestrate.Base.{
  ℕ, ◌≡◌, ◌≢◌, refl, arith, ap, sym, ◌∙◌, true, Option, none, some, [], ◌∷◌, inl, inr, Option-cases,
}
use ochestrate.Text.{Text, text_eq, codes}
use ochestrate.Dict.{lookup}
use ochestrate.Dict.Laws.{IsDict}
use ochestrate.Auth.Repository.{
  AuthRepository, UserRecord, get_refresh_token, get_user_by_id, revoke_refresh_token, revoke_found,
  cleanup_expired_refresh_tokens, create_user, update_user, update_found,
  create_bootstrap_admin_if_needed, bootstrap_found,
}
use ochestrate.Auth.Service.Data.{
  Library, Settings, LoginResponse, Claims, Result, ok, denied, Grant,
}
use ochestrate.Auth.Service.{
  check_login, check_refresh, login, issue_for, issue_tokens, refresh, rotate, logout,
  logout_payload, revoke_named, text_claim,
}
use ochestrate.Auth.Service.Revoked.{
  cleanup-IsDead, store-IsDead, revoke_found-IsDead, revoke_found_kills, revoke_named_kills,
  is_live, IsDead, Denied,
}

module _ (lib : Library) (settings : Settings) (id : Text) where
  issue-IsDead :
      (now : ℕ) (new_id : Text) (user : UserRecord) (session_id : Text) (s : AuthRepository)
      → new_id ≢ id
      → IsDead id s
      → IsDead id (issue_tokens lib settings now new_id user session_id s).1
  unfolding issue_tokens
  issue-IsDead now new_id user session_id s ne h = store-IsDead id new_id _ s ne h

  issue_for-IsDead :
      (now : ℕ) (session_id new_id : Text) (r : Result UserRecord) (s : AuthRepository)
      → new_id ≢ id
      → IsDead id s
      → IsDead id (issue_for lib settings now session_id new_id r s).1
  unfolding issue_for
  issue_for-IsDead now session_id new_id (denied reason) s ne h = h
  issue_for-IsDead now session_id new_id (ok user) s ne h =
      issue-IsDead now new_id user session_id s ne h

  rotate-IsDead :
      (now : ℕ) (new_id : Text) (r : Result Grant) (s : AuthRepository)
      → new_id ≢ id
      → IsDead id s
      → IsDead id (rotate lib settings now new_id r s).1
  unfolding rotate revoke_refresh_token
  rotate-IsDead now new_id (denied reason) s ne h = h
  rotate-IsDead now new_id (ok grant) s ne h =
      issue-IsDead now new_id grant.user grant.row.session_id _ ne
        (revoke_found-IsDead id grant.token_id (lookup grant.token_id s.refresh) s h)

  revoke_named-IsDead :
      (other : Text) (s : AuthRepository) → IsDead id s → IsDead id (revoke_named lib other s)
  unfolding revoke_named revoke_refresh_token
  revoke_named-IsDead [] s h = h
  revoke_named-IsDead (c ∷ cs) s h = revoke_found-IsDead id (c ∷ cs) (lookup (c ∷ cs) s.refresh) s h

  logout-IsDead :
      (o : Option Claims) (s : AuthRepository) → IsDead id s → IsDead id (logout_payload lib o s).1
  unfolding logout_payload
  logout-IsDead none s h = h
  logout-IsDead (some payload) s h =
      revoke_named-IsDead (text_claim lib (lookup (codes "jti") payload)) s h

  -- The users may change in any way: the tokens are not touched.
  users-IsDead : {s s' : AuthRepository} → s'.refresh ≡ s.refresh → IsDead id s → IsDead id s'
  users-IsDead {s} {s'} same h = record { distinct = rw same h.distinct; dead = rw same h.dead }

  -- What the service does to the repository, where no new token has the identifier `id`.
  pub data Step (s : AuthRepository) : AuthRepository → Type 0 where
    logged_in :
        (now : ℕ) (session_id new_id tenant_id username password : Text)
        → new_id ≢ id
        → Step s (login lib settings now session_id new_id tenant_id username password s).1
    refreshed :
        (now : ℕ) (new_id token : Text)
        → new_id ≢ id
        → Step s (refresh lib settings now new_id token s).1
    logged_out : (now : ℕ) (token : Text) → Step s (logout lib now token s).1
    created :
        (user_id : Text) (now : ℕ) (tenant_id username hash role status : Text)
        → Step s (create_user user_id now tenant_id username hash role status s).1
    updated :
        (tenant_id user_id : Text) (role status hash : Option Text)
        → Step s (update_user tenant_id user_id role status hash s).1
    bootstrapped :
        (user_id : Text) (now : ℕ) (tenant_id username hash : Text)
        → Step s (create_bootstrap_admin_if_needed user_id now tenant_id username hash s).1
    cleaned : (now : ℕ) → Step s (cleanup_expired_refresh_tokens now s)

  pub data Reach (s : AuthRepository) : AuthRepository → Type 0 where
    here : Reach s s
    next : {t u : AuthRepository} → Reach s t → Step t u → Reach s u

  update_found_keeps :
      (tenant_id user_id : Text) (role status hash : Option Text) (o : Option UserRecord)
      (s : AuthRepository)
      → (update_found tenant_id user_id role status hash o s).1.refresh ≡ s.refresh
  unfolding update_found
  update_found_keeps tenant_id user_id role status hash none s = refl
  update_found_keeps tenant_id user_id role status hash (some u) s = refl

  bootstrap_found_keeps :
      (user_id : Text) (now : ℕ) (tenant_id username hash : Text) (o : Option UserRecord)
      (s : AuthRepository)
      → (bootstrap_found user_id now tenant_id username hash o s).1.refresh ≡ s.refresh
  unfolding bootstrap_found create_user
  bootstrap_found_keeps user_id now tenant_id username hash (some u) s = refl
  bootstrap_found_keeps user_id now tenant_id username hash none s = ground arith

  Step-IsDead : {s t : AuthRepository} → Step s t → IsDead id s → IsDead id t
  unfolding login refresh logout create_user update_user create_bootstrap_admin_if_needed
  Step-IsDead {s} (logged_in now session_id new_id tenant_id username password ne) h =
      issue_for-IsDead now session_id new_id (check_login lib tenant_id username password s) s ne h
  Step-IsDead {s} (refreshed now new_id token ne) h =
      rotate-IsDead now new_id (check_refresh lib now token s) s ne h
  Step-IsDead {s} (logged_out now token) h = logout-IsDead (lib.decode now token) s h
  Step-IsDead {s} (created user_id now tenant_id username hash role status) h =
      users-IsDead {s = s} refl h
  Step-IsDead {s} (updated tenant_id user_id role status hash) h =
      users-IsDead {s = s}
        (update_found_keeps tenant_id user_id role status hash (get_user_by_id tenant_id user_id s)
          s)
        h
  Step-IsDead {s} (bootstrapped user_id now tenant_id username hash) h =
      users-IsDead {s = s} (bootstrap_found_keeps user_id now tenant_id username hash _ s) h
  Step-IsDead {s} (cleaned now) h = cleanup-IsDead id now s h

  Reach-IsDead : {s t : AuthRepository} → Reach s t → IsDead id s → IsDead id t
  Reach-IsDead here h = h
  Reach-IsDead (next r step) h = Step-IsDead step (Reach-IsDead r h)

  -- At every time at which the token decodes, its `jti` is `id`.
  abbrev pub Names : Text → Type 0
  Names token =
      (now : ℕ) (payload : Claims)
      → lib.decode now token ≡ some payload
      → text_claim lib (lookup (codes "jti") payload) ≡ id

  granted_payload :
      (now : ℕ) (token : Text) (s : AuthRepository) (g : Grant)
      → check_refresh lib now token s ≡ ok g
      → (payload : Claims) × (lib.decode now token ≡ some payload)
        × (text_claim lib (lookup (codes "jti") payload) ≡ g.token_id)
        × (is_live (lookup g.token_id s.refresh) ≡ true)
  unfolding check_refresh get_refresh_token
  granted_payload now token s g e = elim (Option-cases (lib.decode now token)) [
    | inl invalid ↦ absurd (ground arith)
    | inr (payload, valid) ↦ (payload, valid, ground arith, ground arith)
  ]

  dead_not_granted :
      (now : ℕ) (new_id token : Text) (s : AuthRepository) (r : Result Grant)
      → Names token
      → IsDead id s
      → check_refresh lib now token s ≡ r
      → Denied (rotate lib settings now new_id r s).0
  unfolding rotate
  dead_not_granted now new_id token s (denied reason) names h e = tt
  dead_not_granted now new_id token s (ok g) names h e =
      let (payload, valid, jti, live) = granted_payload now token s g e in
      let same : g.token_id ≡ id = sym jti ∙ names now payload valid in
      false≢true (sym h.dead ∙ ap (λ k. is_live (lookup k s.refresh)) (sym same) ∙ live)

  -- A token whose row is gone or revoked is refused.
  dead_refused :
      (now : ℕ) (new_id token : Text) (s : AuthRepository)
      → Names token
      → IsDead id s
      → Denied (refresh lib settings now new_id token s).0
  unfolding refresh
  dead_refused now new_id token s names h =
      dead_not_granted now new_id token s (check_refresh lib now token s) names h refl

  rotate_kills :
      (now : ℕ) (new_id token : Text) (s : AuthRepository) (r : Result Grant)
      {response : LoginResponse}
      → Names token
      → IsDict s.refresh
      → new_id ≢ id
      → check_refresh lib now token s ≡ r
      → (rotate lib settings now new_id r s).0 ≡ ok response
      → IsDead id (rotate lib settings now new_id r s).1
  unfolding rotate revoke_refresh_token
  rotate_kills now new_id token s (denied reason) names h ne e accepted = absurd (cc accepted)
  rotate_kills now new_id token s (ok g) names h ne e accepted =
      let (payload, valid, jti, live) = granted_payload now token s g e in
      issue-IsDead now new_id g.user g.row.session_id _ ne (
        subst (λ k. IsDead id (revoke_found k (lookup k s.refresh) s))
          (sym (sym jti ∙ names now payload valid))
          (revoke_found_kills id (lookup id s.refresh) s refl h))

  -- A refresh token serves once. Where the token decodes to one identifier only, each identifier
  -- has one row, and no new token is given that identifier: after a refresh that accepts the
  -- token, and whatever the service does then, every refresh with it is refused.
  pub refresh_once :
      (now : ℕ) (new_id token : Text) (s t : AuthRepository) (response : LoginResponse) (later : ℕ)
      (other_id : Text)
      → Names token
      → IsDict s.refresh
      → new_id ≢ id
      → (refresh lib settings now new_id token s).0 ≡ ok response
      → Reach (refresh lib settings now new_id token s).1 t
      → Denied (refresh lib settings later other_id token t).0
  refresh_once now new_id token s t response later other_id names h ne accepted reach =
      dead_refused later other_id token t names (
        Reach-IsDead reach (
          unfold refresh in
          rotate_kills now new_id token s (check_refresh lib now token s) names h ne refl
            (unfold refresh in accepted)))

  -- A logout ends a refresh token. Where the token decodes to one identifier only, which is not
  -- empty, each identifier has one row, and no new token is given that identifier: after a logout
  -- that decodes the token, and whatever the service does then, every refresh with it is refused.
  pub logout_ends :
      (now : ℕ) (payload : Claims) (token : Text) (s t : AuthRepository) (later : ℕ)
      (other_id : Text)
      → Names token
      → IsDict s.refresh
      → id ≢ []
      → lib.decode now token ≡ some payload
      → Reach (logout lib now token s).1 t
      → Denied (refresh lib settings later other_id token t).0
  logout_ends now payload token s t later other_id names h some_id valid reach =
      dead_refused later other_id token t names (
        Reach-IsDead reach (
          unfold logout logout_payload in
          subst (λ o. IsDead id (logout_payload lib o s).1) (sym valid)
            (subst (λ k. IsDead id (revoke_named lib k s)) (sym (names now payload valid))
              (revoke_named_kills lib id s some_id h))))
