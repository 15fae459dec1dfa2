-- ===== src/Api/Sessions.antt =====
-- app/middleware/auth_context.py, app/auth/deps.py and app/api/v1/auth.py: from the Authorization
-- header to the context of a request, and the endpoints that give out tokens. `str.lower` is an
-- argument. The checks of pydantic on the payloads are not modelled.
use ochestrate.Base.{
  ℕ, Bool, true, false, Option, none, some, List, [], ◌∷◌, nat_beq, if◌then◌else◌,
}
use ochestrate.Text.{Text, text_eq, codes, is_empty, strip, starts_with}
use ochestrate.Auth.Repository.{AuthRepository, Bootstrap, admin, disabled}
use ochestrate.Auth.Service.Data.{Library, Settings, LoginResponse, AuthContext, Result, ok, denied}
use ochestrate.Auth.Service.{decode_access_token}
use ochestrate.Auth.Service
use ochestrate.Auth.Service.Users
use ochestrate.Api.{
  unauthorized, forbidden, unprocessable, internal, Response, returned, refused, UserResponse,
  user_response,
}

-- `text.split(" ", 1)[1]`; none is its `IndexError`
unfoldable pub behind_space : Text → Option Text
behind_space [] = none
behind_space (c ∷ cs) = let rest = behind_space cs in if nat_beq c 32 then some cs else rest

-- `require_auth_context`
unfoldable pub require_auth_context : Option AuthContext → Response AuthContext
require_auth_context none = refused (unauthorized (codes "authentication required"))
require_auth_context (some auth) = returned auth

abbrev pub or_no_context : Result AuthContext → Option AuthContext
or_no_context (ok auth) = some auth
or_no_context (denied reason) = none

unfoldable pub login_outcome :
    Result LoginResponse × AuthRepository → Response LoginResponse × AuthRepository
login_outcome (ok response, s) = (returned response, s)
login_outcome (denied reason, s) = (refused (unauthorized reason), s)

-- a `PermissionError` of `logout` is mapped by no handler
unfoldable pub logout_outcome : Result (Unit {0}) × AuthRepository → Response Bool × AuthRepository
logout_outcome (ok done, s) = (returned true, s)
logout_outcome (denied reason, s) = (refused (internal reason), s)

unfoldable pub bootstrap_outcome :
    Bootstrap × AuthRepository → Response UserResponse × AuthRepository
bootstrap_outcome (admin user, s) = (returned (user_response user), s)
bootstrap_outcome (disabled, s) = (refused (forbidden (codes "bootstrap admin is disabled")), s)

module _ (lib : Library) where
  unfoldable pub context_of : ℕ → Text → Option AuthContext
  context_of now token =
      if is_empty token then none else or_no_context (decode_access_token lib now token)

  -- `AuthContextMiddleware.dispatch` of an Authorization header; the outer Option is for a header
  -- without a space, whose `IndexError` nothing catches
  unfoldable pub authenticate : (Text → Text) → ℕ → Text → Option (Option AuthContext)
  unfolding context_of
  authenticate lower now header =
      if starts_with (codes "bearer ") (lower header)
      then (elim (behind_space header) [
        | none ↦ none
        | some rest ↦ some (context_of now (strip rest))
      ])
      else some none

  -- `login`
  unfoldable pub post_login :
      Settings
      → ℕ
      → Text
      → Text
      → Text
      → Text
      → Text
      → AuthRepository
      → Response LoginResponse × AuthRepository
  unfolding login_outcome
  post_login settings now session_id token_id tenant_id username password s =
      login_outcome
        (Service.login lib settings now session_id token_id tenant_id username password s)

  -- `refresh`
  unfoldable pub post_refresh :
      Settings → ℕ → Text → Text → AuthRepository → Response LoginResponse × AuthRepository
  unfolding login_outcome
  post_refresh settings now new_id refresh_token s =
      login_outcome (Service.refresh lib settings now new_id refresh_token s)

  -- `logout`
  unfoldable pub post_logout : ℕ → Text → AuthRepository → Response Bool × AuthRepository
  unfolding logout_outcome
  post_logout now refresh_token s = logout_outcome (Service.logout lib now refresh_token s)

  -- `bootstrap_admin`
  unfoldable pub post_bootstrap_admin :
      List ℕ
      → Bool
      → Text
      → ℕ
      → Option Text
      → Text
      → Text
      → AuthRepository
      → Response UserResponse × AuthRepository
  unfolding bootstrap_outcome
  post_bootstrap_admin salt enabled user_id now tenant_id username password s = elim enabled [
    | false ↦ (refused (forbidden (codes "bootstrap admin is disabled")), s)
    | true ↦ elim tenant_id [
      | none ↦ (refused (unprocessable (codes "tenant_id is required")), s)
      | some t ↦
          if is_empty t
          then (refused (unprocessable (codes "tenant_id is required")), s)
          else bootstrap_outcome
              (Users.bootstrap_admin_if_needed lib salt user_id now t username password s)
    ]
  ]
