-- ===== src/Auth/Service.antt =====
-- `AuthService` of app/auth/service.py. PyJWT, SHA-256, PBKDF2, the clock and `uuid4` are not the
-- repository's: they are the fields of `Library` and the arguments `now`, `session_id`, `token_id`.
pub mod Data
pub mod Login
pub mod Revoked
pub mod Rotation
pub mod Access
pub mod Users
pub mod Tests
use ochestrate.Base.{
  ℕ, ◌+◌, ◌*◌, Bool, true, false, ◌&&◌, Option, none, some, List, [], ◌∷◌, ◌==◌, text_beq, nat_beq,
  if◌then◌else◌, ltb,
}
use ochestrate.Text.{Text, text_eq, codes, is_empty}
use ochestrate.Dict.{Dict, lookup}
use ochestrate.Auth.Repository.{
  AuthRepository, UserRecord, RefreshRow, get_user_by_username, get_user_by_id, get_refresh_token,
  refresh_token_expired, revoke_refresh_token, store_refresh_token, create_user, update_user,
  create_bootstrap_admin_if_needed, Bootstrap,
}
use ochestrate.Auth.Password.{hash_password, verify_password}
use ochestrate.Auth.Service.Data.{
  Claim, str, int, Claims, Library, Settings, LoginResponse, AuthContext, Result, ok, denied, ◌>>=◌,
  ◌>>◌, refuse_if, or_denied, differs, Grant,
}

module _ (lib : Library) where
  -- `str(payload.get(key) or "")`
  unfoldable pub text_claim : Option Claim → Text
  text_claim none = []
  text_claim (some (str t)) = t
  text_claim (some (int n)) = if nat_beq n 0 then [] else lib.show_int n

  -- `payload.get("typ") != kind`
  unfoldable pub is_kind : Text → Option Claim → Bool
  is_kind kind none = false
  is_kind kind (some (str t)) = t == kind
  is_kind kind (some (int n)) = false

  abbrev pub access_claims : UserRecord → Text → ℕ → Claims
  access_claims user session_id exp =
      (codes "typ", str (codes "access"))
      ∷ (codes "tenant_id", str user.tenant_id)
      ∷ (codes "user_id", str user.user_id)
      ∷ (codes "role", str user.role)
      ∷ (codes "session_id", str session_id)
      ∷ (codes "exp", int exp)
      ∷ []

  abbrev pub refresh_claims : UserRecord → Text → Text → ℕ → Claims
  refresh_claims user session_id token_id exp =
      (codes "typ", str (codes "refresh"))
      ∷ (codes "jti", str token_id)
      ∷ (codes "tenant_id", str user.tenant_id)
      ∷ (codes "user_id", str user.user_id)
      ∷ (codes "session_id", str session_id)
      ∷ (codes "exp", int exp)
      ∷ []

  -- `AuthService._issue_tokens` at the time `now`, with the `jti` that `uuid4` gives
  unfoldable pub issue_tokens :
      Settings → ℕ → Text → UserRecord → Text → AuthRepository → LoginResponse × AuthRepository
  issue_tokens settings now token_id user session_id s =
      let access_exp = now + settings.access_ttl * 60 in
      let refresh_exp = now + settings.refresh_ttl * 86400 in
      let refresh_token = lib.encode (refresh_claims user session_id token_id refresh_exp) in
      (
        record {
          access_token = lib.encode (access_claims user session_id access_exp);
          refresh_token = refresh_token;
          expires_in = settings.access_ttl * 60;
          tenant_id = user.tenant_id;
          user_id = user.user_id;
          role = user.role;
          session_id = session_id;
        },
        store_refresh_token token_id
            (record {
              tenant_id = user.tenant_id;
              user_id = user.user_id;
              session_id = session_id;
              refresh_token_hash = lib.hash_token refresh_token;
              expires_at = refresh_exp;
              revoked = false;
            })
            s,
      )

  -- the checks of `AuthService.login`, in their order
  unfoldable pub check_login : Text → Text → Text → AuthRepository → Result UserRecord
  check_login tenant_id username password s = do
    user ←
        or_denied (get_user_by_username tenant_id username s) (codes "invalid username or password")
    refuse_if (differs user.status (codes "active")) (codes "user is disabled")
    refuse_if
        (if verify_password lib.pbkdf2 lib.parse_int password user.password_hash
          then false
          else true)
        (codes "invalid username or password")
    ok user

  -- what a request that passes its checks leads to
  unfoldable pub issue_for :
      Settings
      → ℕ
      → Text
      → Text
      → Result UserRecord
      → AuthRepository
      → Result LoginResponse × AuthRepository
  issue_for settings now session_id token_id (denied reason) s = (denied reason, s)
  issue_for settings now session_id token_id (ok user) s =
      let (response, s') = issue_tokens settings now token_id user session_id s in (ok response, s')

  -- `AuthService.login`
  unfoldable pub login :
      Settings
      → ℕ
      → Text
      → Text
      → Text
      → Text
      → Text
      → AuthRepository
      → Result LoginResponse × AuthRepository
  unfolding issue_for
  login settings now session_id token_id tenant_id username password s =
      issue_for settings now session_id token_id (check_login tenant_id username password s) s

  -- `AuthService._decode_token`
  abbrev pub decode_token : ℕ → Text → Result Claims
  decode_token now token = or_denied (lib.decode now token) (codes "invalid or expired token")

  -- the checks of `AuthService.refresh`, in their order
  unfoldable pub check_refresh : ℕ → Text → AuthRepository → Result Grant
  check_refresh now refresh_token s = do
    payload ← decode_token now refresh_token
    refuse_if (if is_kind (codes "refresh") (lookup (codes "typ") payload) then false else true)
        (codes "invalid refresh token type")
    let token_id = text_claim (lookup (codes "jti") payload)
    refuse_if (is_empty token_id) (codes "refresh token missing token id")
    row ← or_denied (get_refresh_token token_id s) (codes "refresh token not found")
    refuse_if row.revoked (codes "refresh token revoked")
    refuse_if (refresh_token_expired now row.expires_at) (codes "refresh token expired")
    refuse_if (differs (lib.hash_token refresh_token) row.refresh_token_hash)
        (codes "refresh token mismatch")
    user ← or_denied (get_user_by_id row.tenant_id row.user_id s) (codes "user unavailable")
    refuse_if (differs user.status (codes "active")) (codes "user unavailable")
    ok (record { token_id = token_id; row = row; user = user })

  unfoldable pub rotate :
      Settings → ℕ → Text → Result Grant → AuthRepository → Result LoginResponse × AuthRepository
  rotate settings now new_id (denied reason) s = (denied reason, s)
  rotate settings now new_id (ok grant) s =
      let (response, s') =
        issue_tokens settings now new_id grant.user grant.row.session_id
          (revoke_refresh_token grant.token_id s) in
      (ok response, s')

  -- `AuthService.refresh`, with the `jti` of the new token
  unfoldable pub refresh :
      Settings → ℕ → Text → Text → AuthRepository → Result LoginResponse × AuthRepository
  unfolding rotate
  refresh settings now new_id refresh_token s =
      rotate settings now new_id (check_refresh now refresh_token s) s

  unfoldable pub revoke_named : Text → AuthRepository → AuthRepository
  revoke_named [] s = s
  revoke_named (c ∷ cs) s = revoke_refresh_token (c ∷ cs) s

  unfoldable pub logout_payload :
      Option Claims → AuthRepository → Result (Unit {0}) × AuthRepository
  logout_payload none s = (denied (codes "invalid or expired token"), s)
  logout_payload (some payload) s =
      (ok tt, revoke_named (text_claim (lookup (codes "jti") payload)) s)

  -- `AuthService.logout`
  unfoldable pub logout : ℕ → Text → AuthRepository → Result (Unit {0}) × AuthRepository
  unfolding logout_payload revoke_named
  logout now refresh_token s = logout_payload (lib.decode now refresh_token) s

  unfoldable pub field_of : Claims → Text → Result Text
  field_of payload key = do
    value ← or_denied (lookup key payload) (codes "token missing field")
    ok (text_claim (some value))

  unfoldable pub expiry_of : Claims → Result ℕ
  expiry_of payload = elim (lookup (codes "exp") payload) [
    | some (int n) ↦ ok n
    | some (str t) ↦ or_denied (lib.parse_int t) (codes "invalid literal for int")
    | none ↦ denied (codes "token missing field")
  ]

  -- `AuthService.decode_access_token`; the text of the error leaves out which field is missing.
  unfoldable pub decode_access_token : ℕ → Text → Result AuthContext
  unfolding field_of expiry_of
  decode_access_token now token = do
    payload ← decode_token now token
    refuse_if (if is_kind (codes "access") (lookup (codes "typ") payload) then false else true)
        (codes "invalid token type")
    tenant_id ← field_of payload (codes "tenant_id")
    user_id ← field_of payload (codes "user_id")
    role ← field_of payload (codes "role")
    session_id ← field_of payload (codes "session_id")
    exp ← expiry_of payload
    ok (record {
      tenant_id = tenant_id;
      user_id = user_id;
      role = role;
      session_id = session_id;
      token_exp = exp;
    })
