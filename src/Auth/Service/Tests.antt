-- ===== src/Auth/Service/Tests.antt =====
-- On app/auth/service.py: a service with one user and one refresh token, to which the theorems are
-- applied. Its library names a token by the type that it claims, and hashes nothing.
use mathlib.Core.Option.{some-injective}
use ochestrate.Base.{
  ◌≡◌, refl, ap, sym, arith, false, Option, none, some, [], ◌∷◌, text_beq, if◌then◌else◌,
}
use ochestrate.Text.{Text, text_eq, codes, apart}
use ochestrate.Dict.{lookup, insert, values}
use ochestrate.Auth.Repository.{
  AuthRepository, UserRecord, RefreshRow, get_user_by_id, find_user, get_refresh_token,
  revoke_refresh_token, store_refresh_token, cleanup_expired_refresh_tokens,
}
use ochestrate.Auth.Service.Data.{Library, Settings, LoginResponse, Claims, str, int, ok, denied}
use ochestrate.Auth.Service.{
  text_claim, is_kind, check_refresh, refresh, rotate, logout, issue_tokens, decode_access_token,
}
use ochestrate.Auth.Service.Revoked.{Denied}
use ochestrate.Auth.Service.Rotation.{Names, here, next, cleaned, refresh_once, logout_ends}
use ochestrate.Auth.Service.Access.{tokens_kept_apart}

abbrev pub refresh_payload : Claims
refresh_payload =
    (codes "typ", str (codes "refresh"))
    ∷ (codes "jti", str (codes "j1"))
    ∷ (codes "tenant_id", str (codes "acme"))
    ∷ (codes "user_id", str (codes "u1"))
    ∷ (codes "session_id", str (codes "s1"))
    ∷ (codes "exp", int 86401)
    ∷ []

abbrev pub access_payload : Claims
access_payload =
    (codes "typ", str (codes "access"))
    ∷ (codes "tenant_id", str (codes "acme"))
    ∷ (codes "user_id", str (codes "u1"))
    ∷ (codes "role", str (codes "employee"))
    ∷ (codes "session_id", str (codes "s1"))
    ∷ (codes "exp", int 61)
    ∷ []

abbrev pub typ_of : Claims → Text
typ_of [] = []
typ_of ((k, str t) ∷ c) = t
typ_of ((k, int n) ∷ c) = []

abbrev pub read_token : Text → Option Claims
read_token [] = none
read_token (c ∷ cs) =
    if text_beq (c ∷ cs) (codes "refresh") then some refresh_payload else some access_payload

abbrev pub lib : Library
lib = record {
  pbkdf2 = λ password salt rounds. password;
  parse_int = λ t. some 120000;
  show_int = λ n. n ∷ [];
  hash_token = λ t. t;
  encode = typ_of;
  decode = λ now token. read_token token;
}

abbrev pub settings : Settings
settings = record { access_ttl = 1; refresh_ttl = 1 }

-- the password is "a", whose code is 97
abbrev pub ann : UserRecord
ann = record {
  tenant_id = codes "acme";
  user_id = codes "u1";
  username = codes "ann";
  role = codes "employee";
  status = codes "active";
  password_hash = codes "pbkdf2_sha256$120000$00$61";
  created_at = 0;
}

abbrev pub row : RefreshRow
row = record {
  tenant_id = codes "acme";
  user_id = codes "u1";
  session_id = codes "s1";
  refresh_token_hash = codes "refresh";
  expires_at = 86401;
  revoked = false;
}

abbrev pub repository : AuthRepository
repository = record {
  users = ((codes "acme", codes "ann"), ann) ∷ [];
  refresh = (codes "j1", row) ∷ [];
}

abbrev pub renewed : LoginResponse
renewed = record {
  access_token = codes "access";
  refresh_token = codes "refresh";
  expires_in = 60;
  tenant_id = codes "acme";
  user_id = codes "u1";
  role = codes "employee";
  session_id = codes "s1";
}

token-Names : Names lib settings (codes "j1") (codes "refresh")
unfolding text_beq lookup text_claim
token-Names now payload e =
    ap (λ p. text_claim lib (lookup (codes "jti") p)) (sym (some-injective _ _ e))

refresh_once_example :
    Denied
      (refresh lib settings 3 (codes "j3") (codes "refresh") (
        cleanup_expired_refresh_tokens 2
          (refresh lib settings 1 (codes "j2") (codes "refresh") repository).1)).0
unfolding refresh check_refresh rotate issue_tokens is_kind text_claim lookup insert text_beq
    get_refresh_token get_user_by_id find_user values revoke_refresh_token store_refresh_token
refresh_once_example =
    refresh_once lib settings (codes "j1") 1 (codes "j2") (codes "refresh") repository
      (cleanup_expired_refresh_tokens 2
        (refresh lib settings 1 (codes "j2") (codes "refresh") repository).1)
      renewed 3 (codes "j3") token-Names (refl, tt) (apart (codes "j2") (codes "j1") refl) refl
      (next here (cleaned 2))

logout_ends_example :
    Denied
      (refresh lib settings 3
        (codes "j3")
        (codes "refresh")
        (cleanup_expired_refresh_tokens 2 (logout lib 1 (codes "refresh") repository).1)).0
unfolding text_beq lookup
logout_ends_example =
    logout_ends lib settings (codes "j1") 1 refresh_payload (codes "refresh") repository
      (cleanup_expired_refresh_tokens 2 (logout lib 1 (codes "refresh") repository).1) 3
      (codes "j3") token-Names (refl, tt) (apart (codes "j1") [] refl) refl (next here (cleaned 2))

tokens_kept_apart_example :
    let (response, s') = issue_tokens lib settings 1 (codes "j1") ann (codes "s1") repository in
    (decode_access_token lib 2 response.access_token
      ≡ ok (record {
        tenant_id = codes "acme";
        user_id = codes "u1";
        role = codes "employee";
        session_id = codes "s1";
        token_exp = 61;
      }))
    × (decode_access_token lib 2 response.refresh_token ≡ denied (codes "invalid token type"))
    × ((other_id : Text)
        → refresh lib settings 2 other_id response.access_token s'
          ≡ (denied (codes "invalid refresh token type"), s'))
unfolding text_beq
tokens_kept_apart_example =
    tokens_kept_apart lib settings 1 (codes "j1") (codes "s1") ann repository 2 (λ valid. refl)
      (λ valid. refl) (omega arith) (omega arith)
