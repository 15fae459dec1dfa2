-- ===== src/Auth/Service/Data.antt =====
-- app/auth/service.py and app/auth/schemas.py: claims, settings and answers, and how a refusal ends a
-- chain of checks.
use ochestrate.Base.{ℕ, Bool, true, false, Option, none, some, List, ◌==◌, if◌then◌else◌}
use ochestrate.Text.{Text, text_eq}
use ochestrate.Dict.{Dict}
use ochestrate.Auth.Repository.{UserRecord, RefreshRow}

-- The claims that the service puts into a token: texts, and the expiry.
pub data Claim : Type 0 where
  str : Text → Claim
  int : ℕ → Claim

abbrev pub Claims : Type 0
Claims = Dict Text Claim

pub record Library : Type 0 where
  pub pbkdf2 : Text → List ℕ → ℕ → List ℕ
  pub parse_int : Text → Option ℕ
  pub show_int : ℕ → Text
  pub hash_token : Text → Text
  pub encode : Claims → Text
  pub decode : ℕ → Text → Option Claims

pub record Settings : Type 0 where
  pub access_ttl : ℕ
  pub refresh_ttl : ℕ

pub record LoginResponse : Type 0 where
  pub access_token : Text
  pub refresh_token : Text
  pub expires_in : ℕ
  pub tenant_id : Text
  pub user_id : Text
  pub role : Text
  pub session_id : Text

pub record AuthContext : Type 0 where
  pub tenant_id : Text
  pub user_id : Text
  pub role : Text
  pub session_id : Text
  pub token_exp : ℕ

-- A result, or a `PermissionError` with its text.
pub data Result {ℓ} (A : Type ℓ) : Type ℓ where
  ok : A → Result A
  denied : Text → Result A

infixl 10 ◌>>=◌
abbrev pub ◌>>=◌ {ℓ κ} : {A : Type ℓ} {B : Type κ} → Result A → (A → Result B) → Result B
ok a >>= f = f a
denied reason >>= f = denied reason

infixl 10 ◌>>◌
abbrev pub ◌>>◌ {ℓ} : {B : Type ℓ} → Result (Unit {0}) → Result B → Result B
m >> k = m >>= λ _. k

abbrev pub refuse_if : Bool → Text → Result (Unit {0})
refuse_if true reason = denied reason
refuse_if false reason = ok tt

abbrev pub or_denied {ℓ} : {A : Type ℓ} → Option A → Text → Result A
or_denied none reason = denied reason
or_denied (some a) reason = ok a

abbrev pub differs : Text → Text → Bool
differs a b = if a == b then false else true

-- The identifier, the row and the user of a refresh token that passes the checks of `refresh`.
pub record Grant : Type 0 where
  pub token_id : Text
  pub row : RefreshRow
  pub user : UserRecord
