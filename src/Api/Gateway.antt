-- ===== src/Api/Gateway.antt =====
-- On app/middleware/auth_context.py and app/api/v1/auth.py: who a request is authenticated as, and
-- what the endpoints leave behind when they refuse.
mod Tests
use ochestrate.Base.{
  ℕ, ◌+◌, ◌*◌, ◌<◌, ◌≡◌, refl, arith, ap, sym, ◌∙◌, Bool, true, false, Option, none, some, List, [],
  ◌∷◌, ◌++◌, if◌then◌else◌, text_beq,
}
use mathlib.Core.Path.{subst}
use ochestrate.Text.{Text, text_eq, codes, is_empty, strip, starts_with}
use ochestrate.Dict.{lookup}
use ochestrate.Auth.Repository.{AuthRepository, UserRecord, get_user_by_username}
use ochestrate.Auth.Service.Data.{
  Library, Settings, Claims, int, LoginResponse, AuthContext, Result, ok, denied, Grant,
}
use ochestrate.Auth.Service.{
  access_claims, refresh_claims, check_login, login, issue_for, issue_tokens, decode_access_token,
  is_kind, text_claim,
}
use ochestrate.Auth.Service.Access.{tokens_kept_apart}
use ochestrate.Auth.Service.Login.{MayLogin, check_login-MayLogin}
use ochestrate.Api.{Response, returned, refused, HttpError}
use ochestrate.Api.Sessions.{
  behind_space, or_no_context, context_of, authenticate, login_outcome, post_login,
}

abbrev pub bearer : Text → Text
bearer token = codes "Bearer " ++ token

-- a text that stands in a header as it is
pub record Plain (token : Text) : Type 0 where
  pub stripped : strip token ≡ token
  pub not_empty : is_empty token ≡ false

-- the context that an access token of a user says
abbrev pub context_for : UserRecord → Text → ℕ → AuthContext
context_for user session_id exp = record {
  tenant_id = user.tenant_id;
  user_id = user.user_id;
  role = user.role;
  session_id = session_id;
  token_exp = exp;
}

returned_inj {ℓ} : {A : Type ℓ} {a b : A} → returned a ≡ returned b → a ≡ b
returned_inj h = cc

refused_returned {ℓ} : {A : Type ℓ} {a : A} {e : HttpError} → refused e ≡ returned a → ⊥
refused_returned h = cc

module _ (lib : Library) (lower : Text → Text)
    (lowers : (t : Text) → starts_with (codes "bearer ") (lower (bearer t)) ≡ true) where
  -- A bearer token in the header is decoded as it stands.
  authenticate-bearer :
      (now : ℕ) (token : Text)
      → Plain token
      → authenticate lib lower now (bearer token) ≡ some (context_of lib now token)
  unfolding authenticate behind_space
  authenticate-bearer now token plain = rw (lowers token, plain.stripped) refl

  context_of_decoded :
      (now : ℕ) (token : Text) (r : Result AuthContext)
      → is_empty token ≡ false
      → decode_access_token lib now token ≡ r
      → context_of lib now token ≡ or_no_context r
  unfolding context_of
  context_of_decoded now token r given decoded = rw (given, decoded) refl

  module _ (settings : Settings) (now : ℕ) (session_id token_id : Text) (later : ℕ) where
    -- What is signed for a user is read back until it expires, and stands in a header as it is.
    pub record Signs (user : UserRecord) : Type 0 where
      pub access_reads :
          later < now + settings.access_ttl * 60
          → lib.decode later
              (lib.encode (access_claims lib user session_id (now + settings.access_ttl * 60)))
            ≡ some (access_claims lib user session_id (now + settings.access_ttl * 60))
      pub refresh_reads :
          later < now + settings.refresh_ttl * 86400
          → lib.decode later (
              lib.encode
                (refresh_claims lib user session_id token_id (now + settings.refresh_ttl * 86400)))
            ≡ some
                (refresh_claims lib user session_id token_id (now + settings.refresh_ttl * 86400))
      pub access_plain :
          Plain (lib.encode (access_claims lib user session_id (now + settings.access_ttl * 60)))
      pub refresh_plain : Plain (
          lib.encode
            (refresh_claims lib user session_id token_id (now + settings.refresh_ttl * 86400)))

    -- the tokens of a response, and the user they are of
    pub record Signed (tenant_id username password : Text) (s : AuthRepository)
        (response : LoginResponse) : Type 0 where
      pub user : UserRecord
      pub may_login : MayLogin lib tenant_id username password s user
      pub by_access :
          authenticate lib lower later (bearer response.access_token)
          ≡ some (some (context_for user session_id (now + settings.access_ttl * 60)))
      pub not_by_refresh : authenticate lib lower later (bearer response.refresh_token) ≡ some none

    module _ (access_valid : later < now + settings.access_ttl * 60)
        (refresh_valid : later < now + settings.refresh_ttl * 86400)
        (tenant_id username password : Text) (s : AuthRepository)
        (signs : (user : UserRecord)
          → get_user_by_username tenant_id username s ≡ some user
          → Signs user) where
      issue_tokens-Signed :
          (user : UserRecord)
          → MayLogin lib tenant_id username password s user
          → Signed tenant_id username password s
              (issue_tokens lib settings now token_id user session_id s).0
      unfolding issue_tokens
      issue_tokens-Signed user may =
          let access = access_claims lib user session_id (now + settings.access_ttl * 60) in
          let renew =
            refresh_claims lib user session_id token_id (now + settings.refresh_ttl * 86400) in
          let signed = signs user may.found in
          let apart =
            tokens_kept_apart lib settings now token_id session_id user s later signed.access_reads
              signed.refresh_reads access_valid refresh_valid in
          record {
            user = user;
            may_login = may;
            by_access =
                authenticate-bearer later (lib.encode access) signed.access_plain
                ∙ ap (λ c. some c)
                    (context_of_decoded later (lib.encode access) _ signed.access_plain.not_empty
                      apart.0);
            not_by_refresh =
                authenticate-bearer later (lib.encode renew) signed.refresh_plain
                ∙ ap (λ c. some c)
                    (context_of_decoded later (lib.encode renew) _ signed.refresh_plain.not_empty
                      apart.1);
          }

      checked-Signed :
          (s' : AuthRepository) (response : LoginResponse) (r : Result UserRecord)
          → check_login lib tenant_id username password s ≡ r
          → login_outcome (issue_for lib settings now session_id token_id r s)
            ≡ (returned response, s')
          → Signed tenant_id username password s response
      unfolding login_outcome issue_for
      checked-Signed s' response (denied reason) e h = absurd (refused_returned (ap (λ p. p.0) h))
      checked-Signed s' response (ok user) e h =
          subst (Signed tenant_id username password s) (returned_inj (ap (λ p. p.0) h)) (
            issue_tokens-Signed user
              ((check_login-MayLogin lib tenant_id username password s user).0 e))

      -- A login that is answered is of a user who is found, active and has the password. Until they
      -- expire, where what is signed for that user is read back until then and stands in a header as
      -- it is: a request with the access token of the answer is authenticated as that user, and one
      -- with the refresh token is not authenticated.
      pub authenticate-post_login :
          (s' : AuthRepository) (response : LoginResponse)
          → post_login lib settings now session_id token_id tenant_id username password s
            ≡ (returned response, s')
          → Signed tenant_id username password s response
      unfolding post_login login
      authenticate-post_login s' response h =
          checked-Signed s' response (check_login lib tenant_id username password s) refl h
