-- ===== src/Auth/Service/Login.antt =====
-- On app/auth/service.py: who can log in, and what a login leaves behind.
use ochestrate.Base.{ℕ, ◌≡◌, ◌↔◌, refl, arith, true, false, some}
use ochestrate.Text.{Text, text_eq, codes}
use ochestrate.Auth.Repository.{AuthRepository, UserRecord, get_user_by_username}
use ochestrate.Auth.Password.{verify_password}
use ochestrate.Auth.Service.Data.{Library, Settings, LoginResponse, Result, ok, denied, differs}
use ochestrate.Auth.Service.{check_login, login, issue_for, issue_tokens}

differs_iff : (a b : Text) → (differs a b ≡ false) ↔ (a ≡ b)
differs_iff a b =
    (λ h. ground (arith, text_eq.beq_iff a b), λ e. ground (arith, text_eq.beq_iff a b))

-- What the checks of `login` ask of the user that they find.
pub record MayLogin (lib : Library) (tenant_id username password : Text) (s : AuthRepository)
    (user : UserRecord) : Type 0 where
  pub found : get_user_by_username tenant_id username s ≡ some user
  pub active : user.status ≡ codes "active"
  pub verified : verify_password lib.pbkdf2 lib.parse_int password user.password_hash ≡ true

module _ (lib : Library) (tenant_id username password : Text) (s : AuthRepository) where
  -- The checks of a login pass with a user exactly if that user is found by tenant and name, is
  -- active, and has the hash of the password.
  pub check_login-MayLogin :
      (user : UserRecord)
      → (check_login lib tenant_id username password s ≡ ok user)
        ↔ MayLogin lib tenant_id username password s user
  unfolding check_login
  check_login-MayLogin user = (
    λ h. record {
      found = ground arith;
      active = ground (arith, text_eq.beq_iff user.status (codes "active"));
      verified = ground arith;
    },
    λ p. ground (arith, text_eq.beq_iff user.status (codes "active")),
  )

  -- The response is about that user, and its tokens are of that session.
  pub record Answers (session_id : Text) (user : UserRecord) (response : LoginResponse)
      : Type 0 where
    pub same_tenant : response.tenant_id ≡ user.tenant_id
    pub same_user : response.user_id ≡ user.user_id
    pub same_role : response.role ≡ user.role
    pub same_session : response.session_id ≡ session_id

  -- What a login did, by how it ended.
  abbrev pub Ended : Text → Result LoginResponse × AuthRepository → Type 0
  Ended session_id (ok response, s') =
      (user : UserRecord) × MayLogin lib tenant_id username password s user
      × Answers session_id user response
  Ended session_id (denied reason, s') =
      (s' ≡ s) × ((user : UserRecord) → ¬ MayLogin lib tenant_id username password s user)

  issue_for-Ended :
      (settings : Settings) (now : ℕ) (session_id token_id : Text) (r : Result UserRecord)
      → check_login lib tenant_id username password s ≡ r
      → Ended session_id (issue_for lib settings now session_id token_id r s)
  unfolding issue_for issue_tokens
  issue_for-Ended settings now session_id token_id (denied reason) e =
      (refl, λ user may. cc (e, (check_login-MayLogin user).1 may))
  issue_for-Ended settings now session_id token_id (ok user) e = (
    user,
    (check_login-MayLogin user).0 e,
    record { same_tenant = refl; same_user = refl; same_role = refl; same_session = refl },
  )

  -- A login that succeeds is of a user who is found, active and has the password, and answers for
  -- that user; one that is refused leaves the repository alone, and there is no such user.
  pub login-Ended :
      (settings : Settings) (now : ℕ) (session_id token_id : Text)
      → Ended session_id (login lib settings now session_id token_id tenant_id username password s)
  unfolding login
  login-Ended settings now session_id token_id =
      issue_for-Ended settings now session_id token_id
        (check_login lib tenant_id username password s) refl
