-- ===== src/Auth/Service/Users.antt =====
-- The users' side of `AuthService` in app/auth/service.py: passwords are hashed with the bytes that
-- `os.urandom` gives, here `salt`, before the repository sees them.
use ochestrate.Base.{
  ℕ, ◌<◌, ◌≡◌, refl, arith, Bool, true, false, Option, none, some, List, [], ◌∷◌, All, text_beq,
  if◌then◌else◌,
}
use ochestrate.Text.{Text, text_eq, codes}
use ochestrate.Dict.{lookup-insert_self}
use ochestrate.Auth.Repository.{
  AuthRepository, UserRecord, Bootstrap, get_user_by_username, pair_eq,
}
use ochestrate.Auth.Repository
use ochestrate.Auth.Password.{hash_password, verify_password, verify-hash_password}
use ochestrate.Auth.Service.Data.{Library, ok, denied}
use ochestrate.Auth.Service.{check_login}

module _ (lib : Library) (salt : List ℕ) where
  abbrev pub hashed : Text → Text
  hashed password = hash_password lib.pbkdf2 lib.parse_int salt password

  -- `AuthService.create_user`, with the identifier and the time of the repository's
  unfoldable pub create_user :
      Text → ℕ → Text → Text → Text → Text → Text → AuthRepository → UserRecord × AuthRepository
  create_user user_id now tenant_id username password role status s =
      Repository.create_user user_id now tenant_id username (hashed password) role status s

  -- `self.hash_password(password) if password else None`
  abbrev pub hashed_if_given : Option Text → Option Text
  hashed_if_given none = none
  hashed_if_given (some []) = none
  hashed_if_given (some (c ∷ cs)) = some (hashed (c ∷ cs))

  -- `AuthService.update_user`
  unfoldable pub update_user :
      Text
      → Text
      → Option Text
      → Option Text
      → Option Text
      → AuthRepository
      → Option UserRecord × AuthRepository
  update_user tenant_id user_id role status password s =
      Repository.update_user tenant_id user_id role status (hashed_if_given password) s

  -- `AuthService.list_users`
  unfoldable pub list_users : Text → AuthRepository → List UserRecord
  list_users tenant_id s = Repository.list_users tenant_id s

  -- `AuthService.bootstrap_admin_if_needed`
  unfoldable pub bootstrap_admin_if_needed :
      Text → ℕ → Text → Text → Text → AuthRepository → Bootstrap × AuthRepository
  bootstrap_admin_if_needed user_id now tenant_id username password s =
      Repository.create_bootstrap_admin_if_needed user_id now tenant_id username (hashed password) s

  checked :
      (user : UserRecord) (attempt tenant_id username : Text) (s : AuthRepository) (b : Bool)
      → get_user_by_username tenant_id username s ≡ some user
      → user.status ≡ codes "active"
      → verify_password lib.pbkdf2 lib.parse_int attempt user.password_hash ≡ b
      → check_login lib tenant_id username attempt s
        ≡ (if b then ok user else denied (codes "invalid username or password"))
  unfolding check_login
  checked user attempt tenant_id username s true found active verified =
      ground (arith, text_eq.beq_iff user.status (codes "active"))
  checked user attempt tenant_id username s false found active verified =
      ground (arith, text_eq.beq_iff user.status (codes "active"))

  -- Where `int` reads the rounds and PBKDF2 gives bytes: a user who is created as active can log in
  -- with every text that has the derived key of the password, and with no other.
  check_login-create_user :
      (user_id : Text) (now : ℕ) (tenant_id username password role attempt : Text)
      (s : AuthRepository)
      → lib.parse_int (codes "120000") ≡ some 120000
      → All (λ b. b < 256) salt
      → All (λ b. b < 256) (lib.pbkdf2 password salt 120000)
      → let (user, s') =
          create_user user_id now tenant_id username password role (codes "active") s in
        check_login lib tenant_id username attempt s' ≡ (
          if text_beq (lib.pbkdf2 attempt salt 120000) (lib.pbkdf2 password salt 120000)
          then ok user
          else denied (codes "invalid username or password"))
  unfolding create_user Repository.create_user get_user_by_username
  check_login-create_user user_id now tenant_id username password role attempt s reads hs hd =
      checked _ attempt tenant_id username _ _ (lookup-insert_self (tenant_id, username) _ s.users)
        refl (verify-hash_password lib.pbkdf2 lib.parse_int salt password attempt reads hs hd)
