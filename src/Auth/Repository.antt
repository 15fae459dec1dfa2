-- ===== src/Auth/Repository.antt =====
-- app/storage/repositories/auth_repo.py in its memory mode: the dict of users, keyed by tenant and
-- user name, and the dict of refresh tokens. Times are seconds; identifiers come from `uuid4`.
use ochestrate.Base.{
  ℕ, Bool, true, ◌&&◌, ◌≡◌, ◌↔◌, arith, Option, none, some, List, [], ◌∷◌, keep, Eq, ◌==◌, leb,
  text_beq, text_beq_iff, if◌then◌else◌,
}
use ochestrate.Text.{Text, text_eq, codes, is_empty}
use ochestrate.Dict.{Dict, lookup, insert, values}

unfoldable pub pair_beq : Text × Text → Text × Text → Bool
pair_beq (a, b) (c, d) = text_beq a c && text_beq b d

pub pair_beq_iff : (x y : Text × Text) → (pair_beq x y ≡ true) ↔ (x ≡ y)
unfolding pair_beq
pair_beq_iff (a, b) (c, d) = (
  λ h. ground (arith, text_beq_iff a c, text_beq_iff b d),
  λ e. ground (arith, text_beq_iff a c, text_beq_iff b d),
)

instance abbrev pub pair_eq : Eq (Text × Text)
pair_eq = record { beq = pair_beq; beq_iff = pair_beq_iff }

pub record UserRecord : Type 0 where
  pub tenant_id : Text
  pub user_id : Text
  pub username : Text
  pub role : Text
  pub status : Text
  pub password_hash : Text
  pub created_at : ℕ

pub record RefreshRow : Type 0 where
  pub tenant_id : Text
  pub user_id : Text
  pub session_id : Text
  pub refresh_token_hash : Text
  pub expires_at : ℕ
  pub revoked : Bool

pub record AuthRepository : Type 0 where
  pub users : Dict (Text × Text) UserRecord
  pub refresh : Dict Text RefreshRow

-- `AuthRepository.is_empty`
unfoldable pub no_users : AuthRepository → Bool
no_users s = is_empty s.users

-- `AuthRepository.create_user` at the time `now`
unfoldable pub create_user :
    Text → ℕ → Text → Text → Text → Text → Text → AuthRepository → UserRecord × AuthRepository
create_user user_id now tenant_id username password_hash role status s =
    let user : UserRecord = record {
      tenant_id = tenant_id;
      user_id = user_id;
      username = username;
      role = role;
      status = status;
      password_hash = password_hash;
      created_at = now;
    } in
    (user, record s { users = insert (tenant_id, username) user s.users })

-- `AuthRepository.get_user_by_username`
unfoldable pub get_user_by_username : Text → Text → AuthRepository → Option UserRecord
get_user_by_username tenant_id username s = lookup (tenant_id, username) s.users

-- the test of the loops over the users
abbrev pub is_user : Text → Text → UserRecord → Bool
is_user tenant_id user_id r = r.tenant_id == tenant_id && (r.user_id == user_id)

unfoldable pub find_user : Text → Text → List UserRecord → Option UserRecord
find_user tenant_id user_id [] = none
find_user tenant_id user_id (r ∷ rs) =
    if is_user tenant_id user_id r then some r else find_user tenant_id user_id rs

-- `AuthRepository.get_user_by_id`
unfoldable pub get_user_by_id : Text → Text → AuthRepository → Option UserRecord
unfolding find_user
get_user_by_id tenant_id user_id s = find_user tenant_id user_id (values s.users)

-- `AuthRepository.list_users`
unfoldable pub list_users : Text → AuthRepository → List UserRecord
list_users tenant_id s = keep (λ r. r.tenant_id == tenant_id) (values s.users)

-- `value or default` for an optional string
abbrev pub or_else : Option Text → Text → Text
or_else none old = old
or_else (some []) old = old
or_else (some (c ∷ cs)) old = c ∷ cs

-- the first user of the loop in `update_user` is replaced
unfoldable pub replace_user :
    Text → Text → Text → Text → Text → Dict (Text × Text) UserRecord → Dict (Text × Text) UserRecord
replace_user tenant_id user_id role status hash [] = []
replace_user tenant_id user_id role status hash ((key, r) ∷ d) =
    if is_user tenant_id user_id r
    then (key, record r { role = role; status = status; password_hash = hash }) ∷ d
    else (key, r) ∷ replace_user tenant_id user_id role status hash d

unfoldable pub update_found :
    Text
    → Text
    → Option Text
    → Option Text
    → Option Text
    → Option UserRecord
    → AuthRepository
    → Option UserRecord × AuthRepository
update_found tenant_id user_id role status password_hash none s = (none, s)
update_found tenant_id user_id role status password_hash (some current) s =
    let next_role = or_else role current.role in
    let next_status = or_else status current.status in
    let next_hash = or_else password_hash current.password_hash in
    (
      some (record current { role = next_role; status = next_status; password_hash = next_hash }),
      record s { users = replace_user tenant_id user_id next_role next_status next_hash s.users },
    )

-- `AuthRepository.update_user`
unfoldable pub update_user :
    Text
    → Text
    → Option Text
    → Option Text
    → Option Text
    → AuthRepository
    → Option UserRecord × AuthRepository
unfolding update_found
update_user tenant_id user_id role status password_hash s =
    update_found tenant_id user_id role status password_hash (get_user_by_id tenant_id user_id s) s

-- `AuthRepository.store_refresh_token`
unfoldable pub store_refresh_token : Text → RefreshRow → AuthRepository → AuthRepository
store_refresh_token token_id row s = record s { refresh = insert token_id row s.refresh }

-- `AuthRepository.get_refresh_token`
unfoldable pub get_refresh_token : Text → AuthRepository → Option RefreshRow
get_refresh_token token_id s = lookup token_id s.refresh

unfoldable pub revoke_found : Text → Option RefreshRow → AuthRepository → AuthRepository
revoke_found token_id none s = s
revoke_found token_id (some row) s = record s {
  refresh = insert token_id (record row { revoked = true }) s.refresh;
}

-- `AuthRepository.revoke_refresh_token`
unfoldable pub revoke_refresh_token : Text → AuthRepository → AuthRepository
unfolding revoke_found
revoke_refresh_token token_id s = revoke_found token_id (lookup token_id s.refresh) s

unfoldable pub drop_expired : ℕ → Dict Text RefreshRow → Dict Text RefreshRow
drop_expired now [] = []
drop_expired now ((token_id, row) ∷ d) =
    let rest = drop_expired now d in if leb row.expires_at now then rest else (token_id, row) ∷ rest

-- `AuthRepository.cleanup_expired_refresh_tokens`
unfoldable pub cleanup_expired_refresh_tokens : ℕ → AuthRepository → AuthRepository
unfolding drop_expired
cleanup_expired_refresh_tokens now s = record s { refresh = drop_expired now s.refresh }

-- `AuthRepository.refresh_token_expired`
abbrev pub refresh_token_expired : ℕ → ℕ → Bool
refresh_token_expired now expires_at = leb expires_at now

pub data Bootstrap : Type 0 where
  admin : UserRecord → Bootstrap
  disabled : Bootstrap

unfoldable pub bootstrap_found :
    Text → ℕ → Text → Text → Text → Option UserRecord → AuthRepository → Bootstrap × AuthRepository
bootstrap_found user_id now tenant_id username password_hash (some existing) s = (admin existing, s)
bootstrap_found user_id now tenant_id username password_hash none s =
    if no_users s
    then (let (user, s') =
          create_user user_id now tenant_id username password_hash (codes "admin") (codes "active")
            s in
        (admin user, s'))
    else (disabled, s)

-- `AuthRepository.create_bootstrap_admin_if_needed`; `disabled` is its `PermissionError`.
unfoldable pub create_bootstrap_admin_if_needed :
    Text → ℕ → Text → Text → Text → AuthRepository → Bootstrap × AuthRepository
unfolding bootstrap_found
create_bootstrap_admin_if_needed user_id now tenant_id username password_hash s =
    bootstrap_found user_id now tenant_id username password_hash
      (get_user_by_username tenant_id username s) s
