-- ===== src/Auth/Database.antt =====
-- app/storage/repositories/auth_repo.py in its database mode, over the tables of users and of refresh
-- tokens, which SQLAlchemy keeps. Times of the database are seconds, too: it has them without the
-- zone, which is UTC.
use ochestrate.Base.{
  ℕ, Bool, true, false, Option, none, some, List, ◌==◌, ◌&&◌, ◌||◌, keep, map, leb, if◌then◌else◌,
}
use ochestrate.Text.{Text, text_eq, codes, is_empty}
use ochestrate.Storage.Rows.{first, map_option}
use ochestrate.Storage.Table.{within, text_room, Stored, Table, test, assign}
use ochestrate.Auth.Repository.{UserRecord, RefreshRow, or_else, Bootstrap, admin, disabled}

-- `UserCredentialORM`
pub record UserRow : Type 0 where
  pub tenant_id : Text
  pub user_id : Text
  pub username : Text
  pub password_hash : Text
  pub role : Text
  pub status : Text

-- the row that is made of these columns
abbrev pub user_row : Text → Text → Text → Text → Text → Text → UserRow
user_row tenant_id user_id username password_hash role status = record {
  tenant_id = tenant_id;
  user_id = user_id;
  username = username;
  password_hash = password_hash;
  role = role;
  status = status;
}

-- `RefreshTokenORM`
pub record TokenRow : Type 0 where
  pub token_id : Text
  pub tenant_id : Text
  pub user_id : Text
  pub session_id : Text
  pub refresh_token_hash : Text
  pub expires_at : ℕ
  pub revoked : Bool

-- the lengths of the columns
unfoldable pub fits_user : UserRow → Bool
fits_user row =
    within 64 row.tenant_id
    && within 64 row.user_id
    && within 128 row.username
    && within 32 row.role
    && within 32 row.status
    && within text_room row.password_hash

unfoldable pub fits_token : TokenRow → Bool
fits_token row =
    within 64 row.token_id
    && within 64 row.tenant_id
    && within 64 row.user_id
    && within 64 row.session_id
    && within text_room row.refresh_token_hash

-- the conditions of the queries on users
abbrev pub is_named : Text → Text → UserRow → Bool
is_named tenant_id username row = row.tenant_id == tenant_id && (row.username == username)

abbrev pub has_id : Text → Text → UserRow → Bool
has_id tenant_id user_id row = row.tenant_id == tenant_id && (row.user_id == user_id)

-- the unique constraints `uk_user_credentials` and `uk_user_credentials_user_id`
abbrev pub same_credential : UserRow → UserRow → Bool
same_credential a b = is_named a.tenant_id a.username b || has_id a.tenant_id a.user_id b

-- the condition of the queries on refresh tokens
abbrev pub names_token : Text → TokenRow → Bool
names_token token_id row = row.token_id == token_id

-- the unique column `token_id`
abbrev pub same_token : TokenRow → TokenRow → Bool
same_token a b = names_token a.token_id b

-- `AuthRepository._as_user_record`
abbrev pub as_user_record : Stored UserRow → UserRecord
as_user_record r = record {
  tenant_id = r.columns.tenant_id;
  user_id = r.columns.user_id;
  username = r.columns.username;
  role = r.columns.role;
  status = r.columns.status;
  password_hash = r.columns.password_hash;
  created_at = r.created_at;
}

-- the assignments of `update_user` to the row
abbrev pub set_user : Text → Text → Text → UserRow → UserRow
set_user role status password_hash row = record row {
  role = role;
  status = status;
  password_hash = password_hash;
}

-- the assignment of `revoke_refresh_token` to the row
abbrev pub set_revoked : TokenRow → TokenRow
set_revoked row = record row { revoked = true }

-- the dict that `get_refresh_token` makes of a row
abbrev pub token_fields : TokenRow → RefreshRow
token_fields row = record {
  tenant_id = row.tenant_id;
  user_id = row.user_id;
  session_id = row.session_id;
  refresh_token_hash = row.refresh_token_hash;
  expires_at = row.expires_at;
  revoked = row.revoked;
}

-- the row that `store_refresh_token` adds
abbrev pub token_row : Text → RefreshRow → TokenRow
token_row token_id fields = record {
  token_id = token_id;
  tenant_id = fields.tenant_id;
  user_id = fields.user_id;
  session_id = fields.session_id;
  refresh_token_hash = fields.refresh_token_hash;
  expires_at = fields.expires_at;
  revoked = false;
}

module _ {S : Type 0} (T : Table UserRow S) where
  -- `AuthRepository.is_empty`
  unfoldable pub no_users_in : S → Bool
  no_users_in s = is_empty (T.rows s)

  -- `AuthRepository.create_user`, at a time of the server; none is its `IntegrityError` or `DataError`.
  unfoldable pub create_user_in :
      Text → ℕ → Text → Text → Text → Text → Text → S → Option (UserRecord × S)
  create_user_in user_id now tenant_id username password_hash role status s =
      let row : UserRow = record {
        tenant_id = tenant_id;
        user_id = user_id;
        username = username;
        password_hash = password_hash;
        role = role;
        status = status;
      } in
      map_option (λ s'. (as_user_record (record { created_at = now; columns = row }), s'))
        (T.add now row s)

  -- `AuthRepository.get_user_by_username`
  unfoldable pub get_user_by_username_in : Text → Text → S → Option UserRecord
  get_user_by_username_in tenant_id username s =
      map_option as_user_record (first (test (is_named tenant_id username)) (T.rows s))

  -- `AuthRepository.get_user_by_id`
  unfoldable pub get_user_by_id_in : Text → Text → S → Option UserRecord
  get_user_by_id_in tenant_id user_id s =
      map_option as_user_record (first (test (has_id tenant_id user_id)) (T.rows s))

  -- `AuthRepository.list_users`
  unfoldable pub list_users_in : Text → S → List UserRecord
  list_users_in tenant_id s =
      map as_user_record
        (T.newest_first (keep (test (λ row. row.tenant_id == tenant_id)) (T.rows s)))

  unfoldable pub write_user :
      Text → Text → Text → Text → Text → Option (Stored UserRow) → S → Option UserRecord × S
  write_user tenant_id user_id role status password_hash none s = (none, s)
  write_user tenant_id user_id role status password_hash (some row) s = (
    some (as_user_record (assign (set_user role status password_hash) row)),
    T.write (has_id tenant_id user_id) (set_user role status password_hash) s,
  )

  unfoldable pub update_current :
      Text
      → Text
      → Option Text
      → Option Text
      → Option Text
      → Option UserRecord
      → S
      → Option UserRecord × S
  unfolding write_user
  update_current tenant_id user_id role status password_hash none s = (none, s)
  update_current tenant_id user_id role status password_hash (some current) s =
      write_user tenant_id user_id (or_else role current.role) (or_else status current.status)
        (or_else password_hash current.password_hash)
        (first (test (has_id tenant_id user_id)) (T.rows s)) s

  -- `AuthRepository.update_user`
  unfoldable pub update_user_in :
      Text → Text → Option Text → Option Text → Option Text → S → Option UserRecord × S
  unfolding get_user_by_id_in update_current
  update_user_in tenant_id user_id role status password_hash s =
      update_current tenant_id user_id role status password_hash
        (get_user_by_id_in tenant_id user_id s) s

  unfoldable pub bootstrap_current :
      Text → ℕ → Text → Text → Text → Option UserRecord → S → Option (Bootstrap × S)
  unfolding create_user_in no_users_in
  bootstrap_current user_id now tenant_id username password_hash (some existing) s =
      some (admin existing, s)
  bootstrap_current user_id now tenant_id username password_hash none s =
      if no_users_in s
      then map_option (λ made. (admin made.0, made.1))
          (create_user_in user_id now tenant_id username password_hash (codes "admin")
            (codes "active") s)
      else some (disabled, s)

  -- `AuthRepository.create_bootstrap_admin_if_needed`; none is an `IntegrityError` or a
  -- `DataError`.
  unfoldable pub create_bootstrap_admin_in :
      Text → ℕ → Text → Text → Text → S → Option (Bootstrap × S)
  unfolding get_user_by_username_in bootstrap_current
  create_bootstrap_admin_in user_id now tenant_id username password_hash s =
      bootstrap_current user_id now tenant_id username password_hash
        (get_user_by_username_in tenant_id username s) s

module _ {S : Type 0} (T : Table TokenRow S) where
  -- `AuthRepository.store_refresh_token`; none is its `IntegrityError` or `DataError`.
  unfoldable pub store_refresh_token_in : ℕ → Text → RefreshRow → S → Option S
  store_refresh_token_in now token_id fields s = T.add now (token_row token_id fields) s

  -- `AuthRepository.get_refresh_token`
  unfoldable pub get_refresh_token_in : Text → S → Option RefreshRow
  get_refresh_token_in token_id s =
      map_option (λ r. token_fields r.columns) (first (test (names_token token_id)) (T.rows s))

  unfoldable pub revoke_row : Text → Option (Stored TokenRow) → S → S
  revoke_row token_id none s = s
  revoke_row token_id (some row) s = T.write (names_token token_id) set_revoked s

  -- `AuthRepository.revoke_refresh_token`
  unfoldable pub revoke_refresh_token_in : Text → S → S
  unfolding revoke_row
  revoke_refresh_token_in token_id s =
      revoke_row token_id (first (test (names_token token_id)) (T.rows s)) s

  -- `AuthRepository.cleanup_expired_refresh_tokens`
  unfoldable pub cleanup_expired_in : ℕ → S → S
  cleanup_expired_in now s = T.erase (λ row. leb row.expires_at now) s
