-- ===== src/Auth/UserRows.antt =====
-- On the users of app/storage/repositories/auth_repo.py: the table of users under the operations of
-- the database mode, beside the dict of the memory mode.
use ochestrate.Base.{
  ap, sym, ◌∙◌, ◌≡◌, refl, some, Bool, List, [], ◌∷◌, map, keep, ◌==◌, inl, inr, Bool-cases,
  count_if, if◌then◌else◌,
}
use ochestrate.Text.{Text, text_eq}
use ochestrate.Dict.{Dict, values}
use ochestrate.Storage.Rows.{first, first-map, keep-map, count_if-map, change_first}
use ochestrate.Storage.Keyed.{IsKeyed, lookup-first}
use ochestrate.Storage.Table.{Table, test, IsLawful}
use ochestrate.Auth.Repository.{
  UserRecord, AuthRepository, pair_eq, pair_beq, get_user_by_username, is_user, find_user,
  get_user_by_id, list_users, replace_user,
}
use ochestrate.Auth.Database.{
  fits_user, UserRow, same_credential, as_user_record, get_user_by_username_in, get_user_by_id_in,
  list_users_in,
}

abbrev pub name_of : UserRecord → Text × Text
name_of u = (u.tenant_id, u.username)

-- the assignments to a user in memory
abbrev pub set_record : Text → Text → Text → UserRecord → UserRecord
set_record role status hash u = record u { role = role; status = status; password_hash = hash }

find_user-first : (t u : Text) (xs : List UserRecord) → find_user t u xs ≡ first (is_user t u) xs
unfolding find_user first
find_user-first t u [] = refl
find_user-first t u (x ∷ xs) =
    ap (λ rest. if is_user t u x then some x else rest) (find_user-first t u xs)

pub values-replace_user :
    (t u role status hash : Text) (d : Dict (Text × Text) UserRecord)
    → values (replace_user t u role status hash d)
      ≡ change_first (is_user t u) (set_record role status hash) (values d)
unfolding values replace_user change_first
values-replace_user t u role status hash [] = refl
values-replace_user t u role status hash ((k, r) ∷ d) = elim (Bool-cases (is_user t u r)) [
  | inl it ↦ rw (it, replace_user, change_first, values)
  | inr other ↦
      rw (other, replace_user, change_first, values)
        (ap (λ vs. r ∷ vs) (values-replace_user t u role status hash d))
]

pub replace_user-IsKeyed :
    (t u role status hash : Text) (d : Dict (Text × Text) UserRecord)
    → IsKeyed name_of d
    → IsKeyed name_of (replace_user t u role status hash d)
unfolding replace_user
replace_user-IsKeyed t u role status hash [] h = tt
replace_user-IsKeyed t u role status hash ((k, r) ∷ d) h = elim (Bool-cases (is_user t u r)) [
  | inl it ↦ rw (it, replace_user) (h.0, h.1)
  | inr other ↦ rw (other, replace_user) (h.0, replace_user-IsKeyed t u role status hash d h.1)
]

module _ {S : Type 0} (T : Table UserRow S) where
  -- The table has the users of the dict, in the order of the dict.
  pub record Agrees (repo : AuthRepository) (s : S) : Type 0 where
    pub keyed : IsKeyed name_of repo.users
    pub same_users : map as_user_record (T.rows s) ≡ values repo.users

  pub get_user_by_username-modes :
      (tenant_id username : Text) (repo : AuthRepository) (s : S)
      → Agrees repo s
      → get_user_by_username_in T tenant_id username s
        ≡ get_user_by_username tenant_id username repo
  unfolding get_user_by_username_in get_user_by_username pair_beq
  get_user_by_username-modes tenant_id username repo s h =
      sym (first-map as_user_record (λ u. name_of u == (tenant_id, username)) (T.rows s))
      ∙ ap (first (λ u. name_of u == (tenant_id, username))) h.same_users
      ∙ sym (lookup-first name_of (tenant_id, username) repo.users h.keyed)

  pub get_user_by_id-modes :
      (tenant_id user_id : Text) (repo : AuthRepository) (s : S)
      → Agrees repo s
      → get_user_by_id_in T tenant_id user_id s ≡ get_user_by_id tenant_id user_id repo
  unfolding get_user_by_id_in get_user_by_id
  get_user_by_id-modes tenant_id user_id repo s h =
      sym (first-map as_user_record (is_user tenant_id user_id) (T.rows s))
      ∙ ap (first (is_user tenant_id user_id)) h.same_users
      ∙ sym (find_user-first tenant_id user_id (values repo.users))

module _ {S : Type 0} (T : Table UserRow S) (law : IsLawful fits_user same_credential T) where
  pub count-list_users :
      (p : UserRecord → Bool) (tenant_id : Text) (repo : AuthRepository) (s : S)
      → Agrees T repo s
      → count_if p (list_users_in T tenant_id s) ≡ count_if p (list_users tenant_id repo)
  unfolding list_users_in list_users
  count-list_users p tenant_id repo s h =
      count_if-map as_user_record p (T.newest_first _)
      ∙ law.count-newest_first (λ r. p (as_user_record r)) _
      ∙ sym (
          count_if-map as_user_record p
            (keep (test (λ row. row.tenant_id == tenant_id)) (T.rows s)))
      ∙ ap (count_if p) (
          sym (keep-map as_user_record (λ u. u.tenant_id == tenant_id) (T.rows s))
          ∙ ap (keep (λ u. u.tenant_id == tenant_id)) h.same_users)
