-- ===== src/Auth/UserWrites.antt =====
-- On the users of app/storage/repositories/auth_repo.py: an operation that writes leaves the table of
-- the database mode in agreement with the dict of the memory mode, and both answer alike.
use mathlib.Core.List.{map-append}
use ochestrate.Base.{
  ap, sym, ◌∙◌, ◌≡◌, refl, Option, none, some, ℕ, Bool, true, false, List, [], ◌∷◌, ◌++◌, map, any,
  ◌||◌, inl, inr, Option-cases, Bool-cases, arith,
}
use ochestrate.Text.{Text, text_eq, is_empty, codes}
use ochestrate.Dict.{Dict, values}
use ochestrate.Storage.Rows.{
  first, map_option, first-map, any-none, change_found, change_first-map, change_first,
}
use ochestrate.Storage.Keyed.{values-insert_new, insert-IsKeyed}
use ochestrate.Storage.Table.{Stored, Table, Keeps, within, text_room, test, assign, IsLawful}
use ochestrate.Auth.Repository.{
  UserRecord, AuthRepository, pair_eq, no_users, create_user, get_user_by_username, is_user,
  find_user, get_user_by_id, replace_user, update_found, update_user, bootstrap_found,
  create_bootstrap_admin_if_needed,
}
use ochestrate.Auth.Database.{
  UserRow, is_named, has_id, fits_user, user_row, same_credential, as_user_record, set_user,
  no_users_in, create_user_in, get_user_by_username_in, get_user_by_id_in, write_user,
  update_current, update_user_in, bootstrap_current, create_bootstrap_admin_in,
}
use ochestrate.Auth.Calls.{HasRoom}
use ochestrate.Auth.UserRows.{
  name_of, set_record, values-replace_user, replace_user-IsKeyed, Agrees,
  get_user_by_username-modes, get_user_by_id-modes,
}

nothing_found : (o : Option (Stored UserRow)) → map_option as_user_record o ≡ none → o ≡ none
nothing_found none e = refl
nothing_found (some r) e = absurd cc

-- A user whose new role and status have the room stays within the lengths of the columns.
Keeps-set_user :
    (role status hash : Text)
    → within 32 role ≡ true
    → within 32 status ≡ true
    → within text_room hash ≡ true
    → Keeps fits_user (set_user role status hash)
unfolding fits_user
Keeps-set_user role status hash role_fits status_fits hash_fits row h =
    ground (arith, role_fits, status_fits, hash_fits, h)

module _ {S : Type 0} (T : Table UserRow S) (law : IsLawful fits_user same_credential T) where
  any-either :
      (p q : Stored UserRow → Bool) (xs : List (Stored UserRow))
      → any p xs ≡ false
      → any q xs ≡ false
      → any (λ x. p x || q x) xs ≡ false
  any-either p q [] hp hq = refl
  any-either p q (x ∷ xs) hp hq = ground (arith, any-either p q xs)

  fresh_user :
      (row : UserRow) (repo : AuthRepository) (s : S)
      → Agrees T repo s
      → get_user_by_username row.tenant_id row.username repo ≡ none
      → get_user_by_id row.tenant_id row.user_id repo ≡ none
      → any (test (same_credential row)) (T.rows s) ≡ false
  unfolding get_user_by_username_in get_user_by_id_in
  fresh_user row repo s h no_name no_id =
      any-either (test (is_named row.tenant_id row.username))
        (test (has_id row.tenant_id row.user_id)) (T.rows s)
        (any-none _ _ (nothing_found _ (get_user_by_username-modes T _ _ repo s h ∙ no_name)))
        (any-none _ _ (nothing_found _ (get_user_by_id-modes T _ _ repo s h ∙ no_id)))

  -- A user whose name and identifier are new is created in both modes, and answered alike.
  pub create_user-Agrees :
      (user_id : Text) (now : ℕ) (tenant_id username hash role status : Text)
      (repo : AuthRepository) (s : S)
      → Agrees T repo s
      → get_user_by_username tenant_id username repo ≡ none
      → get_user_by_id tenant_id user_id repo ≡ none
      → fits_user (user_row tenant_id user_id username hash role status) ≡ true
      → let made = create_user user_id now tenant_id username hash role status repo in
        (s' : S) × (create_user_in T user_id now tenant_id username hash role status s
          ≡ some (made.0, s'))
        × Agrees T made.1 s'
  unfolding create_user_in create_user get_user_by_username
  create_user-Agrees user_id now tenant_id username hash role status repo s h no_name no_id fit =
      let row = user_row tenant_id user_id username hash role status in
      let stored : Stored UserRow = record { created_at = now; columns = row } in
      let (s', added, rows') = law.rows-add now row s fit (fresh_user row repo s h no_name no_id) in
      (
        s',
        ap (map_option _) added,
        record {
          keyed = insert-IsKeyed name_of (as_user_record stored) repo.users h.keyed;
          same_users =
              ap (map as_user_record) rows'
              ∙ map-append as_user_record (T.rows s) (stored ∷ [])
              ∙ ap (λ xs. xs ++ (as_user_record stored ∷ [])) h.same_users
              ∙ sym (
                  values-insert_new (tenant_id, username) (as_user_record stored) repo.users
                    no_name);
        },
      )

  kept_user :
      (role status hash t u : Text) (repo : AuthRepository) (s : S) {row : Stored UserRow}
      → Agrees T repo s
      → first (test (has_id t u)) (T.rows s) ≡ some row
      → Keeps fits_user (set_user role status hash)
      → Agrees T
          (record repo { users = replace_user t u role status hash repo.users })
          (T.write (has_id t u) (set_user role status hash) s)
  kept_user role status hash t u repo s {row} h it keeps = record {
    keyed = replace_user-IsKeyed t u role status hash repo.users h.keyed;
    same_users =
        ap (map as_user_record) (
          law.rows-write (has_id t u) (set_user role status hash) s (λ a b. refl) keeps
          ∙ change_found (test (has_id t u)) (assign (set_user role status hash)) (T.rows s) it)
        ∙ change_first-map as_user_record (is_user t u) (assign (set_user role status hash) row)
            (T.rows s)
        ∙ ap
            (change_first (is_user t u)
              (λ x. as_user_record (assign (set_user role status hash) row)))
            h.same_users
        ∙ sym (change_found (is_user t u) (set_record role status hash) (values repo.users) there)
        ∙ sym (values-replace_user t u role status hash repo.users);
  }
    where
      there : first (is_user t u) (values repo.users) ≡ some (as_user_record row)
      there =
          sym (ap (first (is_user t u)) h.same_users)
          ∙ first-map as_user_record (is_user t u) (T.rows s)
          ∙ ap (map_option as_user_record) it

  -- An update answers the same in both modes and is made in both.
  pub update_user-Agrees :
      (t u : Text) (role status hash : Option Text) (repo : AuthRepository) (s : S)
      → Agrees T repo s
      → HasRoom t u role status hash repo
      → let asked = update_user_in T t u role status hash s in
        let kept = update_user t u role status hash repo in
        (asked.0 ≡ kept.0) × Agrees T kept.1 asked.1
  unfolding update_user_in update_user update_current update_found write_user get_user_by_id_in
  update_user-Agrees t u role status hash repo s h room =
      let same = get_user_by_id-modes T t u repo s h in
      elim (Option-cases (first (test (has_id t u)) (T.rows s))) [
        | inl absent ↦
            let e : get_user_by_id t u repo ≡ none =
              sym same ∙ ap (map_option as_user_record) absent in
            rw (absent, e, update_current, update_found) (refl, h)
        | inr (row, it) ↦
            let e : get_user_by_id t u repo ≡ some (as_user_record row) =
              sym same ∙ ap (map_option as_user_record) it in
            rw (it, e, update_current, update_found, it, write_user)
              (
                refl,
                kept_user _ _ _ t u repo s h it
                    (Keeps-set_user _ _ _ (room _ e).0 (room _ e).1 (room _ e).2),
              )
      ]

  is_empty-map : (rows : List (Stored UserRow)) → is_empty rows ≡ is_empty (map as_user_record rows)
  is_empty-map [] = refl
  is_empty-map (r ∷ rows) = refl

  is_empty-values : (d : Dict (Text × Text) UserRecord) → is_empty (values d) ≡ is_empty d
  unfolding values
  is_empty-values [] = refl
  is_empty-values ((k, u) ∷ d) = refl

  no_users-modes :
      (repo : AuthRepository) (s : S) → Agrees T repo s → no_users_in T s ≡ no_users repo
  unfolding no_users_in no_users
  no_users-modes repo s h =
      is_empty-map (T.rows s) ∙ ap is_empty h.same_users ∙ is_empty-values repo.users

  -- Where there are no users, no user has an identifier.
  no_users-none :
      (d : Dict (Text × Text) UserRecord) (t u : Text)
      → is_empty d ≡ true
      → find_user t u (values d) ≡ none
  unfolding values find_user
  no_users-none [] t u h = refl
  no_users-none (p ∷ d) t u h = absurd cc

  -- The bootstrap finds, creates or refuses in both modes alike.
  pub create_bootstrap_admin-Agrees :
      (user_id : Text) (now : ℕ) (t n hash : Text) (repo : AuthRepository) (s : S)
      → Agrees T repo s
      → fits_user (user_row t user_id n hash (codes "admin") (codes "active")) ≡ true
      → let made = create_bootstrap_admin_if_needed user_id now t n hash repo in
        (s' : S) × (create_bootstrap_admin_in T user_id now t n hash s ≡ some (made.0, s'))
        × Agrees T made.1 s'
  unfolding create_bootstrap_admin_in create_bootstrap_admin_if_needed bootstrap_current
      bootstrap_found get_user_by_id no_users
  create_bootstrap_admin-Agrees user_id now t n hash repo s h fit =
      let same = get_user_by_username-modes T t n repo s h in
      elim (Option-cases (get_user_by_username t n repo)) [
        | inr (user, found) ↦ (
          s,
          rw (same, found, bootstrap_current, bootstrap_found) refl,
          rw (found, bootstrap_found) h,
        )
        | inl absent ↦ elim (Bool-cases (no_users repo)) [
          | inl nobody ↦
              let (s', made, h') =
                create_user-Agrees user_id now t n hash (codes "admin") (codes "active") repo s h
                  absent (no_users-none repo.users t user_id nobody) fit in
              (
                s',
                rw
                    (
                      same,
                      absent,
                      bootstrap_current,
                      bootstrap_found,
                      no_users-modes repo s h,
                      nobody,
                    )
                    (ap (map_option _) made),
                rw (absent, bootstrap_found, nobody) h',
              )
          | inr somebody ↦ (
            s,
            rw (same, absent, bootstrap_current, bootstrap_found, no_users-modes repo s h, somebody)
                refl,
            rw (absent, bootstrap_found, somebody) h,
          )
        ]
      ]
