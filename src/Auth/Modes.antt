-- ===== src/Auth/Modes.antt =====
-- The two modes of app/storage/repositories/auth_repo.py, in memory and in the database, under one
-- sequence of calls.
use ochestrate.Base.{
  ap, sym, inl, inr, Option-cases, Bool-cases, ◌∙◌, ◌≡◌, refl, Option, some, ℕ, Bool, List, [], ◌∷◌,
  count_if, map,
}
use ochestrate.Text.{Text, text_eq}
use mathlib.Core.Path.{subst}
use ochestrate.Storage.Keyed.{IsKeyed}
use ochestrate.Dict.{lookup, values}
use ochestrate.Storage.Table.{Table, IsLawful}
use ochestrate.Auth.Repository.{
  pair_eq, UserRecord, AuthRepository, create_user, get_user_by_username, get_user_by_id,
  list_users, update_user, update_found, revoke_found, bootstrap_found, no_users,
  create_bootstrap_admin_if_needed, store_refresh_token, get_refresh_token, revoke_refresh_token,
  cleanup_expired_refresh_tokens,
}
use ochestrate.Auth.Database.{
  UserRow, TokenRow, fits_user, fits_token, same_credential, same_token, get_user_by_username_in,
  get_user_by_id_in, list_users_in, update_user_in, get_refresh_token_in, revoke_refresh_token_in,
  cleanup_expired_in,
}
use ochestrate.Auth.UserRows
use ochestrate.Auth.UserWrites
use ochestrate.Auth.TokenRows
use ochestrate.Auth.Calls.{
  AuthCall, creates_user, updates_user, bootstraps, stores_token, revokes_token, cleans_up,
  serve_memory, serve_database, IsDisciplined, answered,
}

update_user-refresh :
    (t u : Text) (role status hash : Option Text) (repo : AuthRepository)
    → (update_user t u role status hash repo).1.refresh ≡ repo.refresh
unfolding update_user update_found
update_user-refresh t u role status hash repo = elim (Option-cases (get_user_by_id t u repo)) [
  | inl absent ↦ rw (absent, update_found)
  | inr (user, found) ↦ rw (found, update_found)
]

bootstrap-refresh :
    (user_id : Text) (now : ℕ) (t n hash : Text) (repo : AuthRepository)
    → (create_bootstrap_admin_if_needed user_id now t n hash repo).1.refresh ≡ repo.refresh
unfolding create_bootstrap_admin_if_needed bootstrap_found create_user
bootstrap-refresh user_id now t n hash repo = elim (Option-cases (get_user_by_username t n repo)) [
  | inr (user, found) ↦ rw (found, bootstrap_found)
  | inl absent ↦ elim (Bool-cases (no_users repo)) [
    | inl nobody ↦ rw (absent, bootstrap_found, nobody)
    | inr somebody ↦ rw (absent, bootstrap_found, somebody)
  ]
]

revoke_refresh_token-users :
    (token_id : Text) (repo : AuthRepository)
    → (revoke_refresh_token token_id repo).users ≡ repo.users
unfolding revoke_refresh_token revoke_found
revoke_refresh_token-users token_id repo = elim (Option-cases (lookup token_id repo.refresh)) [
  | inl absent ↦ rw (absent, revoke_found)
  | inr (row, found) ↦ rw (found, revoke_found)
]

module _ {S R : Type 0} (U : Table UserRow S) (V : Table TokenRow R)
    (user_law : IsLawful fits_user same_credential U)
    (token_law : IsLawful fits_token same_token V) where
  record Agrees (repo : AuthRepository) (s : S) (r : R) : Type 0 where
    users : UserRows.Agrees U repo s
    tokens : TokenRows.Agrees V repo r

  kept_users :
      (repo repo' : AuthRepository) (s : S)
      → repo.users ≡ repo'.users
      → UserRows.Agrees U repo s
      → UserRows.Agrees U repo' s
  kept_users repo repo' s e h = record {
    keyed = subst (IsKeyed UserRows.name_of) e h.keyed;
    same_users = h.same_users ∙ ap values e;
  }

  kept_tokens :
      (repo repo' : AuthRepository) (r : R)
      → repo.refresh ≡ repo'.refresh
      → TokenRows.Agrees V repo r
      → TokenRows.Agrees V repo' r
  kept_tokens repo repo' r e h = record { same_tokens = h.same_tokens ∙ e }

  -- The calls answer in the database as in memory, and leave it in agreement.
  abbrev Follows : List AuthCall → AuthRepository → S × R → Type 0
  Follows calls repo s =
      (s' : S) × (r' : R) × (serve_database U V calls s
        ≡ some ((serve_memory calls repo).0, (s', r')))
      × Agrees (serve_memory calls repo).1 s' r'

  run-Agrees :
      (calls : List AuthCall) (repo : AuthRepository) (s : S) (r : R)
      → IsDisciplined calls repo
      → Agrees repo s r
      → Follows calls repo (s, r)
  unfolding serve_database serve_memory IsDisciplined answered create_user store_refresh_token
      cleanup_expired_refresh_tokens
  run-Agrees [] repo s r d h = (s, r, refl, h)
  run-Agrees (creates_user user_id now t n hash role status ∷ calls) repo s r
        (no_name, no_id, fit, d) h =
      let (s₁, made, users₁) =
        UserWrites.create_user-Agrees U user_law user_id now t n hash role status repo s h.users
          no_name no_id fit in
      let (s', r', ran, h') =
        run-Agrees calls (create_user user_id now t n hash role status repo).1 s₁ r d
          (record { users = users₁; tokens = kept_tokens repo _ r refl h.tokens }) in
      (s', r', rw (made, serve_database) (rw (ran, answered)), h')
  run-Agrees (updates_user t u role status hash ∷ calls) repo s r (room, d) h =
      let (same, users₁) =
        UserWrites.update_user-Agrees U user_law t u role status hash repo s h.users room in
      let asked = update_user_in U t u role status hash s in
      let (s', r', ran, h') =
        run-Agrees calls (update_user t u role status hash repo).1 asked.1 r d (record {
          users = users₁;
          tokens =
              kept_tokens repo _ r (sym (update_user-refresh t u role status hash repo)) h.tokens;
        }) in
      (s', r', rw (ran, same, answered), h')
  run-Agrees (bootstraps user_id now t n hash ∷ calls) repo s r (fit, d) h =
      let (s₁, made, users₁) =
        UserWrites.create_bootstrap_admin-Agrees U user_law user_id now t n hash repo s h.users
          fit in
      let (s', r', ran, h') =
        run-Agrees calls (create_bootstrap_admin_if_needed user_id now t n hash repo).1 s₁ r d
          (record {
            users = users₁;
            tokens =
                kept_tokens repo _ r (sym (bootstrap-refresh user_id now t n hash repo)) h.tokens;
          }) in
      (s', r', rw (made, serve_database) (rw (ran, answered)), h')
  run-Agrees (stores_token now token_id fields ∷ calls) repo s r (fresh, valid, fit, d) h =
      let (r₁, stored, tokens₁) =
        TokenRows.store_refresh_token-Agrees V token_law now token_id fields repo r h.tokens fresh
          valid fit in
      let (s', r', ran, h') =
        run-Agrees calls (store_refresh_token token_id fields repo) s r₁ d
          (record { users = kept_users repo _ s refl h.users; tokens = tokens₁ }) in
      (s', r', rw (stored, serve_database) ran, h')
  run-Agrees (revokes_token token_id ∷ calls) repo s r d h =
      run-Agrees calls (revoke_refresh_token token_id repo) s (revoke_refresh_token_in V token_id r)
        d
        (record {
          users = kept_users repo _ s (sym (revoke_refresh_token-users token_id repo)) h.users;
          tokens = TokenRows.revoke_refresh_token-Agrees V token_law token_id repo r h.tokens;
        })
  run-Agrees (cleans_up now ∷ calls) repo s r d h =
      run-Agrees calls (cleanup_expired_refresh_tokens now repo) s (cleanup_expired_in V now r) d
        (record {
          users = kept_users repo _ s refl h.users;
          tokens = TokenRows.cleanup-Agrees V token_law now repo r h.tokens;
        })

  -- Where the database compares texts exactly: from empty tables, calls that bring new names and
  -- identifiers and tokens not revoked, and write what is within the lengths of the columns, are
  -- answered in the database as in memory and none of them raises, the clocks of the server and
  -- the program being the same. Afterwards a user is found by name and by identifier in the one
  -- mode as in the other and a token is, too, and a tenant's users are listed each as often.
  pub serve_database-serve_memory :
      (calls : List AuthCall) (s : S) (r : R)
      → U.rows s ≡ []
      → V.rows r ≡ []
      → IsDisciplined calls (record { users = []; refresh = [] })
      → let (answers, repo) = serve_memory calls (record { users = []; refresh = [] }) in
        (s' : S) × (r' : R) × (serve_database U V calls (s, r) ≡ some (answers, (s', r')))
        × ((t n : Text) → get_user_by_username_in U t n s' ≡ get_user_by_username t n repo)
        × ((t u : Text) → get_user_by_id_in U t u s' ≡ get_user_by_id t u repo)
        × ((p : UserRecord → Bool) (t : Text)
            → count_if p (list_users_in U t s') ≡ count_if p (list_users t repo))
        × ((k : Text) → get_refresh_token_in V k r' ≡ get_refresh_token k repo)
  unfolding values
  serve_database-serve_memory calls s r no_users no_tokens d =
      let h₀ : Agrees (record { users = []; refresh = [] }) s r = record {
        users = record { keyed = tt; same_users = ap (map _) no_users };
        tokens = record { same_tokens = ap (map _) no_tokens };
      } in
      let (s', r', ran, h) = run-Agrees calls _ s r d h₀ in
      (
        s',
        r',
        ran,
        λ t n. UserRows.get_user_by_username-modes U t n _ s' h.users,
        λ t u. UserRows.get_user_by_id-modes U t u _ s' h.users,
        λ p t. UserRows.count-list_users U user_law p t _ s' h.users,
        λ k. TokenRows.get_refresh_token-modes V k _ r' h.tokens,
      )
