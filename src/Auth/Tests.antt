-- ===== src/Auth/Tests.antt =====
-- On app/storage/repositories/auth_repo.py: calls to which the theorem on its two modes is applied.
use ochestrate.Base.{
  ◌≡◌, refl, Bool, Option, true, false, none, some, List, [], ◌∷◌, count_if, text_beq,
}
use ochestrate.Text.{Text, text_eq, codes}
use ochestrate.Dict.{lookup, insert, values}
use mathlib.Core.Path.{subst}
use ochestrate.Storage.Rows.{some_inj}
use ochestrate.Storage.Table.{Stored, within, text_room}
use ochestrate.Storage.Lists.{listed, listed-IsLawful}
use ochestrate.Auth.Repository.{
  pair_beq, UserRecord, RefreshRow, AuthRepository, create_user, get_user_by_username, find_user,
  get_user_by_id, list_users, get_refresh_token, create_bootstrap_admin_if_needed, bootstrap_found,
  no_users, replace_user, update_found, update_user,
}
use ochestrate.Auth.Database.{
  UserRow, TokenRow, fits_user, fits_token, same_credential, same_token, get_user_by_username_in,
  get_user_by_id_in, list_users_in, get_refresh_token_in,
}
use ochestrate.Auth.Calls.{
  AuthCall, creates_user, updates_user, bootstraps, stores_token, revokes_token, cleans_up,
  serve_memory, serve_database, IsDisciplined,
}
use ochestrate.Auth.Modes.{serve_database-serve_memory}

abbrev row : RefreshRow
row = record {
  tenant_id = codes "acme";
  user_id = codes "u1";
  session_id = codes "s1";
  refresh_token_hash = codes "hash";
  expires_at = 9;
  revoked = false;
}

abbrev calls : List AuthCall
calls =
    bootstraps (codes "u0") 1 (codes "acme") (codes "root") (codes "h0")
    ∷ creates_user (codes "u1") 2 (codes "acme") (codes "ann") (codes "h1") (codes "employee")
        (codes "active")
    ∷ updates_user (codes "acme") (codes "u1") none (some (codes "disabled")) none
    ∷ stores_token 3 (codes "j1") row
    ∷ revokes_token (codes "j1")
    ∷ cleans_up 10
    ∷ []

abbrev nothing : AuthRepository
nothing = record { users = []; refresh = [] }

room :
    (x user : UserRecord)
    → (within 32 x.role ≡ true) × (within text_room x.password_hash ≡ true)
    → ◌≡◌ {A = Option UserRecord} (some x) (some user)
    → (within 32 user.role ≡ true) × (within text_room user.password_hash ≡ true)
room x user fit e =
    subst (λ u. (within 32 u.role ≡ true) × (within text_room u.password_hash ≡ true)) (some_inj e)
      fit

calls-IsDisciplined : IsDisciplined calls nothing
unfolding IsDisciplined fits_user fits_token create_user get_user_by_username get_user_by_id
    find_user lookup insert values pair_beq text_beq create_bootstrap_admin_if_needed
    bootstrap_found no_users update_user update_found replace_user get_refresh_token
calls-IsDisciplined = (
  refl,
  (
    refl,
    refl,
    refl,
    (
      λ user found. let fit = room _ user (refl, refl) found in (fit.0, refl, fit.1),
      (refl, refl, refl, tt),
    ),
  ),
)

serve_database-serve_memory_example :
    let answered = serve_memory calls nothing in
    (s' : List (Stored UserRow)) × (r' : List (Stored TokenRow)) × (serve_database
        (listed fits_user same_credential)
        (listed fits_token same_token)
        calls
        ([], [])
      ≡ some (answered.0, (s', r')))
    × ((t n : Text)
        → get_user_by_username_in (listed fits_user same_credential) t n s'
          ≡ get_user_by_username t n answered.1)
    × ((t u : Text)
        → get_user_by_id_in (listed fits_user same_credential) t u s'
          ≡ get_user_by_id t u answered.1)
    × ((p : UserRecord → Bool) (t : Text)
        → count_if p (list_users_in (listed fits_user same_credential) t s')
          ≡ count_if p (list_users t answered.1))
    × ((k : Text)
        → get_refresh_token_in (listed fits_token same_token) k r' ≡ get_refresh_token k answered.1)
serve_database-serve_memory_example =
    serve_database-serve_memory (listed fits_user same_credential) (listed fits_token same_token)
      (listed-IsLawful fits_user same_credential) (listed-IsLawful fits_token same_token) calls []
      [] refl refl calls-IsDisciplined
