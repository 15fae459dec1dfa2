-- ===== src/Auth/Calls.antt =====
-- The calls that write of app/storage/repositories/auth_repo.py, one after another in either mode. A call
-- has the identifier that is drawn for it and the time, which the clock of the server is taken to
-- read, too.
use ochestrate.Base.{◌≡◌, Option, none, some, ℕ, true, false, List, [], ◌∷◌}
use ochestrate.Text.{Text, text_eq, codes}
use ochestrate.Storage.Table.{Table, within, text_room}
use ochestrate.Auth.Repository.{
  or_else, pair_eq, UserRecord, RefreshRow, AuthRepository, create_user, get_user_by_username,
  get_user_by_id, update_user, Bootstrap, create_bootstrap_admin_if_needed, store_refresh_token,
  get_refresh_token, revoke_refresh_token, cleanup_expired_refresh_tokens,
}
use ochestrate.Auth.Database.{
  UserRow, TokenRow, user_row, fits_user, fits_token, token_row, create_user_in, update_user_in,
  create_bootstrap_admin_in, store_refresh_token_in, revoke_refresh_token_in, cleanup_expired_in,
}

-- What an update writes for the role, the status and the hash of the user has the room.
abbrev pub HasRoom : Text → Text → Option Text → Option Text → Option Text → AuthRepository → Type 0
HasRoom t u role status hash repo =
    (user : UserRecord)
    → get_user_by_id t u repo ≡ some user
    → (within 32 (or_else role user.role) ≡ true)
      × (within 32 (or_else status user.status) ≡ true)
      × (within text_room (or_else hash user.password_hash) ≡ true)

-- The operations that write.
pub data AuthCall : Type 0 where
  creates_user : Text → ℕ → Text → Text → Text → Text → Text → AuthCall
  updates_user : Text → Text → Option Text → Option Text → Option Text → AuthCall
  bootstraps : Text → ℕ → Text → Text → Text → AuthCall
  stores_token : ℕ → Text → RefreshRow → AuthCall
  revokes_token : Text → AuthCall
  cleans_up : ℕ → AuthCall

-- What a call that concerns a user answers.
pub data Answer : Type 0 where
  user_is : Option UserRecord → Answer
  bootstrap_is : Bootstrap → Answer

-- The answers of the calls, with what they leave in memory.
unfoldable pub serve_memory : List AuthCall → AuthRepository → List Answer × AuthRepository
serve_memory [] repo = ([], repo)
serve_memory (creates_user user_id now tenant_id username hash role status ∷ calls) repo =
    let (user, repo₁) = create_user user_id now tenant_id username hash role status repo in
    let (answers, repo') = serve_memory calls repo₁ in (user_is (some user) ∷ answers, repo')
serve_memory (updates_user tenant_id user_id role status hash ∷ calls) repo =
    let (user, repo₁) = update_user tenant_id user_id role status hash repo in
    let (answers, repo') = serve_memory calls repo₁ in (user_is user ∷ answers, repo')
serve_memory (bootstraps user_id now tenant_id username hash ∷ calls) repo =
    let (found, repo₁) =
      create_bootstrap_admin_if_needed user_id now tenant_id username hash repo in
    let (answers, repo') = serve_memory calls repo₁ in (bootstrap_is found ∷ answers, repo')
serve_memory (stores_token now token_id fields ∷ calls) repo =
    serve_memory calls (store_refresh_token token_id fields repo)
serve_memory (revokes_token token_id ∷ calls) repo =
    serve_memory calls (revoke_refresh_token token_id repo)
serve_memory (cleans_up now ∷ calls) repo =
    serve_memory calls (cleanup_expired_refresh_tokens now repo)

-- Names and identifiers are new where a call brings one, and a token is not revoked; and what is written
-- is within the lengths of the columns.
unfoldable pub IsDisciplined : List AuthCall → AuthRepository → Type 0
IsDisciplined [] repo = Unit
IsDisciplined (creates_user user_id now tenant_id username hash role status ∷ calls) repo =
    (get_user_by_username tenant_id username repo ≡ none)
    × (get_user_by_id tenant_id user_id repo ≡ none)
    × (fits_user (user_row tenant_id user_id username hash role status) ≡ true)
    × IsDisciplined calls (create_user user_id now tenant_id username hash role status repo).1
IsDisciplined (updates_user tenant_id user_id role status hash ∷ calls) repo =
    HasRoom tenant_id user_id role status hash repo
    × IsDisciplined calls (update_user tenant_id user_id role status hash repo).1
IsDisciplined (bootstraps user_id now tenant_id username hash ∷ calls) repo =
    (fits_user (user_row tenant_id user_id username hash (codes "admin") (codes "active")) ≡ true)
    × IsDisciplined calls
        (create_bootstrap_admin_if_needed user_id now tenant_id username hash repo).1
IsDisciplined (stores_token now token_id fields ∷ calls) repo =
    (get_refresh_token token_id repo ≡ none)
    × (fields.revoked ≡ false)
    × (fits_token (token_row token_id fields) ≡ true)
    × IsDisciplined calls (store_refresh_token token_id fields repo)
IsDisciplined (revokes_token token_id ∷ calls) repo =
    IsDisciplined calls (revoke_refresh_token token_id repo)
IsDisciplined (cleans_up now ∷ calls) repo =
    IsDisciplined calls (cleanup_expired_refresh_tokens now repo)

-- an answer before those of the rest
unfoldable pub answered {ℓ κ} :
    {A : Type ℓ} {B : Type κ} → A → Option (List A × B) → Option (List A × B)
answered user none = none
answered user (some (answers, s)) = some (user ∷ answers, s)

module _ {S R : Type 0} (U : Table UserRow S) (V : Table TokenRow R) where
  -- The answers of the calls, with what they leave in the database; none once one of them raises.
  unfoldable pub serve_database : List AuthCall → S × R → Option (List Answer × (S × R))
  unfolding answered
  serve_database [] (s, r) = some ([], (s, r))
  serve_database (creates_user user_id now tenant_id username hash role status ∷ calls) (s, r) =
      elim (create_user_in U user_id now tenant_id username hash role status s) [
        | none ↦ none
        | some made ↦ answered (user_is (some made.0)) (serve_database calls (made.1, r))
      ]
  serve_database (updates_user tenant_id user_id role status hash ∷ calls) (s, r) =
      let asked = update_user_in U tenant_id user_id role status hash s in
      answered (user_is asked.0) (serve_database calls (asked.1, r))
  serve_database (bootstraps user_id now tenant_id username hash ∷ calls) (s, r) =
      elim (create_bootstrap_admin_in U user_id now tenant_id username hash s) [
        | none ↦ none
        | some made ↦ answered (bootstrap_is made.0) (serve_database calls (made.1, r))
      ]
  serve_database (stores_token now token_id fields ∷ calls) (s, r) =
      elim (store_refresh_token_in V now token_id fields r) [
        | none ↦ none
        | some r' ↦ serve_database calls (s, r')
      ]
  serve_database (revokes_token token_id ∷ calls) (s, r) =
      serve_database calls (s, revoke_refresh_token_in V token_id r)
  serve_database (cleans_up now ∷ calls) (s, r) =
      serve_database calls (s, cleanup_expired_in V now r)
