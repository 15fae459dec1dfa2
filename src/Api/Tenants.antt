-- ===== src/Api/Tenants.antt =====
-- Tenants are kept apart by the handlers of app/api/v1.
use ochestrate.Base.{
  ℕ, ◌≡◌, ◌≢◌, refl, ap, ◌∙◌, arith, Option, none, some, List, [], ◌∷◌, keep, ◌==◌, if◌then◌else◌,
  Bool-cases, inl, inr,
}
use ochestrate.Text.{Text, text_eq, codes}
use ochestrate.Dict.{Dict, values, lookup-insert_self}
use ochestrate.Schemas.{UnifiedRequest}
use ochestrate.Tasks.Manager.{Manager, Codec, submit, publish_status, get_status}
use ochestrate.Tasks.Repository.{get, create}
use ochestrate.Auth.Repository
use ochestrate.Auth.Repository.{
  AuthRepository, UserRecord, pair_eq, is_user, replace_user, update_found, or_else, get_user_by_id,
}
use ochestrate.Auth.Service.Data.{Library, AuthContext}
use ochestrate.Auth.Service.Users
use ochestrate.Api.{
  returned, refused, forbidden, submit_task, bind_unified_request_auth, task_tenant_access,
  get_task_status, patch_user, updated_response, is_admin,
}

module _ {Json : Type 0} (codec : Codec Json) (task_id : Text) (request : UnifiedRequest)
    (auth : AuthContext) (m : Manager Json) where
  tenant_test :
      (reader : AuthContext)
      → task_tenant_access codec reader
          (get task_id (submit_task codec task_id request auth m).1.repo)
        ≡ (auth.tenant_id == reader.tenant_id)
  unfolding submit_task submit publish_status create task_tenant_access bind_unified_request_auth
  tenant_test reader = ap (task_tenant_access codec reader) (lookup-insert_self task_id _ m.repo)

  -- A task belongs to the tenant of the token that submits it, whatever the request says: with a
  -- token of that tenant its status can be read, and with one of another tenant it is refused.
  pub get_task_status-submit_task :
      (reader : AuthContext)
      → let m' = (submit_task codec task_id request auth m).1 in
        get_task_status codec task_id reader m' ≡ (
          if auth.tenant_id == reader.tenant_id
          then returned (get_status codec task_id m')
          else refused (forbidden (codes "cross-tenant task access denied")))
  unfolding get_task_status
  get_task_status-submit_task reader =
      ap
        (λ b.
          if b
          then returned (get_status codec task_id (submit_task codec task_id request auth m).1)
          else refused (forbidden (codes "cross-tenant task access denied")))
        (tenant_test reader)

module _ (tenant_id other : Text) (ne : tenant_id ≢ other) where
  kept :
      (user_id role status hash : Text) (d : Dict (Text × Text) UserRecord)
      → keep
          (λ r. r.tenant_id == other)
          (values (replace_user tenant_id user_id role status hash d))
        ≡ keep (λ r. r.tenant_id == other) (values d)
  unfolding replace_user values
  kept user_id role status hash [] = refl
  kept user_id role status hash ((key, r) ∷ d) = ground (
    arith,
    ne,
    text_eq.beq_iff r.tenant_id tenant_id,
    text_eq.beq_iff r.tenant_id other,
    kept user_id role status hash d,
  )

  kept_found :
      (user_id : Text) (role status hash : Option Text) (o : Option UserRecord) (s : AuthRepository)
      → Repository.list_users other (update_found tenant_id user_id role status hash o s).1
        ≡ Repository.list_users other s
  unfolding update_found Repository.list_users
  kept_found user_id role status hash none s = refl
  kept_found user_id role status hash (some u) s = kept user_id _ _ _ s.users

  kept_updated :
      (lib : Library) (salt : List ℕ) (user_id : Text) (role status password : Option Text)
      (s : AuthRepository)
      → Repository.list_users other
          (Users.update_user lib salt tenant_id user_id role status password s).1
        ≡ Repository.list_users other s
  unfolding Users.update_user Repository.update_user
  kept_updated lib salt user_id role status password s =
      kept_found user_id role status (Users.hashed_if_given lib salt password)
        (get_user_by_id tenant_id user_id s) s

state_of-updated_response : (r : Option UserRecord × AuthRepository) → (updated_response r).1 ≡ r.1
unfolding updated_response
state_of-updated_response (none, s) = refl
state_of-updated_response (some user, s) = refl

-- An update of a user through the interface changes no user of a tenant other than the caller's.
pub list_users-patch_user :
    (lib : Library) (salt : List ℕ) (auth : AuthContext) (other user_id : Text)
    (role status password : Option Text) (s : AuthRepository)
    → auth.tenant_id ≢ other
    → Repository.list_users other (patch_user lib salt auth user_id role status password s).1
      ≡ Repository.list_users other s
unfolding patch_user
list_users-patch_user lib salt auth other user_id role status password s ne =
    elim (Bool-cases (is_admin auth)) [
      | inl admin ↦ rw (admin) (
          ap (Repository.list_users other) (
            state_of-updated_response
              (Users.update_user lib salt auth.tenant_id user_id role status password s))
          ∙ kept_updated auth.tenant_id other ne lib salt user_id role status password s)
      | inr other_role ↦ rw (other_role) refl
    ]
