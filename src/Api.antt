-- ===== src/Api.antt =====
-- app/api/v1: request_context.py, tasks.py and users.py, for a request that has passed
-- `require_auth_context`. A handler returns or raises an `HTTPException`.
pub mod Tenants
pub mod Sessions
pub mod Gateway
pub mod Agent
pub mod Catalog
pub mod Streams
mod Tests
use ochestrate.Base.{
  ℕ, ◌≡◌, Bool, true, false, Option, none, some, List, [], ◌∷◌, map, ◌==◌, if◌then◌else◌,
}
use ochestrate.Text.{Text, text_eq, codes}
use ochestrate.Dict.{insert}
use ochestrate.Schemas.{Value, UnifiedRequest, TaskStatusResponse}
use ochestrate.Tasks.Repository.{TaskRecord, get}
use ochestrate.Tasks.Manager.{Manager, Codec, submit, get_status}
use ochestrate.Auth.Repository.{AuthRepository, UserRecord}
use ochestrate.Auth.Service.Data.{Library, AuthContext}
use ochestrate.Auth.Service.Users

pub data HttpError : Type 0 where
  unauthorized forbidden not_found unprocessable : Text → HttpError
  -- an exception that no handler maps
  internal : Text → HttpError

pub data Response {ℓ} (A : Type ℓ) : Type ℓ where
  returned : A → Response A
  refused : HttpError → Response A

-- `bind_unified_request_auth`
unfoldable pub bind_unified_request_auth : UnifiedRequest → AuthContext → UnifiedRequest
bind_unified_request_auth request auth = record request {
  tenant_id = some auth.tenant_id;
  user_id = some auth.user_id;
  session_id = auth.session_id;
  metadata =
      insert (codes "session_id") (Value.str auth.session_id)
        (insert (codes "role") (Value.str auth.role) request.metadata);
}

module _ {Json : Type 0} (codec : Codec Json) where
  -- `submit_task`, with the identifier that the manager draws
  unfoldable pub submit_task :
      Text → UnifiedRequest → AuthContext → Manager Json → Text × Manager Json
  unfolding bind_unified_request_auth
  submit_task task_id request auth m =
      (task_id, submit codec task_id (bind_unified_request_auth request auth) m)

  -- `_assert_task_tenant_access`: whether it returns
  unfoldable pub task_tenant_access : AuthContext → Option (TaskRecord Json) → Bool
  task_tenant_access auth none = true
  task_tenant_access auth (some r) = r.tenant_id == auth.tenant_id

  -- `get_task_status`
  unfoldable pub get_task_status : Text → AuthContext → Manager Json → Response TaskStatusResponse
  unfolding task_tenant_access
  get_task_status task_id auth m =
      if task_tenant_access auth (get task_id m.repo)
      then returned (get_status codec task_id m)
      else refused (forbidden (codes "cross-tenant task access denied"))

pub record UserResponse : Type 0 where
  pub tenant_id : Text
  pub user_id : Text
  pub username : Text
  pub role : Text
  pub status : Text
  pub created_at : ℕ

abbrev pub user_response : UserRecord → UserResponse
user_response u = record {
  tenant_id = u.tenant_id;
  user_id = u.user_id;
  username = u.username;
  role = u.role;
  status = u.status;
  created_at = u.created_at;
}

-- `_ensure_admin`: whether it returns
abbrev pub is_admin : AuthContext → Bool
is_admin auth = auth.role == codes "admin"

abbrev pub admin_required : HttpError
admin_required = forbidden (codes "admin role required")

unfoldable pub updated_response :
    Option UserRecord × AuthRepository → Response UserResponse × AuthRepository
updated_response (none, s) = (refused (not_found (codes "user not found")), s)
updated_response (some user, s) = (returned (user_response user), s)

module _ (lib : Library) (salt : List ℕ) where
  -- `create_user`
  unfoldable pub post_user :
      Text
      → ℕ
      → AuthContext
      → Text
      → Text
      → Text
      → Text
      → AuthRepository
      → Response UserResponse × AuthRepository
  post_user user_id now auth username password role status s =
      if is_admin auth
      then (let (user, s') =
            Users.create_user lib salt user_id now auth.tenant_id username password role status s in
          (returned (user_response user), s'))
      else (refused admin_required, s)

  -- `list_users`
  unfoldable pub get_users : AuthContext → AuthRepository → Response (List UserResponse)
  get_users auth s =
      if is_admin auth
      then returned (map user_response (Users.list_users lib salt auth.tenant_id s))
      else refused admin_required

  -- `update_user`
  unfoldable pub patch_user :
      AuthContext
      → Text
      → Option Text
      → Option Text
      → Option Text
      → AuthRepository
      → Response UserResponse × AuthRepository
  unfolding updated_response
  patch_user auth user_id role status password s =
      if is_admin auth
      then updated_response
          (Users.update_user lib salt auth.tenant_id user_id role status password s)
      else (refused admin_required, s)
