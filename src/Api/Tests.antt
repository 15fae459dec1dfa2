-- ===== src/Api/Tests.antt =====
-- On app/api/v1: two tenants, a task and a user, to which the theorems are applied.
use ochestrate.Base.{text_beq, ◌≡◌, refl, true, false, none, some, [], ◌∷◌, ◌==◌, if◌then◌else◌}
use ochestrate.Text.{Text, text_eq, codes, apart}
use ochestrate.Schemas.{UnifiedRequest, UnifiedResponse, low, qa, auto}
use ochestrate.Tasks.Manager.{Codec, get_status}
use ochestrate.Tasks.Reachable.{fresh}
use ochestrate.Auth.Repository
use ochestrate.Auth.Repository.{AuthRepository, UserRecord}
use ochestrate.Auth.Service.Data.{Library, AuthContext}
use ochestrate.Api.{returned, refused, forbidden, submit_task, get_task_status, patch_user}
use ochestrate.Api.Tenants.{get_task_status-submit_task, list_users-patch_user}

data Document : Type 0 where
  asked : UnifiedRequest → Document
  replied : UnifiedResponse → Document

abbrev codec : Codec Document
codec = record {
  dump_request = λ r. asked r;
  load_request = λ j. elim j [ asked r ↦ some r | replied r ↦ none ];
  dump_response = λ r. replied r;
  load_response = λ j. elim j [ asked r ↦ none | replied r ↦ some r ];
}

abbrev request : UnifiedRequest
request = record {
  tenant_id = some (codes "rival");
  user_id = none;
  session_id = codes "s1";
  task_type = qa;
  input = codes "hello";
  context_refs = [];
  policy = record {
    sensitivity = low;
    max_cost_usd = 100;
    auto_execute = true;
    require_human_review = false;
    timeout_seconds = 60;
    confirm_write = false;
  };
  metadata = [];
  tool_payload = none;
  tool_overrides = [];
  skill_context_mode = auto;
}

abbrev token_of : Text → AuthContext
token_of tenant_id = record {
  tenant_id = tenant_id;
  user_id = codes "u1";
  role = codes "admin";
  session_id = codes "s1";
  token_exp = 60;
}

get_task_status-submit_task_example :
    let m' =
      (submit_task codec (codes "t1") request (token_of (codes "acme")) (fresh codec [])).1 in
    get_task_status codec (codes "t1") (token_of (codes "rival")) m' ≡ (
      if codes "acme" == codes "rival"
      then returned (get_status codec (codes "t1") m')
      else refused (forbidden (codes "cross-tenant task access denied")))
get_task_status-submit_task_example =
    get_task_status-submit_task codec (codes "t1") request (token_of (codes "acme"))
      (fresh codec []) (token_of (codes "rival"))

abbrev lib : Library
lib = record {
  pbkdf2 = λ password salt rounds. password;
  parse_int = λ t. some 120000;
  show_int = λ n. n ∷ [];
  hash_token = λ t. t;
  encode = λ c. [];
  decode = λ now t. none;
}

abbrev bob : UserRecord
bob = record {
  tenant_id = codes "rival";
  user_id = codes "u1";
  username = codes "bob";
  role = codes "employee";
  status = codes "active";
  password_hash = [];
  created_at = 0;
}

abbrev users : AuthRepository
users = record { users = ((codes "rival", codes "bob"), bob) ∷ []; refresh = [] }

list_users-patch_user_example :
    Repository.list_users
      (codes "rival")
      (patch_user lib []
        (token_of (codes "acme"))
        (codes "u1")
        (some (codes "admin"))
        none
        none
        users).1
    ≡ Repository.list_users (codes "rival") users
unfolding text_beq
list_users-patch_user_example =
    list_users-patch_user lib [] (token_of (codes "acme")) (codes "rival") (codes "u1")
      (some (codes "admin")) none none users (apart (codes "acme") (codes "rival") refl)
