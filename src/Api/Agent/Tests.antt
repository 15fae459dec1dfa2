-- ===== src/Api/Agent/Tests.antt =====
-- On app/api/v1/agent.py: a request that names another tenant than its token does.
use ochestrate.Base.{◌≡◌, refl, none, [], true, arith, text_beq}
use ochestrate.Text.{codes, apart}
use ochestrate.Memory.{read_short}
use ochestrate.Auth.Service.Data.{AuthContext}
use ochestrate.Orchestration.Tests.{runtime, uuid, service, deletion}
use ochestrate.Api.Agent.{run_agent, run_agent-read_short}

abbrev rival : AuthContext
rival = record {
  tenant_id = codes "rival";
  user_id = codes "eve";
  role = codes "employee";
  session_id = codes "s9";
  token_exp = 60;
}

-- The request says that it is of the tenant `acme` and the user `ann`.
run_agent-read_short_example :
    read_short
      (codes "acme")
      (codes "ann")
      (codes "s1")
      (run_agent runtime uuid 7 [] none (deletion true) rival service).1.memory
    ≡ read_short (codes "acme") (codes "ann") (codes "s1") service.memory
unfolding text_beq
run_agent-read_short_example =
    run_agent-read_short runtime uuid 7 [] (deletion true) rival service (codes "acme")
      (codes "ann") (codes "s1") (omega arith) (omega arith) (omega arith) (omega arith)
      (λ same. apart (codes "rival") (codes "acme") refl same.0)
