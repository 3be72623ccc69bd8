-- ===== src/Access/Gateway/Examples.antt =====
-- Two teams with a company each, and a run of the first.
use headcount.Prelude.{
  ℕ, ◌≡◌, ◌≢◌, refl, String, true, false, Option, none, some, [], ◌∷◌, str_eq, if◌then◌else◌,
}
use headcount.Tasks.{Task}
use headcount.Runs.{Run, no_recovery}
use headcount.Router.{LlmProvider}
use headcount.Access.{Company, TeamMember, Tables, company_grants_user, is_team_member, run_company}
use headcount.Access.Loaders.{task, load}
use headcount.Access.Loaders.Isolation.{Isolated, lookup, load-Isolated}
use headcount.Access.Gateway.{
  GatewayPrincipal, GatewayRequest, admitted, require_gateway_auth, may_use_provider, session_of,
  user_owned_resource_allowed, company_of_run,
}
use headcount.Access.Gateway.Spending.{ActsFor, MaySpend, may_use_provider-MaySpend}

abbrev company : ℕ → ℕ → Company
company id team = record { id = id; team_id = some team; user_id = none }

abbrev member : ℕ → ℕ → TeamMember
member team user = record { team_id = team; user_id = user; role = "member" }

abbrev board_task : ℕ → ℕ → Task
board_task id company_id = record {
  id = id;
  company_id = company_id;
  parent_id = none;
  status = "todo";
  is_archived = false;
  run_id = none;
  orchestrator_run_id = none;
  done_at = none;
}

abbrev first_run : Run
first_run = record {
  id = 9;
  task_id = 1;
  agent_id = 1;
  name = "";
  parent_run_id = none;
  root_run_id = none;
  status = "running";
  session_id = "";
  started_at = 1;
  ended_at = none;
  last_message_time = none;
  recovery = no_recovery;
}

abbrev tables : Tables
tables = record {
  companies = company 1 10 ∷ company 2 20 ∷ [];
  members = member 10 5 ∷ member 20 6 ∷ [];
  tasks = board_task 1 1 ∷ board_task 2 2 ∷ [];
  runs = first_run ∷ [];
  agents = [];
  projects = [];
  skills = [];
  servers = [];
  accounts = [];
  providers = [];
  groups = [];
}

-- The user 5 asks for the task 2 of the other team, by a number that wraps around to 2.
load-Isolated_example :
    Isolated tables 5 task (lookup tables 5 task 2) (load task tables 5 (some 4_294_967_298))
load-Isolated_example = load-Isolated tables 5 task 4_294_967_298

abbrev provider : LlmProvider
provider = record {
  id = 1;
  user_id = some 5;
  name = "";
  api_key_encrypted = "enc";
  supported_models = "";
  builtin = false;
}

abbrev validate : String → Option ℕ
validate token = if str_eq token "t" then some 9 else none

abbrev session_user : String → Option ℕ
session_user cookie = none

abbrev request : GatewayRequest
request = record { token = "t"; cookie = none; claimed = 9 }

abbrev principal : GatewayPrincipal
principal = record { run_id = 9; user_id = 0 }

not_zero : validate request.token ≢ some 0
not_zero e = cc

no_session : session_of session_user request.cookie ≢ some 0
no_session e = cc

admission : require_gateway_auth (some validate) session_user tables request ≡ admitted principal
unfolding require_gateway_auth
admission = refl

may_use : may_use_provider tables principal provider ≡ true
unfolding may_use_provider user_owned_resource_allowed company_of_run run_company
    company_grants_user is_team_member
may_use = refl

may_use_provider-MaySpend_example :
    ActsFor tables validate session_user request principal × MaySpend tables principal provider
may_use_provider-MaySpend_example =
    may_use_provider-MaySpend tables validate session_user request principal provider not_zero
      no_session admission may_use
