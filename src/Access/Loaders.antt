-- ===== src/Access/Loaders.antt =====
-- The loader middleware of server/controllers/authz_mw.go.
pub mod Isolation
use headcount.Prelude.{
  ℕ, String, Option, none, some, Result, ok, err, Bool, true, false, if◌then◌else◌,
}
use headcount.Tasks.{Task}
use headcount.Runs.{Run}
use headcount.Router.{LlmProvider, ModelGroup}
use headcount.Access.{
  Company, Agent, Project, Skill, McpAccount, McpServer, Tables, AccessError, authorize_company,
  authorize_task, authorize_run, authorize_agent, authorize_project, authorize_skill,
  authorize_mcp_server, authorize_provider, authorize_model_group, authorize_mcp_account,
  is_team_owner, int32,
}

-- What a loader stores in the context of the request.
pub data Resource : Type 0 where
  company_row : Company → Resource
  task_row : Task → Resource
  run_row : Run → Resource
  agent_row : Agent → Resource
  project_row : Project → Resource
  skill_row : Skill → Resource
  server_row : McpServer → Resource
  provider_row : LlmProvider → Resource
  group_row : ModelGroup → Resource
  account_row : McpAccount → Resource

-- The loaders: `LoadCompany`, `LoadTask` and so on.
pub data Kind : Type 0 where
  company task run agent project skill server provider group account : Kind

pub data Answer : Type 0 where
  refused : ℕ → String → Answer
  next : Resource → Answer

abbrev pub stash {ℓ} :
    {A : Type ℓ} → (A → Resource) → Result AccessError A → Result AccessError Resource
stash row (err e) = err e
stash row (ok a) = ok (row a)

-- The authorization that a loader runs.
pub authorize : Kind → Tables → ℕ → ℕ → Result AccessError Resource
authorize company db user id = stash company_row (authorize_company db user id)
authorize task db user id = stash task_row (authorize_task db user id)
authorize run db user id = stash run_row (authorize_run db user id)
authorize agent db user id = stash agent_row (authorize_agent db user id)
authorize project db user id = stash project_row (authorize_project db user id)
authorize skill db user id = stash skill_row (authorize_skill db user id)
authorize server db user id = stash server_row (authorize_mcp_server db user id)
authorize provider db user id = stash provider_row (authorize_provider db user id)
authorize group db user id = stash group_row (authorize_model_group db user id)
authorize account db user id = stash account_row (authorize_mcp_account db user id)

pub missing : Kind → String
missing company = "company not found"
missing task = "task not found"
missing run = "run not found"
missing agent = "agent not found"
missing project = "project not found"
missing skill = "skill not found"
missing server = "not found"
missing provider = "provider not found"
missing group = "model group not found"
missing account = "not found"

abbrev pub answer : Kind → Result AccessError Resource → Answer
answer kind (err e) = refused 404 (missing kind)
answer kind (ok r) = next r

-- A loader. The URL's number is none if it is no integer that fits 64 bits, or else those bits; its id
-- is the low 32 of them, a negative one being above 2 ^ 31.
pub load : Kind → Tables → ℕ → Option ℕ → Answer
load kind db user none = refused 400 "invalid id"
load kind db user (some id) = answer kind (authorize kind db user (int32 id))

-- `RequireTeamOwner`
pub require_team_owner : Tables → ℕ → Answer → Answer
require_team_owner db user handler =
    if is_team_owner db user
    then handler
    else refused 403 "only a team owner can perform this action"
