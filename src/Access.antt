-- ===== src/Access.antt =====
-- server/controllers/api.go and authz_mw.go: which rows a user may reach, and the loaders that turn an
-- id of a URL into a row. A row has the fields that decide this; a query that fails for want of a
-- connection is not modelled. A resource that a loader hands to its handler is one value of `Resource`.
pub mod Loaders
pub mod Tenancy
pub mod Gateway
use headcount.Prelude.{
  ℕ, ◌%◌, ◌^◌, String, Bool, true, false, Option, none, some, List, [], ◌∷◌, Result, ok, err, ◌>>=◌,
  if◌then◌else◌, ltb, ◌==◌, is_num, first, find, count, ◌&&◌, str_eq,
}
use headcount.Tasks.{Task, get_task}
use headcount.Runs.{Run}
use headcount.Router.{LlmProvider, ModelGroup}

-- `int32` of a 64-bit number: its low 32 bits.
abbrev pub int32 : ℕ → ℕ
int32 n = n % 2 ^ 32

pub record Company : Type 0 where
  pub id : ℕ
  pub team_id : Option ℕ
  pub user_id : Option ℕ

pub record TeamMember : Type 0 where
  pub team_id : ℕ
  pub user_id : ℕ
  pub role : String

pub record Agent : Type 0 where
  pub id : ℕ
  pub company_id : ℕ

pub record Project : Type 0 where
  pub id : ℕ
  pub company_id : ℕ

pub record Skill : Type 0 where
  pub id : ℕ
  pub company_id : ℕ

pub record McpAccount : Type 0 where
  pub id : ℕ
  pub user_id : Option ℕ

pub record McpServer : Type 0 where
  pub id : ℕ
  pub builtin : Bool
  pub project_id : Option ℕ
  pub owner_user_id : Option ℕ
  pub accounts : List McpAccount

pub record Tables : Type 0 where
  pub companies : List Company
  pub members : List TeamMember
  pub tasks : List Task
  pub runs : List Run
  pub agents : List Agent
  pub projects : List Project
  pub skills : List Skill
  pub servers : List McpServer
  pub accounts : List McpAccount
  pub providers : List LlmProvider
  pub groups : List ModelGroup

pub data AccessError : Type 0 where
  not_found not_owned : AccessError

abbrev pub loaded {ℓ} : {A : Type ℓ} → Option A → Result AccessError A
loaded none = err not_found
loaded (some a) = ok a

-- `IsTeamMember`
pub is_team_member : Tables → ℕ → ℕ → Bool
is_team_member db team user = ltb 0 (count (λ m. m.team_id == team && m.user_id == user) db.members)

abbrev pub grants_with : Tables → ℕ → Option ℕ → Option ℕ → Bool
grants_with db user none owner = is_num owner user
grants_with db user (some team) owner = is_team_member db team user

-- The test of `authorizeCompany`, and `companyGrantsUser` of the gateway.
pub company_grants_user : Tables → Company → ℕ → Bool
company_grants_user db c user = grants_with db user c.team_id c.user_id

abbrev pub get_company : Tables → ℕ → Option Company
get_company db id = first (λ c. c.id == id) db.companies

-- `authorizeCompany`
pub authorize_company : Tables → ℕ → ℕ → Result AccessError Company
authorize_company db user id = loaded (get_company db id) >>= λ c.
    if company_grants_user db c user then ok c else err not_owned

-- `authorizeTask`
pub authorize_task : Tables → ℕ → ℕ → Result AccessError Task
authorize_task db user id =
    loaded (get_task id db.tasks) >>= λ t. authorize_company db user t.company_id >>= λ _. ok t

abbrev pub get_run : Tables → ℕ → Option Run
get_run db id = first (λ r. r.id == id) db.runs

abbrev pub company_or_zero : Option Task → ℕ
company_or_zero none = 0
company_or_zero (some t) = t.company_id

-- The company of the task that `GetRunWithTask` returns: the zero value where the task is gone.
pub run_company : Tables → Run → ℕ
run_company db r = company_or_zero (get_task r.task_id db.tasks)

-- `authorizeRun`
pub authorize_run : Tables → ℕ → ℕ → Result AccessError Run
authorize_run db user id =
    loaded (get_run db id) >>= λ r. authorize_company db user (run_company db r) >>= λ _. ok r

-- `authorizeAgent`
pub authorize_agent : Tables → ℕ → ℕ → Result AccessError Agent
authorize_agent db user id = loaded (first (λ a. a.id == id) db.agents) >>= λ a.
    authorize_company db user a.company_id >>= λ _. ok a

-- `authorizeProject`
pub authorize_project : Tables → ℕ → ℕ → Result AccessError Project
authorize_project db user id = loaded (first (λ p. p.id == id) db.projects) >>= λ p.
    authorize_company db user p.company_id >>= λ _. ok p

-- `authorizeSkill`
pub authorize_skill : Tables → ℕ → ℕ → Result AccessError Skill
authorize_skill db user id = loaded (first (λ s. s.id == id) db.skills) >>= λ s.
    authorize_company db user s.company_id >>= λ _. ok s

-- `ownedByUser`
pub owned_by_user : ℕ → Option ℕ → Bool
owned_by_user user row_user = is_num row_user user

-- `filterAccountsForUser`
pub filter_accounts_for_user : ℕ → List McpAccount → List McpAccount
filter_accounts_for_user user accounts = find (λ a. owned_by_user user a.user_id) accounts

abbrev pub scoped : ℕ → McpServer → McpServer
scoped user s = record s { accounts = filter_accounts_for_user user s.accounts }

abbrev pub authorize_custom : Tables → ℕ → McpServer → Option ℕ → Result AccessError McpServer
authorize_custom db user s (some project) = authorize_project db user project >>= λ _. ok s
authorize_custom db user s none = if owned_by_user user s.owner_user_id then ok s else err not_owned

-- `authorizeMCPServer`
pub authorize_mcp_server : Tables → ℕ → ℕ → Result AccessError McpServer
authorize_mcp_server db user id = loaded (first (λ s. s.id == id) db.servers) >>= λ s.
    if s.builtin then ok (scoped user s) else authorize_custom db user (scoped user s) s.project_id

-- `authorizeProvider`
pub authorize_provider : Tables → ℕ → ℕ → Result AccessError LlmProvider
authorize_provider db user id = loaded (first (λ p. p.id == id) db.providers) >>= λ p.
    if owned_by_user user p.user_id then ok p else err not_owned

-- `authorizeModelGroup`
pub authorize_model_group : Tables → ℕ → ℕ → Result AccessError ModelGroup
authorize_model_group db user id = loaded (first (λ g. g.id == id) db.groups) >>= λ g.
    if owned_by_user user g.user_id then ok g else err not_owned

-- `authorizeMCPAccount`
pub authorize_mcp_account : Tables → ℕ → ℕ → Result AccessError McpAccount
authorize_mcp_account db user id = loaded (first (λ a. a.id == id) db.accounts) >>= λ a.
    if owned_by_user user a.user_id then ok a else err not_owned

-- `GetTeamMembership`, where the rows of the table are in the order of their ids.
abbrev pub get_team_membership : Tables → ℕ → Option TeamMember
get_team_membership db user = first (λ m. m.user_id == user) db.members

abbrev pub owns_team : Option TeamMember → Bool
owns_team none = true
owns_team (some m) = str_eq m.role "owner"

-- `isTeamOwner`
pub is_team_owner : Tables → ℕ → Bool
is_team_owner db user = owns_team (get_team_membership db user)
