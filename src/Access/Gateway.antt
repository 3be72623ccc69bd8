-- ===== src/Access/Gateway.antt =====
-- integration/gateway_auth.go: who calls the model gateway, and what the caller may use. The validator
-- of run tokens is none where the gateway is open; `session_user` is `GetSessionUser` with the hash.
pub mod Spending
mod Examples
use headcount.Prelude.{
  ℕ, ◌%◌, ◌^◌, String, Bool, true, false, not, ◌&&◌, Option, none, some, if◌then◌else◌, ◌==◌,
  is_num, str_eq, is_some,
}
use headcount.Router.{LlmProvider, ModelGroup}
use headcount.Access.{
  int32, Company, Agent, Tables, company_grants_user, get_company, get_run, run_company,
}

pub record GatewayPrincipal : Type 0 where
  pub run_id : ℕ
  pub user_id : ℕ

pub data Admission : Type 0 where
  rejected : ℕ → String → Admission
  admitted : GatewayPrincipal → Admission

-- A request, with the number in `X-Run-ID` as a 64-bit integer, or 0.
pub record GatewayRequest : Type 0 where
  pub token : String
  pub cookie : Option String
  pub claimed : ℕ

abbrev pub company_of : Tables → Option ℕ → Option Company
company_of db none = none
company_of db (some id) = get_company db id

abbrev pub company_id_of : Tables → ℕ → Option ℕ
company_id_of db run = elim (get_run db run) [ none ↦ none | some r ↦ some (run_company db r) ]

-- `companyOfRun`
pub company_of_run : Tables → ℕ → Option Company
company_of_run db run = company_of db (company_id_of db run)

abbrev pub granted : Tables → Option Company → ℕ → Bool
granted db none user = false
granted db (some c) user = company_grants_user db c user

-- `userMayUseRun`
pub user_may_use_run : Tables → ℕ → ℕ → Bool
user_may_use_run db user run = granted db (company_of_run db run) user

abbrev pub as_run : ℕ → Option ℕ → Admission
as_run claimed none = rejected 401 "invalid or expired run token"
as_run claimed (some run) =
    if not (claimed == 0) && not (int32 claimed == run)
    then rejected 403 "X-Run-ID does not match the run token"
    else admitted (record { run_id = run; user_id = 0 })

abbrev pub as_user : Tables → ℕ → Option ℕ → Admission
as_user db claimed none = rejected 401 "gateway requires a run token or an authenticated session"
as_user db claimed (some user) =
    if not (claimed == 0) && not (user_may_use_run db user (int32 claimed))
    then rejected 403 "X-Run-ID does not belong to you"
    else admitted (record { run_id = 0; user_id = user })

abbrev pub session_of : (String → Option ℕ) → Option String → Option ℕ
session_of session_user none = none
session_of session_user (some cookie) = if str_eq cookie "" then none else session_user cookie

-- `requireGatewayAuth`
pub require_gateway_auth :
    Option (String → Option ℕ) → (String → Option ℕ) → Tables → GatewayRequest → Admission
require_gateway_auth none session_user db r = admitted (record { run_id = 0; user_id = 0 })
require_gateway_auth (some validate) session_user db r =
    if not (str_eq r.token "")
    then as_run r.claimed (validate r.token)
    else as_user db r.claimed (session_of session_user r.cookie)

abbrev pub run_may_use : Tables → ℕ → Option ℕ → Bool
run_may_use db run none = true
run_may_use db run (some owner) = granted db (company_of_run db run) owner

-- `userOwnedResourceAllowed`
pub user_owned_resource_allowed : Tables → GatewayPrincipal → Option ℕ → Bool
user_owned_resource_allowed db p owner =
    if not (p.user_id == 0)
    then is_num owner p.user_id
    else if not (p.run_id == 0)
    then run_may_use db p.run_id owner
    else true

-- `mayUseProvider`
pub may_use_provider : Tables → GatewayPrincipal → LlmProvider → Bool
may_use_provider db p provider =
    if ((not (p.run_id == 0) && not (is_some provider.user_id)) && not provider.builtin)
      && not (str_eq provider.api_key_encrypted "")
    then false
    else user_owned_resource_allowed db p provider.user_id

-- `mayUseGroup`
pub may_use_group : Tables → GatewayPrincipal → ModelGroup → Bool
may_use_group db p group = user_owned_resource_allowed db p group.user_id

abbrev pub same_company : Option Company → ℕ → Bool
same_company none id = false
same_company (some c) id = c.id == id

-- `mayUseAgent`
pub may_use_agent : Tables → GatewayPrincipal → Agent → Bool
may_use_agent db p agent =
    if not (p.user_id == 0)
    then granted db (get_company db agent.company_id) p.user_id
    else if not (p.run_id == 0)
    then same_company (company_of_run db p.run_id) agent.company_id
    else true
