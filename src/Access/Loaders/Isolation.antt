-- ===== src/Access/Loaders/Isolation.antt =====
-- What the loaders give a user, for every kind of row.
use headcount.Prelude.{
  ℕ, ◌≡◌, refl, sym, ap, subst, ◌⊎◌, inl, inr, Option, none, some, Result, first, some-injective,
  ◌==◌,
}
use headcount.Tasks.{get_task}
use headcount.Access.{
  Tables, AccessError, get_company, get_run, run_company, scoped, authorize_task, authorize_run,
  authorize_agent, authorize_project, authorize_skill, authorize_mcp_server, authorize_provider,
  authorize_model_group, authorize_mcp_account, int32,
}
use headcount.Access.Loaders.{
  Resource, company_row, task_row, run_row, agent_row, project_row, skill_row, server_row,
  provider_row, group_row, account_row, Kind, company, task, run, agent, project, skill, server,
  provider, group, account, Answer, refused, next, stash, authorize, missing, answer, load,
}
use headcount.Access.Tenancy.{
  Grants, InTenant, Reaches, Decides, under_company, authorize_company-Decides, owned_row,
  server_found,
}

module _ (db : Tables) (user : ℕ) where
  -- The user's tenants include the row, or it is a built-in tool server, which is open to all.
  abbrev pub Owned : Resource → Type 0
  Owned (company_row c) = Grants db user c
  Owned (task_row t) = InTenant db user t.company_id
  Owned (run_row r) = InTenant db user (run_company db r)
  Owned (agent_row a) = InTenant db user a.company_id
  Owned (project_row p) = InTenant db user p.company_id
  Owned (skill_row s) = InTenant db user s.company_id
  Owned (server_row s) = Reaches db user s
  Owned (provider_row p) = p.user_id ≡ some user
  Owned (group_row g) = g.user_id ≡ some user
  Owned (account_row a) = a.user_id ≡ some user

  abbrev as_row : {A : Type 0} → (A → Resource) → Option A → Option Resource
  as_row row none = none
  as_row row (some a) = some (row a)

  -- The row of an id, whoever owns it.
  abbrev pub lookup : Kind → ℕ → Option Resource
  lookup company id = as_row company_row (get_company db id)
  lookup task id = as_row task_row (get_task id db.tasks)
  lookup run id = as_row run_row (get_run db id)
  lookup agent id = as_row agent_row (first (λ a. a.id == id) db.agents)
  lookup project id = as_row project_row (first (λ p. p.id == id) db.projects)
  lookup skill id = as_row skill_row (first (λ s. s.id == id) db.skills)
  lookup server id = as_row server_row (first (λ s. s.id == id) db.servers)
  lookup provider id = as_row provider_row (first (λ p. p.id == id) db.providers)
  lookup group id = as_row group_row (first (λ g. g.id == id) db.groups)
  lookup account id = as_row account_row (first (λ a. a.id == id) db.accounts)

  -- A server is shown with the user's own accounts.
  abbrev pub shown : Resource → Resource
  shown (company_row c) = company_row c
  shown (task_row t) = task_row t
  shown (run_row r) = run_row r
  shown (agent_row a) = agent_row a
  shown (project_row p) = project_row p
  shown (skill_row s) = skill_row s
  shown (server_row s) = server_row (scoped user s)
  shown (provider_row p) = provider_row p
  shown (group_row g) = group_row g
  shown (account_row a) = account_row a

  abbrev pub Isolated : Kind → Option Resource → Answer → Type 0
  Isolated kind row reply =
      ((r : Resource) × (row ≡ some r) × (reply ≡ next (shown r)) × Owned r)
      ⊎ ((reply ≡ refused 404 (missing kind)) × ((r : Resource) → row ≡ some r → Owned r → ⊥))

  settled :
      {A : Type 0} (kind : Kind) (row : A → Resource) (Own : A → Type 0) (show : A → A)
      (o : Option A) (r : Result AccessError A)
      → ((a : A) → shown (row a) ≡ row (show a))
      → ((a : A) → Own a → Owned (row a))
      → ((a : A) → Owned (row a) → Own a)
      → Decides db user Own show o r
      → Isolated kind (as_row row o) (answer kind (stash row r))
  settled kind row Own show o r same to back (inl (a, found, fine, own)) =
      rw (found, fine) (inl (row a, refl, ap next (sym (same a)), to a own))
  settled kind row Own show none r same to back (inr (e, bad, foreign)) =
      rw bad (inr (refl, λ r' e'. cc))
  settled kind row Own show (some a) r same to back (inr (e, bad, foreign)) = rw bad (
      inr (
        refl,
        λ r' e' own. foreign a refl (back a (subst Owned (sym (some-injective _ _ e')) own)),
      ))

  -- A loader gives a user exactly the rows that the user may reach: those of the user's own tenants and,
  -- of the tool servers, also the built-in ones. For any 64-bit number in the URL, whose low 32 bits are
  -- the id, either the user may reach the row of the id, and it is handed on (a tool server with the
  -- user's own accounts only), or the answer is the 404 of the loader, the same whether the row belongs
  -- to another tenant or there is none.
  pub load-Isolated :
      (kind : Kind) (number : ℕ)
      → Isolated kind (lookup kind (int32 number)) (load kind db user (some number))
  unfolding load authorize authorize_task authorize_run authorize_agent authorize_project
      authorize_skill authorize_mcp_server authorize_provider authorize_model_group
      authorize_mcp_account
  load-Isolated company number =
      settled company company_row (Grants db user) (λ a. a) _ _ (λ a. refl) (λ a h. h) (λ a h. h)
        (authorize_company-Decides db user (int32 number))
  load-Isolated task number =
      settled task task_row (λ t. InTenant db user t.company_id) (λ a. a) _ _ (λ a. refl) (λ a h. h)
        (λ a h. h) (under_company db user (λ t. t.company_id) (get_task (int32 number) db.tasks))
  load-Isolated run number =
      settled run run_row (λ r. InTenant db user (run_company db r)) (λ a. a) _ _ (λ a. refl)
        (λ a h. h) (λ a h. h)
        (under_company db user (λ r. run_company db r) (get_run db (int32 number)))
  load-Isolated agent number =
      settled agent agent_row (λ a. InTenant db user a.company_id) (λ a. a) _ _ (λ a. refl)
        (λ a h. h) (λ a h. h)
        (under_company db user (λ a. a.company_id) (first (λ a. a.id == int32 number) db.agents))
  load-Isolated project number =
      settled project project_row (λ p. InTenant db user p.company_id) (λ a. a) _ _ (λ a. refl)
        (λ a h. h) (λ a h. h)
        (under_company db user (λ p. p.company_id) (first (λ p. p.id == int32 number) db.projects))
  load-Isolated skill number =
      settled skill skill_row (λ s. InTenant db user s.company_id) (λ a. a) _ _ (λ a. refl)
        (λ a h. h) (λ a h. h)
        (under_company db user (λ s. s.company_id) (first (λ s. s.id == int32 number) db.skills))
  load-Isolated server number =
      settled server server_row (Reaches db user) (scoped user) _ _ (λ a. refl) (λ a h. h)
        (λ a h. h) (server_found db user (first (λ s. s.id == int32 number) db.servers))
  load-Isolated provider number =
      settled provider provider_row (λ p. p.user_id ≡ some user) (λ a. a) _ _ (λ a. refl) (λ a h. h)
        (λ a h. h)
        (owned_row db user (λ p. p.user_id) (first (λ p. p.id == int32 number) db.providers))
  load-Isolated group number =
      settled group group_row (λ g. g.user_id ≡ some user) (λ a. a) _ _ (λ a. refl) (λ a h. h)
        (λ a h. h)
        (owned_row db user (λ g. g.user_id) (first (λ g. g.id == int32 number) db.groups))
  load-Isolated account number =
      settled account account_row (λ a. a.user_id ≡ some user) (λ a. a) _ _ (λ a. refl) (λ a h. h)
        (λ a h. h)
        (owned_row db user (λ a. a.user_id) (first (λ a. a.id == int32 number) db.accounts))
