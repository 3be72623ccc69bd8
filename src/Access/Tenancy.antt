-- ===== src/Access/Tenancy.antt =====
-- A user reaches exactly the rows of the user's own tenants.
use headcount.Prelude.{
  ℕ, ◌≡◌, ◌≤◌, refl, sym, ap, subst, ◌∙◌, ◌⊎◌, inl, inr, Bool, true, false, ◌&&◌, Option, none,
  some, Result, ok, err, ◌>>=◌, if◌then◌else◌, ◌==◌, first, count, count-first, first-holds,
  count-All, All-mem, first-mem, Memᴰ, arith, Bool-cases, Option-cases, some-injective,
}
use headcount.Access.{
  Company, TeamMember, Project, McpServer, Tables, AccessError, not_found, not_owned, loaded,
  is_team_member, grants_with, company_grants_user, get_company, authorize_company,
  authorize_project, owned_by_user, scoped, authorize_custom,
}

module _ (db : Tables) (user : ℕ) where
  abbrev pub IsMember : ℕ → Type 0
  IsMember team = (m : TeamMember) × Memᴰ m db.members × (m.team_id ≡ team) × (m.user_id ≡ user)

  abbrev pub GrantedBy : Option ℕ → Option ℕ → Type 0
  GrantedBy none owner = owner ≡ some user
  GrantedBy (some team) owner = IsMember team

  -- A team's company is open to the members of the team, any other to its creator.
  abbrev pub Grants : Company → Type 0
  Grants c = GrantedBy c.team_id c.user_id

  abbrev pub InTenant : ℕ → Type 0
  InTenant id = (c : Company) × (get_company db id ≡ some c) × Grants c

  -- A call finds a row that the user owns, and shows it, or it fails and there is none.
  abbrev pub Decides {ℓ} :
      {A : Type ℓ} → (A → Type 0) → (A → A) → Option A → Result AccessError A → Type ℓ
  Decides {A = A} Own show o r =
      ((a : A) × (o ≡ some a) × (r ≡ ok (show a)) × Own a)
      ⊎ ((e : AccessError) × (r ≡ err e) × ((a : A) → o ≡ some a → Own a → ⊥))

  is_team_member-IsMember : (team : ℕ) → is_team_member db team user ≡ true → IsMember team
  unfolding is_team_member
  is_team_member-IsMember team h =
      let mine = λ (m : TeamMember). m.team_id == team && m.user_id == user in
      let one : 1 ≤ count mine db.members = ground arith in
      let (m, found) = count-first mine db.members one in
      let fits : mine m ≡ true = first-holds mine db.members found in
      (m, first-mem mine db.members found, ground arith, ground arith)

  member_counts : (team : ℕ) → IsMember team → is_team_member db team user ≡ true
  unfolding is_team_member
  member_counts team (m, inside, team_is, user_is) =
      let mine = λ (r : TeamMember). r.team_id == team && r.user_id == user in
      let fits : mine m ≡ true = ground arith in
      let some_row : count mine db.members ≡ 0 → ⊥ = λ e.
        let misses : mine m ≡ false =
          All-mem (λ r. mine r ≡ false) db.members (count-All mine db.members e) inside in
        cc in
      ground (arith, some_row)

  grants_to : (team owner : Option ℕ) → grants_with db user team owner ≡ true → GrantedBy team owner
  grants_to none none h = cc
  grants_to none (some o) h = ap some (ground arith)
  grants_to (some team) owner h = is_team_member-IsMember team h

  grants_from :
      (team owner : Option ℕ) → GrantedBy team owner → grants_with db user team owner ≡ true
  grants_from none owner h = rw h (ground arith)
  grants_from (some team) owner h = member_counts team h

  pub company_grants_user-Grants : (c : Company) → company_grants_user db c user ≡ true → Grants c
  unfolding company_grants_user
  company_grants_user-Grants c h = grants_to c.team_id c.user_id h

  Grants-company_grants_user : (c : Company) → Grants c → company_grants_user db c user ≡ true
  unfolding company_grants_user
  Grants-company_grants_user c h = grants_from c.team_id c.user_id h

  module _ {ℓ} {A : Type ℓ} where
    -- A row that a test admits.
    tested :
        (Own : A → Type 0) (test : A → Bool) (o : Option A)
        → ((a : A) → test a ≡ true → Own a)
        → ((a : A) → Own a → test a ≡ true)
        → Decides Own (λ a. a) o (loaded o >>= λ a. if test a then ok a else err not_owned)
    tested Own test none to back = inr (not_found, refl, λ a e. cc)
    tested Own test (some a) to back = elim (Bool-cases (test a)) [
      | inl t ↦ rw t (inl (a, refl, refl, to a t))
      | inr f ↦ rw f (
          inr (
            not_owned,
            refl,
            λ b e own.
                let fits : test a ≡ true = back a (subst Own (sym (some-injective _ _ e)) own) in
                cc,
          ))
    ]

    -- A row of a company.
    pub under_company :
        (company_of : A → ℕ) (o : Option A)
        → Decides
            (λ a. InTenant (company_of a))
            (λ a. a)
            o
            (loaded o >>= λ a. authorize_company db user (company_of a) >>= λ _. ok a)
    unfolding authorize_company
    under_company company_of none = inr (not_found, refl, λ a e. cc)
    under_company company_of (some a) = elim (Option-cases (get_company db (company_of a))) [
      | inl gone ↦ rw gone (
          inr (
            not_found,
            refl,
            λ b e own.
                let (c, found, grants) =
                  subst (λ z. InTenant (company_of z)) (sym (some-injective _ _ e)) own in
                cc,
          ))
      | inr (c, found) ↦ elim (Bool-cases (company_grants_user db c user)) [
        | inl t ↦ rw (found, t) (inl (a, refl, refl, (c, found, company_grants_user-Grants c t)))
        | inr f ↦
            rw (found, f)
              (inr (
                not_owned,
                refl,
                λ b e own.
                    let (c', found', grants) =
                      subst (λ z. InTenant (company_of z)) (sym (some-injective _ _ e)) own in
                    let same : c' ≡ c = some-injective _ _ (sym found' ∙ found) in
                    let fits : company_grants_user db c user ≡ true =
                      ap (λ z. company_grants_user db z user) (sym same)
                      ∙ Grants-company_grants_user c' grants in
                    cc,
              ))
      ]
    ]

  pub authorize_company-Decides :
      (id : ℕ) → Decides Grants (λ c. c) (get_company db id) (authorize_company db user id)
  unfolding authorize_company
  authorize_company-Decides id =
      tested Grants (λ c. company_grants_user db c user) (get_company db id)
        company_grants_user-Grants Grants-company_grants_user

  owned : (row_user : Option ℕ) → owned_by_user user row_user ≡ true → row_user ≡ some user
  unfolding owned_by_user
  owned none h = cc
  owned (some u) h = ap some (ground arith)

  owned_back : (row_user : Option ℕ) → row_user ≡ some user → owned_by_user user row_user ≡ true
  unfolding owned_by_user
  owned_back row_user h = rw h (ground arith)

  pub owned_row :
      {A : Type 0} (owner_of : A → Option ℕ) (o : Option A)
      → Decides
          (λ a. owner_of a ≡ some user)
          (λ a. a)
          o
          (loaded o >>= λ a. if owned_by_user user (owner_of a) then ok a else err not_owned)
  owned_row owner_of o =
      tested (λ a. owner_of a ≡ some user) (λ a. owned_by_user user (owner_of a)) o
        (λ a. owned (owner_of a)) (λ a. owned_back (owner_of a))

  -- A server of the catalog is open to all; one of a project to the tenant of the project; any other to
  -- its owner.
  abbrev pub ReachedBy : Bool → Option ℕ → Option ℕ → Type 0
  ReachedBy true project owner = Unit
  ReachedBy false none owner = owner ≡ some user
  ReachedBy false (some id) owner =
      (project : Project) × (first (λ p. p.id == id) db.projects ≡ some project)
      × InTenant project.company_id

  abbrev pub Reaches : McpServer → Type 0
  Reaches s = ReachedBy s.builtin s.project_id s.owner_user_id

  server_decided :
      (t : McpServer) (builtin : Bool) (project : Option ℕ)
      → let r = if builtin then ok t else authorize_custom db user t project in
        ((r ≡ ok t) × ReachedBy builtin project t.owner_user_id)
        ⊎ ((e : AccessError) × (r ≡ err e) × (ReachedBy builtin project t.owner_user_id → ⊥))
  unfolding authorize_project
  server_decided t true project = inl (refl, tt)
  server_decided t false none = elim (Bool-cases (owned_by_user user t.owner_user_id)) [
    | inl mine ↦ rw mine (inl (refl, owned t.owner_user_id mine))
    | inr other ↦
        rw other (inr (not_owned, refl, λ own. let mine = owned_back t.owner_user_id own in cc))
  ]
  server_decided t false (some id) =
      elim (under_company (λ p. p.company_id) (first (λ p. p.id == id) db.projects)) [
        | inl (project, found, fine, own) ↦ rw fine (inl (refl, (project, found, own)))
        | inr (e, bad, no_project) ↦
            rw bad (inr (e, refl, λ (project, found, own). no_project project found own))
      ]

  pub server_found :
      (o : Option McpServer)
      → Decides Reaches (scoped user) o (
          loaded o >>= λ s.
          if s.builtin
          then ok (scoped user s)
          else authorize_custom db user (scoped user s) s.project_id)
  server_found none = inr (not_found, refl, λ a e. cc)
  server_found (some s) = elim (server_decided (scoped user s) s.builtin s.project_id) [
    | inl (fine, own) ↦ inl (s, refl, fine, own)
    | inr (e, bad, foreign) ↦
        inr (e, bad, λ b same own. foreign (subst Reaches (sym (some-injective _ _ same)) own))
  ]
