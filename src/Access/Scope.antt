-- ===== src/Access/Scope.antt =====
-- access/access.go: which organizations and hosts a user reaches. A scope reads its sets from the
-- stores when it first needs them and keeps them; the stores are parameters, whose answer may change
-- from one read to the next and may be an error (none). A set is kept as the list that was read.
use health_beat.Prelude.{
  ℕ, ◌+◌, Bool, true, false, String, List, [], ◌∷◌, Option, none, some, any, ◌==◌, nat_eq,
  string_eq, if◌then◌else◌,
}

-- `OrgAssignments`, `HostAssignments` and `HostIndex`: each method is told the number of the read.
pub record Resolver : Type 0 where
  pub list_organization_ids : ℕ → ℕ → Option (List ℕ)
  pub list_context_ids : ℕ → ℕ → Option (List ℕ)
  pub list_host_ids : ℕ → ℕ → Option (List ℕ)
  pub list_ids_by_organizations : ℕ → List ℕ → Option (List ℕ)

pub record Scope : Type 0 where
  pub role : String
  pub user_id : ℕ
  pub full_orgs : Option (List ℕ)  -- none: not read yet
  pub context_orgs : Option (List ℕ)
  pub own_hosts : Option (List ℕ)
  pub visible : Option (List ℕ)

-- The scope of a request, and how many reads it has made.
pub record Request : Type 0 where
  pub scope : Scope
  pub reads : ℕ

-- The columns of a host that matter here.
pub record Host : Type 0 where
  pub id : ℕ
  pub organization_id : ℕ

pub data OrgAccess : Type 0 where
  full context hidden : OrgAccess

-- What a method of a scope gives: a value or an error, and the scope afterwards.
abbrev pub Given : Type 0 → Type 0
Given A = Option A × Request

abbrev pub and_then : {A B : Type 0} → Given A → (A → Request → Given B) → Given B
and_then (none, q) k = (none, q)
and_then (some a, q) k = k a q

-- `Resolver.Scope`
unfoldable pub new_scope : String → ℕ → Request
new_scope role user_id = record {
  scope = record {
    role = role;
    user_id = user_id;
    full_orgs = none;
    context_orgs = none;
    own_hosts = none;
    visible = none;
  };
  reads = 0;
}

abbrev pub contains : ℕ → List ℕ → Bool
contains x xs = any (λ y. y == x) xs

-- `IsSuperAdmin`
unfoldable pub is_super_admin : String → Bool
is_super_admin role = role == "super_admin"

abbrev pub set_full : List ℕ → Request → Request
set_full ids q = record { scope = record q.scope { full_orgs = some ids }; reads = q.reads + 1 }

abbrev pub set_context : List ℕ → Request → Request
set_context ids q = record {
  scope = record q.scope { context_orgs = some ids };
  reads = q.reads + 1;
}

abbrev pub set_own : List ℕ → Request → Request
set_own ids q = record { scope = record q.scope { own_hosts = some ids }; reads = q.reads + 1 }

abbrev pub set_visible : List ℕ → Request → Request
set_visible ids q = record q { scope = record q.scope { visible = some ids } }

abbrev pub one_read : Request → Request
one_read q = record q { reads = q.reads + 1 }

-- A set that is there, or that is read (`got`) and kept by `keep`.
unfoldable pub cached :
    Option (List ℕ) → Option (List ℕ) → (List ℕ → Request → Request) → Request → Given (List ℕ)
cached (some ids) got keep q = (some ids, q)
cached none (some ids) keep q = (some ids, keep ids q)
cached none none keep q = (none, one_read q)

-- `loadFullOrgs`
unfoldable pub load_full_orgs : Resolver → Request → Given (List ℕ)
unfolding cached
load_full_orgs r q =
    cached q.scope.full_orgs (r.list_organization_ids q.reads q.scope.user_id) set_full q

-- `loadOwnHosts`
unfoldable pub load_own_hosts : Resolver → Request → Given (List ℕ)
unfolding cached
load_own_hosts r q = cached q.scope.own_hosts (r.list_host_ids q.reads q.scope.user_id) set_own q

-- `ContextOrgIDs`
unfoldable pub context_org_ids : Resolver → Request → Given (List ℕ)
unfolding cached
context_org_ids r q =
    cached q.scope.context_orgs (r.list_context_ids q.reads q.scope.user_id) set_context q

-- `ManagedOrgIDs`
unfoldable pub managed_org_ids : Resolver → Request → Given (List ℕ)
unfolding load_full_orgs
managed_org_ids r q = load_full_orgs r q

-- `CanManageOrg`
unfoldable pub can_manage_org : Resolver → ℕ → Request → Given Bool
unfolding load_full_orgs is_super_admin
can_manage_org r org q =
    if is_super_admin q.scope.role
    then (some true, q)
    else and_then (load_full_orgs r q) (λ ids p. (some (contains org ids), p))

-- `OrgAccess`
unfoldable pub org_access : Resolver → ℕ → Request → Given OrgAccess
unfolding can_manage_org context_org_ids
org_access r org q = and_then (can_manage_org r org q) (λ manages p.
    if manages
    then (some full, p)
    else and_then (context_org_ids r p)
        (λ ids p'. (some (if contains org ids then context else hidden), p')))

-- `CanViewHost`
unfoldable pub can_view_host : Resolver → Host → Request → Given Bool
unfolding can_manage_org load_own_hosts is_super_admin
can_view_host r host q =
    if is_super_admin q.scope.role
    then (some true, q)
    else if q.scope.role == "org_admin"
    then can_manage_org r host.organization_id q
    else if q.scope.role == "operator"
    then and_then (load_own_hosts r q) (λ ids p. (some (contains host.id ids), p))
    else (some false, q)

-- `CanManageThreshold`; none is the general default.
unfoldable pub can_manage_threshold : Resolver → Option ℕ → Request → Given Bool
unfolding can_manage_org is_super_admin
can_manage_threshold r none q = (some (is_super_admin q.scope.role), q)
can_manage_threshold r (some org) q = can_manage_org r org q

-- The hosts that `VisibleHostIDs` reads for the role.
unfoldable pub read_visible : Resolver → Request → Given (List ℕ)
unfolding load_full_orgs load_own_hosts
read_visible r q =
    if q.scope.role == "org_admin"
    then and_then (load_full_orgs r q)
        (λ orgs p. (r.list_ids_by_organizations p.reads orgs, one_read p))
    else if q.scope.role == "operator"
    then load_own_hosts r q
    else (some [], q)

abbrev pub visible_or : Option (List ℕ) → Request → Given (List ℕ) → Given (List ℕ)
visible_or (some ids) q read = (some ids, q)
visible_or none q read = and_then read (λ ids p. (some ids, set_visible ids p))

abbrev pub limited : List ℕ → Request → Given (Option (List ℕ))
limited ids q = (some (some ids), q)

-- `VisibleHostIDs`; none is no limit.
unfoldable pub visible_host_ids : Resolver → Request → Given (Option (List ℕ))
unfolding is_super_admin read_visible
visible_host_ids r q =
    if is_super_admin q.scope.role
    then (some none, q)
    else and_then (visible_or q.scope.visible q (read_visible r q)) limited

-- The methods as questions, and their answers.
pub data Question : Type 0 where
  manages_org : ℕ → Question
  access_to_org : ℕ → Question
  views_host : Host → Question
  manages_threshold : Option ℕ → Question
  visible_hosts managed_orgs context_organizations : Question

pub data Answer : Type 0 where
  yes_no : Bool → Answer
  access : OrgAccess → Answer
  ids : Option (List ℕ) → Answer

abbrev pub as_answer : {A : Type 0} → (A → Answer) → Given A → Given Answer
as_answer f p = and_then p (λ a q. (some (f a), q))

unfoldable pub ask : Resolver → Question → Request → Given Answer
unfolding can_manage_org org_access can_view_host can_manage_threshold visible_host_ids
    managed_org_ids context_org_ids
ask r (manages_org org) q = as_answer yes_no (can_manage_org r org q)
ask r (access_to_org org) q = as_answer access (org_access r org q)
ask r (views_host host) q = as_answer yes_no (can_view_host r host q)
ask r (manages_threshold org) q = as_answer yes_no (can_manage_threshold r org q)
ask r visible_hosts q = as_answer ids (visible_host_ids r q)
ask r managed_orgs q = as_answer (λ l. ids (some l)) (managed_org_ids r q)
ask r context_organizations q = as_answer (λ l. ids (some l)) (context_org_ids r q)

-- The questions of a request, in order.
unfoldable pub ask_all : Resolver → List Question → Request → List (Option Answer) × Request
unfolding ask
ask_all r [] q = ([], q)
ask_all r (c ∷ cs) q =
    let one = ask r c q in let rest = ask_all r cs one.1 in (one.0 ∷ rest.0, rest.1)
