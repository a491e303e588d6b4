-- ===== src/Access/Directory.antt =====
-- access/access.go: what a user reaches, told from what the stores hold, without caches or reads.
use health_beat.Prelude.{
  ℕ, Bool, true, false, String, List, [], none, some, ◌==◌, string_eq, if◌then◌else◌,
}
use health_beat.Access.Scope.{
  Resolver, Host, OrgAccess, full, context, hidden, Question, manages_org, access_to_org,
  views_host, manages_threshold, visible_hosts, managed_orgs, context_organizations, Answer, yes_no,
  access, ids, contains, is_super_admin,
}

-- What the stores hold on a user.
pub record Directory : Type 0 where
  pub full : List ℕ
  pub above : List ℕ
  pub own : List ℕ
  pub hosts_of : List ℕ → List ℕ

-- Stores that hold it for the time of a request and do not fail.
abbrev pub steady : Directory → Resolver
steady d = record {
  list_organization_ids = λ n user. some d.full;
  list_context_ids = λ n user. some d.above;
  list_host_ids = λ n user. some d.own;
  list_ids_by_organizations = λ n orgs. some (d.hosts_of orgs);
}

unfoldable pub manages : Directory → String → ℕ → Bool
unfolding is_super_admin
manages d role org = if is_super_admin role then true else contains org d.full

unfoldable pub access_of : Directory → String → ℕ → OrgAccess
unfolding manages
access_of d role org =
    if manages d role org then full else if contains org d.above then context else hidden

unfoldable pub views : Directory → String → Host → Bool
unfolding is_super_admin manages
views d role host =
    if is_super_admin role
    then true
    else if role == "org_admin"
    then manages d role host.organization_id
    else if role == "operator"
    then contains host.id d.own
    else false

-- The hosts of a user that is not a super admin.
unfoldable pub reached : Directory → String → List ℕ
reached d role =
    if role == "org_admin" then d.hosts_of d.full else if role == "operator" then d.own else []

unfoldable pub answer : Directory → String → Question → Answer
unfolding manages access_of views reached is_super_admin
answer d role (manages_org org) = yes_no (manages d role org)
answer d role (access_to_org org) = access (access_of d role org)
answer d role (views_host host) = yes_no (views d role host)
answer d role (manages_threshold none) = yes_no (is_super_admin role)
answer d role (manages_threshold (some org)) = yes_no (manages d role org)
answer d role visible_hosts = ids (if is_super_admin role then none else some (reached d role))
answer d role managed_orgs = ids (some d.full)
answer d role context_organizations = ids (some d.above)
