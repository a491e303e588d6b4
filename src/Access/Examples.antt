-- ===== src/Access/Examples.antt =====
-- Runs of scopes at concrete inputs: tests, and instances of the theorems.
use health_beat.Prelude.{
  ℕ, true, List, [], ◌∷◌, none, some, map, ◌≡◌, refl, arith, leb, if◌then◌else◌,
}
use health_beat.Access.Scope.{
  Resolver, Host, Question, manages_org, access_to_org, views_host, visible_hosts, yes_no, ask,
  ask_all, new_scope, can_manage_org, load_full_orgs, cached, is_super_admin, contains,
}
use health_beat.Access.Directory.{Directory, steady, answer}
use health_beat.Access.Refines.{ask_all-refines, Agree, views-Agree}
use health_beat.Access.Stable.{ask-again}

-- Organization 1 has the hosts 10 and 11; 2 is below it and has the host 20.
abbrev hosts_of : List ℕ → List ℕ
hosts_of orgs =
    (if contains 1 orgs then 10 ∷ 11 ∷ (if contains 2 orgs then 20 ∷ [] else []) else [])

abbrev directory : Directory
directory = record { full = 1 ∷ 2 ∷ []; above = 7 ∷ []; own = 20 ∷ []; hosts_of = hosts_of }

abbrev host : Host
host = record { id = 10; organization_id = 1 }

abbrev questions : List Question
questions = views_host host ∷ visible_hosts ∷ access_to_org 7 ∷ manages_org 3 ∷ []

ask_all-refines_example :
    (ask_all (steady directory) questions (new_scope "org_admin" 5)).0
    ≡ map (λ c. some (answer directory "org_admin" c)) questions
ask_all-refines_example = ask_all-refines directory "org_admin" 5 questions

-- The index lists host 10 under organization 1 alone.
indexed : (orgs : List ℕ) → contains 10 (hosts_of orgs) ≡ contains 1 orgs
indexed orgs = ground arith

views-Agree_example : Agree directory "org_admin" 5 host
unfolding is_super_admin
views-Agree_example = views-Agree directory "org_admin" 5 host refl indexed

-- Stores that lose the user's assignments after the first read.
abbrev forgetful : Resolver
forgetful = record {
  list_organization_ids = λ n user. if leb n 0 then some (1 ∷ []) else none;
  list_context_ids = λ n user. none;
  list_host_ids = λ n user. none;
  list_ids_by_organizations = λ n orgs. none;
}

ask-again_example :
    ask forgetful
      (manages_org 1)
      (ask_all forgetful
        (visible_hosts ∷ access_to_org 4 ∷ [])
        (ask forgetful (manages_org 1) (new_scope "org_admin" 5)).1).1
    ≡ (
      some (yes_no true),
      (ask_all forgetful
          (visible_hosts ∷ access_to_org 4 ∷ [])
          (ask forgetful (manages_org 1) (new_scope "org_admin" 5)).1).1,
    )
unfolding ask can_manage_org load_full_orgs cached is_super_admin new_scope
ask-again_example =
    ask-again (manages_org 1) (yes_no true) (visible_hosts ∷ access_to_org 4 ∷ []) forgetful
      forgetful forgetful (new_scope "org_admin" 5) refl
