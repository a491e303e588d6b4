-- ===== src/Access/Refines.antt =====
-- access/access.go: a scope over stores that do not change answers as the directory does.
use health_beat.Prelude.{
  ℕ, Bool, true, false, String, List, [], ◌∷◌, Option, none, some, map, ◌==◌, string_eq,
  if◌then◌else◌, ◌≡◌, refl, sym, ap, ◌∙◌, subst, arith,
}
use health_beat.Access.Scope.{
  Request, Host, full, Given, and_then, cached, set_full, set_context, set_own, load_full_orgs,
  load_own_hosts, context_org_ids, managed_org_ids, can_manage_org, org_access, can_view_host,
  can_manage_threshold, read_visible, visible_or, limited, visible_host_ids, as_answer, ask,
  ask_all, new_scope, is_super_admin, contains, Question, manages_org, access_to_org, views_host,
  manages_threshold, visible_hosts, managed_orgs, context_organizations, Answer, yes_no, access,
  ids,
}
use health_beat.Access.Directory.{Directory, steady, manages, access_of, views, reached, answer}

-- A set that has been read is the directory's.
abbrev pub Matches : Option (List ℕ) → List ℕ → Type 0
Matches none l = Unit
Matches (some a) l = a ≡ l

module _ (d : Directory) (role : String) where
  abbrev pub Coherent : Request → Type 0
  Coherent q =
      (q.scope.role ≡ role)
      × (Matches q.scope.full_orgs d.full
          × (Matches q.scope.context_orgs d.above
              × (Matches q.scope.own_hosts d.own × Matches q.scope.visible (reached d role))))

  -- The value, and a coherent request.
  abbrev pub Gives : {A : Type 0} → A → Given A → Type 0
  Gives x p = (p.0 ≡ some x) × Coherent p.1

  and_then-Gives :
      {A B : Type 0} (a : A) (b : B) (p : Given A) (k : A → Request → Given B)
      → Gives a p
      → ((q : Request) → Coherent q → Gives b (k a q))
      → Gives b (and_then p k)
  and_then-Gives a b (o, q) k g f = subst (λ o'. Gives b (and_then (o', q) k)) (sym g.0) (f q g.1)

  if-Gives :
      {A : Type 0} (c c' : Bool) (a b : A) (p p' : Given A)
      → c ≡ c'
      → Gives a p
      → Gives b p'
      → Gives (if c' then a else b) (if c then p else p')
  if-Gives true c' a b p p' e g g' = subst (λ t. Gives (if t then a else b) p) e g
  if-Gives false c' a b p p' e g g' = subst (λ t. Gives (if t then a else b) p') e g'

  cached-Gives :
      (o : Option (List ℕ)) (l : List ℕ) (keep : List ℕ → Request → Request) (q : Request)
      → Matches o l
      → Coherent q
      → Coherent (keep l q)
      → Gives l (cached o (some l) keep q)
  unfolding cached
  cached-Gives none l keep q m c c' = (refl, c')
  cached-Gives (some a) l keep q m c c' = (ap some m, c)

  full-Gives : (q : Request) → Coherent q → Gives d.full (load_full_orgs (steady d) q)
  unfolding load_full_orgs
  full-Gives q c = cached-Gives q.scope.full_orgs d.full set_full q c.1.0 c (c.0, (refl, c.1.1))

  own-Gives : (q : Request) → Coherent q → Gives d.own (load_own_hosts (steady d) q)
  unfolding load_own_hosts
  own-Gives q c =
      cached-Gives q.scope.own_hosts d.own set_own q c.1.1.1.0 c
        (c.0, (c.1.0, (c.1.1.0, (refl, c.1.1.1.1))))

  context-Gives : (q : Request) → Coherent q → Gives d.above (context_org_ids (steady d) q)
  unfolding context_org_ids
  context-Gives q c =
      cached-Gives q.scope.context_orgs d.above set_context q c.1.1.0 c
        (c.0, (c.1.0, (refl, c.1.1.1)))

  manage-Gives :
      (org : ℕ) (q : Request)
      → Coherent q
      → Gives (manages d role org) (can_manage_org (steady d) org q)
  unfolding can_manage_org manages
  manage-Gives org q c =
      if-Gives _ _ true (contains org d.full) _ _ (ap is_super_admin c.0) (refl, c)
        (and_then-Gives d.full (contains org d.full) (load_full_orgs (steady d) q) _
          (full-Gives q c) (λ p c'. (refl, c')))

  access-Gives :
      (org : ℕ) (q : Request)
      → Coherent q
      → Gives (access_of d role org) (org_access (steady d) org q)
  unfolding org_access access_of
  access-Gives org q c =
      and_then-Gives (manages d role org) (access_of d role org) (can_manage_org (steady d) org q) _
        (manage-Gives org q c)
        (λ p c'.
          if-Gives (manages d role org) _ full _ _ _ refl (refl, c')
            (and_then-Gives d.above _ (context_org_ids (steady d) p) _ (context-Gives p c')
              (λ p' c''. (refl, c''))))

  view-Gives :
      (host : Host) (q : Request)
      → Coherent q
      → Gives (views d role host) (can_view_host (steady d) host q)
  unfolding can_view_host views
  view-Gives host q c =
      if-Gives _ _ true _ _ _ (ap is_super_admin c.0) (refl, c)
        (if-Gives _ _ (manages d role host.organization_id) _ _ _ (ap (λ s. s == "org_admin") c.0)
          (manage-Gives host.organization_id q c)
          (if-Gives _ _ (contains host.id d.own) false _ _ (ap (λ s. s == "operator") c.0)
            (and_then-Gives d.own _ (load_own_hosts (steady d) q) _ (own-Gives q c)
              (λ p c'. (refl, c')))
            (refl, c)))

  read_visible-Gives :
      (q : Request) → Coherent q → Gives (reached d role) (read_visible (steady d) q)
  unfolding read_visible reached
  read_visible-Gives q c =
      if-Gives _ _ (d.hosts_of d.full) _ _ _ (ap (λ s. s == "org_admin") c.0)
        (and_then-Gives d.full _ (load_full_orgs (steady d) q) _ (full-Gives q c)
          (λ p c'. (refl, c')))
        (if-Gives _ _ d.own [] _ _ (ap (λ s. s == "operator") c.0) (own-Gives q c) (refl, c))

  visible_or-Gives :
      (o : Option (List ℕ)) (q : Request) (p : Given (List ℕ))
      → Matches o (reached d role)
      → Coherent q
      → Gives (reached d role) p
      → Gives (reached d role) (visible_or o q p)
  visible_or-Gives (some a) q p m c g = (ap some m, c)
  visible_or-Gives none q p m c g =
      and_then-Gives (reached d role) (reached d role) p _ g
        (λ p' c'. (refl, (c'.0, (c'.1.0, (c'.1.1.0, (c'.1.1.1.0, refl))))))

  visible-Gives :
      (q : Request)
      → Coherent q
      → Gives
          (if is_super_admin role then none else some (reached d role))
          (visible_host_ids (steady d) q)
  unfolding visible_host_ids
  visible-Gives q c =
      if-Gives _ _ none (some (reached d role)) _ _ (ap is_super_admin c.0) (refl, c)
        (and_then-Gives (reached d role) (some (reached d role))
          (visible_or q.scope.visible q (read_visible (steady d) q)) limited
          (visible_or-Gives q.scope.visible q _ c.1.1.1.1 c (read_visible-Gives q c))
          (λ p c'. (refl, c')))

  as_answer-Gives :
      {A : Type 0} (f : A → Answer) (a : A) (p : Given A) → Gives a p → Gives (f a) (as_answer f p)
  as_answer-Gives f a p g = and_then-Gives a (f a) p _ g (λ q c. (refl, c))

  ask-Gives :
      (c : Question) (q : Request) → Coherent q → Gives (answer d role c) (ask (steady d) c q)
  unfolding ask answer managed_org_ids can_manage_threshold
  ask-Gives (manages_org org) q c = as_answer-Gives yes_no _ _ (manage-Gives org q c)
  ask-Gives (access_to_org org) q c = as_answer-Gives access _ _ (access-Gives org q c)
  ask-Gives (views_host host) q c = as_answer-Gives yes_no _ _ (view-Gives host q c)
  ask-Gives (manages_threshold none) q c =
      as_answer-Gives yes_no _ (some (is_super_admin q.scope.role), q)
        (ap (λ s. some (is_super_admin s)) c.0, c)
  ask-Gives (manages_threshold (some org)) q c = as_answer-Gives yes_no _ _ (manage-Gives org q c)
  ask-Gives visible_hosts q c = as_answer-Gives ids _ _ (visible-Gives q c)
  ask-Gives managed_orgs q c = as_answer-Gives (λ l. ids (some l)) _ _ (full-Gives q c)
  ask-Gives context_organizations q c = as_answer-Gives (λ l. ids (some l)) _ _ (context-Gives q c)

  ask_all-answers :
      (cs : List Question) (q : Request)
      → Coherent q
      → (ask_all (steady d) cs q).0 ≡ map (λ c. some (answer d role c)) cs
  unfolding ask_all
  ask_all-answers [] q c = refl
  ask_all-answers (x ∷ cs) q c =
      let one = ask-Gives x q c in
      ap (λ o. o ∷ (ask_all (steady d) cs (ask (steady d) x q).1).0) one.0
      ∙ ap (λ l. some (answer d role x) ∷ l) (ask_all-answers cs (ask (steady d) x q).1 one.1)

-- Over stores that do not fail and hold the same for the time of a request, any questions in any
-- order are answered as the directory answers each by itself: the sets that a scope keeps change no
-- answer.
pub ask_all-refines :
    (d : Directory) (role : String) (user : ℕ) (cs : List Question)
    → (ask_all (steady d) cs (new_scope role user)).0 ≡ map (λ c. some (answer d role c)) cs
unfolding new_scope
ask_all-refines d role user cs =
    ask_all-answers d role cs (new_scope role user) (refl, (tt, (tt, (tt, tt))))

-- The answers to whether a host is viewed and to which hosts are visible.
abbrev pub Agree : Directory → String → ℕ → Host → Type 0
Agree d role user host =
    (b : Bool) × ((l : List ℕ) × (((ask_all (steady d) (views_host host ∷ visible_hosts ∷ [])
            (new_scope role user)).0
          ≡ some (yes_no b) ∷ some (ids (some l)) ∷ [])
        × (b ≡ contains host.id l)))

reached-views :
    (d : Directory) (role : String) (host : Host)
    → is_super_admin role ≡ false
    → ((orgs : List ℕ) → contains host.id (d.hosts_of orgs) ≡ contains host.organization_id orgs)
    → views d role host ≡ contains host.id (reached d role)
unfolding views manages reached
reached-views d role host limits indexed = ground (arith, limits, indexed d.full)

-- For a user who is not a super admin, a host is viewed exactly where it is among the visible hosts,
-- over stores that do not fail and hold the same for the time of the request, whose index lists the
-- host under exactly its own organization.
pub views-Agree :
    (d : Directory) (role : String) (user : ℕ) (host : Host)
    → is_super_admin role ≡ false
    → ((orgs : List ℕ) → contains host.id (d.hosts_of orgs) ≡ contains host.organization_id orgs)
    → Agree d role user host
unfolding answer
views-Agree d role user host limits indexed = (
  views d role host,
  (
    reached d role,
    (
      ask_all-refines d role user (views_host host ∷ visible_hosts ∷ [])
          ∙ ap
              (λ b.
                some (yes_no (views d role host))
                ∷ some (ids (if b then none else some (reached d role)))
                ∷ [])
              limits,
      reached-views d role host limits indexed,
    ),
  ),
)
