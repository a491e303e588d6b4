-- ===== src/Access/Stable.antt =====
-- access/access.go: within a request an answer does not change, whatever the stores say later.
use health_beat.Prelude.{
  ℕ, Bool, true, false, List, [], ◌∷◌, Option, none, some, ◌==◌, string_eq, if◌then◌else◌, ◌≡◌,
  refl, sym, ap, ◌∙◌, subst, arith, if-holds,
}
use health_beat.Access.Scope.{
  Resolver, Request, Host, full, context, hidden, Given, and_then, load_full_orgs, load_own_hosts,
  context_org_ids, managed_org_ids, can_manage_org, org_access, can_view_host, can_manage_threshold,
  read_visible, visible_or, limited, visible_host_ids, as_answer, ask, ask_all, is_super_admin,
  contains, Question, manages_org, access_to_org, views_host, manages_threshold, visible_hosts,
  managed_orgs, context_organizations, Answer, yes_no, access, ids,
}
use health_beat.Access.Settles.{
  Stays, Grows, Grows-refl, Grows-trans, Settles, Method, value-Settles, and_then-Settles,
  branch-Settles,
}
use health_beat.Access.Kept.{full-Settles, own-Settles, context-Settles}

manage-Settles :
    (org : ℕ) (r : Resolver) (q : Request) → Settles (λ r q. can_manage_org r org q) r q
unfolding can_manage_org
manage-Settles org r q =
    branch-Settles is_super_admin (λ r q. (some true, q))
      (λ r q. and_then (load_full_orgs r q) (λ ids p. (some (contains org ids), p))) r q
      (value-Settles true r q)
      (and_then-Settles load_full_orgs (λ ids r p. (some (contains org ids), p)) r q
        (full-Settles r q) (λ ids p. value-Settles (contains org ids) r p))

pick-Settles :
    {A : Type 0} (b : Bool) (act act' : Method A) (r : Resolver) (q : Request)
    → Settles act r q
    → Settles act' r q
    → Settles (λ r q. if b then act r q else act' r q) r q
pick-Settles true act act' r q s s' = s
pick-Settles false act act' r q s s' = s'

access-Settles : (org : ℕ) (r : Resolver) (q : Request) → Settles (λ r q. org_access r org q) r q
unfolding org_access
access-Settles org r q =
    and_then-Settles (λ r q. can_manage_org r org q)
      (λ manages r p.
        if manages
        then (some full, p)
        else and_then (context_org_ids r p)
            (λ ids p'. (some (if contains org ids then context else hidden), p')))
      r q (manage-Settles org r q)
      (λ manages p.
        pick-Settles manages (λ r p. (some full, p)) _ r p (value-Settles full r p)
          (and_then-Settles context_org_ids
            (λ ids r p'. (some (if contains org ids then context else hidden), p')) r p
            (context-Settles r p)
            (λ ids p'. value-Settles (if contains org ids then context else hidden) r p')))

view-Settles :
    (host : Host) (r : Resolver) (q : Request) → Settles (λ r q. can_view_host r host q) r q
unfolding can_view_host
view-Settles host r q =
    branch-Settles is_super_admin (λ r q. (some true, q)) _ r q (value-Settles true r q)
      (branch-Settles (λ role. role == "org_admin") (λ r q. can_manage_org r host.organization_id q)
        _ r q (manage-Settles host.organization_id r q)
        (branch-Settles (λ role. role == "operator")
          (λ r q. and_then (load_own_hosts r q) (λ ids p. (some (contains host.id ids), p)))
          (λ r q. (some false, q)) r q
          (and_then-Settles load_own_hosts (λ ids r p. (some (contains host.id ids), p)) r q
            (own-Settles r q) (λ ids p. value-Settles (contains host.id ids) r p))
          (value-Settles false r q)))

and_then-Grows :
    {A B : Type 0} (q : Request) (p : Given A) (k : A → Request → Given B)
    → Grows q p.1
    → ((a : A) (p' : Request) → Grows p' (k a p').1)
    → Grows q (and_then p k).1
and_then-Grows q (none, q1) k g f = g
and_then-Grows q (some a, q1) k g f = Grows-trans q q1 (k a q1).1 g (f a q1)

read_visible-Grows : (r : Resolver) (q : Request) → Grows q (read_visible r q).1
unfolding read_visible
read_visible-Grows r q =
    let G = λ (p : Given (List ℕ)). Grows q p.1 in
    if-holds G (q.scope.role == "org_admin") _ _
      (and_then-Grows q (load_full_orgs r q) _ (full-Settles r q).0 (λ orgs p. Grows-refl p))
      (if-holds G (q.scope.role == "operator") _ _ (own-Settles r q).0 (Grows-refl q))

abbrev load_visible : Method (List ℕ)
load_visible r q = visible_or q.scope.visible q (read_visible r q)

visible_again :
    (o : Option (List ℕ)) (l : List ℕ) (q : Request) (p : Given (List ℕ))
    → o ≡ some l
    → visible_or o q p ≡ (some l, q)
visible_again (some a) l q p e = ap (λ o. (o, q)) e
visible_again none l q p e = ground (arith, e)

load_visible-Settles : (r : Resolver) (q : Request) → Settles load_visible r q
load_visible-Settles r q = by_set q.scope.visible (read_visible r q) refl (read_visible-Grows r q)
  where
    Steady : Given (List ℕ) → Type 0
    Steady p =
        Grows q p.1
        × ((a : List ℕ)
            → p.0 ≡ some a
            → (r' : Resolver) (q' : Request) → Grows p.1 q'
            → load_visible r' q' ≡ (some a, q'))

    by_set :
        (o : Option (List ℕ)) (p : Given (List ℕ))
        → q.scope.visible ≡ o
        → Grows q p.1
        → Steady (visible_or o q p)
    by_set (some l) p e g = (
      Grows-refl q,
      λ a h r' q' grown.
          visible_again q'.scope.visible a q' (read_visible r' q')
            (subst (λ o. Stays o q'.scope.visible) e grown.1.1.1.1 ∙ h),
    )
    by_set none (none, q1) e g = (g, λ a h r' q' grown. ground (arith, h))
    by_set none (some l, q1) e g = (
      (g.0, (g.1.0, (g.1.1.0, (g.1.1.1.0, subst (λ o. Stays o (some l)) (sym e) tt)))),
      λ a h r' q' grown.
          visible_again q'.scope.visible a q' (read_visible r' q') (grown.1.1.1.1 ∙ h),
    )

visible-Settles : (r : Resolver) (q : Request) → Settles visible_host_ids r q
unfolding visible_host_ids
visible-Settles r q =
    branch-Settles is_super_admin (λ r q. (some none, q))
      (λ r q. and_then (load_visible r q) limited) r q (value-Settles none r q)
      (and_then-Settles load_visible (λ l r p. limited l p) r q (load_visible-Settles r q)
        (λ l p. value-Settles (some l) r p))

answer-Settles :
    {A : Type 0} (f : A → Answer) (act : Method A) (r : Resolver) (q : Request)
    → Settles act r q
    → Settles (λ r q. as_answer f (act r q)) r q
answer-Settles f act r q s =
    and_then-Settles act (λ a r p. (some (f a), p)) r q s (λ a p. value-Settles (f a) r p)

threshold-Settles :
    (org : Option ℕ) (r : Resolver) (q : Request)
    → Settles (λ r q. can_manage_threshold r org q) r q
unfolding can_manage_threshold
threshold-Settles none r q =
    (Grows-refl q, λ a h r' q' g. ap (λ o. (o, q')) (ap (λ s. some (is_super_admin s)) g.0 ∙ h))
threshold-Settles (some org) r q = manage-Settles org r q

ask-Settles : (c : Question) (r : Resolver) (q : Request) → Settles (λ r q. ask r c q) r q
unfolding ask managed_org_ids
ask-Settles (manages_org org) r q = answer-Settles yes_no _ r q (manage-Settles org r q)
ask-Settles (access_to_org org) r q = answer-Settles access _ r q (access-Settles org r q)
ask-Settles (views_host host) r q = answer-Settles yes_no _ r q (view-Settles host r q)
ask-Settles (manages_threshold org) r q = answer-Settles yes_no _ r q (threshold-Settles org r q)
ask-Settles visible_hosts r q = answer-Settles ids _ r q (visible-Settles r q)
ask-Settles managed_orgs r q =
    answer-Settles (λ l. ids (some l)) load_full_orgs r q (full-Settles r q)
ask-Settles context_organizations r q =
    answer-Settles (λ l. ids (some l)) context_org_ids r q (context-Settles r q)

ask_all-Grows : (cs : List Question) (r : Resolver) (q : Request) → Grows q (ask_all r cs q).1
unfolding ask_all
ask_all-Grows [] r q = Grows-refl q
ask_all-Grows (c ∷ cs) r q =
    Grows-trans q (ask r c q).1 (ask_all r cs (ask r c q).1).1 (ask-Settles c r q).0
      (ask_all-Grows cs r (ask r c q).1)

-- A question that was answered is answered the same again within the request, without a further read,
-- after any other questions and whatever the stores have answered, or failed to, in between.
pub ask-again :
    (c : Question) (a : Answer) (cs : List Question) (r r' r'' : Resolver) (q : Request)
    → (ask r c q).0 ≡ some a
    → ask r'' c (ask_all r' cs (ask r c q).1).1 ≡ (some a, (ask_all r' cs (ask r c q).1).1)
ask-again c a cs r r' r'' q h =
    (ask-Settles c r q).1 a h r'' (ask_all r' cs (ask r c q).1).1
      (ask_all-Grows cs r' (ask r c q).1)
