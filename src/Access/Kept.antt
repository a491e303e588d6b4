-- ===== src/Access/Kept.antt =====
-- access/access.go: the sets that a scope reads once.
use health_beat.Prelude.{
  ℕ, List, Option, none, some, string_eq, ◌≡◌, refl, sym, ap, ◌∙◌, subst, arith,
}
use health_beat.Access.Scope.{
  Resolver, Request, Given, cached, set_full, set_context, set_own, load_full_orgs, load_own_hosts,
  context_org_ids,
}
use health_beat.Access.Settles.{Stays, Grows, Grows-refl, Settles, Method}

-- A set that the scope keeps.
pub record Kept (sel : Request → Option (List ℕ)) (keep : List ℕ → Request → Request) : Type 0 where
  pub kept : (q : Request) (l : List ℕ) → sel (keep l q) ≡ some l
  pub grows : (q : Request) (l : List ℕ) → sel q ≡ none → Grows q (keep l q)
  pub stays : (q q' : Request) → Grows q q' → Stays (sel q) (sel q')

pub cached_again :
    (o : Option (List ℕ)) (l : List ℕ) (got : Option (List ℕ)) (keep : List ℕ → Request → Request)
    (q : Request)
    → o ≡ some l
    → cached o got keep q ≡ (some l, q)
unfolding cached
cached_again (some a) l got keep q e = ap (λ o. (o, q)) e
cached_again none l got keep q e = ground (arith, e)

module _ (sel : Request → Option (List ℕ)) (keep : List ℕ → Request → Request)
    (got : Resolver → Request → Option (List ℕ)) (laws : Kept sel keep) where
  abbrev load : Method (List ℕ)
  load r q = cached (sel q) (got r q) keep q

  pub cached-Settles : (r : Resolver) (q : Request) → Settles load r q
  unfolding cached
  cached-Settles r q = by_set (sel q) (got r q) refl refl
    where
      Steady : Given (List ℕ) → Type 0
      Steady p =
          Grows q p.1
          × ((a : List ℕ)
              → p.0 ≡ some a
              → (r' : Resolver) (q' : Request) → Grows p.1 q'
              → load r' q' ≡ (some a, q'))

      by_set : (o g : Option (List ℕ)) → sel q ≡ o → got r q ≡ g → Steady (cached o g keep q)
      by_set (some l) g e e' = (
        Grows-refl q,
        λ a h r' q' grown.
            cached_again (sel q') a (got r' q') keep q'
              (subst (λ o. Stays o (sel q')) e (laws.stays q q' grown) ∙ h),
      )
      by_set none (some l) e e' = (
        laws.grows q l e,
        λ a h r' q' grown.
            cached_again (sel q') a (got r' q') keep q'
              (subst (λ o. Stays o (sel q')) (laws.kept q l) (laws.stays (keep l q) q' grown) ∙ h),
      )
      by_set none none e e' = (Grows-refl q, λ a h r' q' grown. ground (arith, h))

pub full-Settles : (r : Resolver) (q : Request) → Settles load_full_orgs r q
unfolding load_full_orgs
full-Settles r q =
    cached-Settles (λ q. q.scope.full_orgs) set_full
      (λ r q. r.list_organization_ids q.reads q.scope.user_id)
      (record {
        kept = λ q l. refl;
        grows = λ q l e.
            let g = Grows-refl q in (g.0, (subst (λ o. Stays o (some l)) (sym e) tt, g.1.1));
        stays = λ q q' g. g.1.0;
      })
      r q

pub own-Settles : (r : Resolver) (q : Request) → Settles load_own_hosts r q
unfolding load_own_hosts
own-Settles r q =
    cached-Settles (λ q. q.scope.own_hosts) set_own (λ r q. r.list_host_ids q.reads q.scope.user_id)
      (record {
        kept = λ q l. refl;
        grows = λ q l e.
            let g = Grows-refl q in
            (g.0, (g.1.0, (g.1.1.0, (subst (λ o. Stays o (some l)) (sym e) tt, g.1.1.1.1))));
        stays = λ q q' g. g.1.1.1.0;
      })
      r q

pub context-Settles : (r : Resolver) (q : Request) → Settles context_org_ids r q
unfolding context_org_ids
context-Settles r q =
    cached-Settles (λ q. q.scope.context_orgs) set_context
      (λ r q. r.list_context_ids q.reads q.scope.user_id)
      (record {
        kept = λ q l. refl;
        grows = λ q l e.
            let g = Grows-refl q in
            (g.0, (g.1.0, (subst (λ o. Stays o (some l)) (sym e) tt, g.1.1.1)));
        stays = λ q q' g. g.1.1.0;
      })
      r q
