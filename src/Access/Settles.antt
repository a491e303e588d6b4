-- ===== src/Access/Settles.antt =====
-- access/access.go: methods whose answer lasts: what they keep, and how they are composed.
use health_beat.Prelude.{
  ℕ, Bool, true, false, String, List, Option, none, some, string_eq, if◌then◌else◌, ◌≡◌, refl, sym,
  ap, ◌∙◌, subst, arith,
}
use health_beat.Access.Scope.{Resolver, Request, Given, and_then}

-- What has been read stays.
abbrev pub Stays : Option (List ℕ) → Option (List ℕ) → Type 0
Stays none o = Unit
Stays (some l) o = o ≡ some l

abbrev pub Grows : Request → Request → Type 0
Grows q q' =
    (q'.scope.role ≡ q.scope.role)
    × (Stays q.scope.full_orgs q'.scope.full_orgs
        × (Stays q.scope.context_orgs q'.scope.context_orgs
            × (Stays q.scope.own_hosts q'.scope.own_hosts
                × Stays q.scope.visible q'.scope.visible)))

pub Stays-refl : (o : Option (List ℕ)) → Stays o o
Stays-refl none = tt
Stays-refl (some l) = refl

pub Stays-trans : (a b c : Option (List ℕ)) → Stays a b → Stays b c → Stays a c
Stays-trans none b c h k = tt
Stays-trans (some l) b c h k = subst (λ o. Stays o c) h k

pub Grows-refl : (q : Request) → Grows q q
Grows-refl q = (
  refl,
  (
    Stays-refl q.scope.full_orgs,
    (Stays-refl q.scope.context_orgs, (Stays-refl q.scope.own_hosts, Stays-refl q.scope.visible)),
  ),
)

pub Grows-trans : (a b c : Request) → Grows a b → Grows b c → Grows a c
Grows-trans a b c h k = (
  k.0 ∙ h.0,
  (
    Stays-trans a.scope.full_orgs b.scope.full_orgs c.scope.full_orgs h.1.0 k.1.0,
    (
      Stays-trans a.scope.context_orgs b.scope.context_orgs c.scope.context_orgs h.1.1.0 k.1.1.0,
      (
        Stays-trans a.scope.own_hosts b.scope.own_hosts c.scope.own_hosts h.1.1.1.0 k.1.1.1.0,
        Stays-trans a.scope.visible b.scope.visible c.scope.visible h.1.1.1.1 k.1.1.1.1,
      ),
    ),
  ),
)

-- What a method `act` gives on `q`: it only adds to the sets, and where it gives a value it gives the
-- same value, and changes nothing, on every later request.
abbrev pub Settles : {A : Type 0} → (Resolver → Request → Given A) → Resolver → Request → Type 0
Settles {A} act r q =
    Grows q (act r q).1
    × ((a : A)
        → (act r q).0 ≡ some a
        → (r' : Resolver) (q' : Request) → Grows (act r q).1 q'
        → act r' q' ≡ (some a, q'))

abbrev pub Method : Type 0 → Type 0
Method A = Resolver → Request → Given A

pub value-Settles :
    {A : Type 0} (a : A) (r : Resolver) (q : Request) → Settles (λ r q. (some a, q)) r q
value-Settles a r q = (Grows-refl q, λ b e r' q' g. ap (λ o. (o, q')) e)

-- The clauses of `and_then`, with what the first method gave.
pub after-Settles :
    {A B : Type 0} (act : Method A) (k : A → Method B) (r : Resolver) (q : Request) (p : Given A)
    → act r q ≡ p
    → Settles act r q
    → ((a : A) (q : Request) → Settles (k a) r q)
    → Settles (λ r q. and_then (act r q) (λ a q. k a r q)) r q
after-Settles act k r q (none, q1) e s f = (
  subst (λ p. Grows q (and_then p (λ a q. k a r q)).1) (sym e) (subst (λ p. Grows q p.1) e s.0),
  λ b h r' q' g.
      let absurd : none ≡ some b = ap (λ p. (and_then p (λ a q. k a r q)).0) (sym e) ∙ h in
      ground (arith, absurd),
)
after-Settles act k r q (some a, q1) e s f = (
  subst (λ p. Grows q (and_then p (λ a q. k a r q)).1) (sym e)
      (Grows-trans q q1 (k a r q1).1 (subst (λ p. Grows q p.1) e s.0) (f a q1).0),
  λ b h r' q' g.
      let h' : (k a r q1).0 ≡ some b = ap (λ p. (and_then p (λ a q. k a r q)).0) (sym e) ∙ h in
      let g' : Grows (k a r q1).1 q' = subst (λ p. Grows (and_then p (λ a q. k a r q)).1 q') e g in
      let again : act r' q' ≡ (some a, q') =
        s.1 a (ap (λ p. p.0) e) r' q'
          (subst (λ p. Grows p.1 q') (sym e) (Grows-trans q1 (k a r q1).1 q' (f a q1).0 g')) in
      ap (λ p. and_then p (λ a q. k a r' q)) again ∙ (f a q1).1 b h' r' q' g',
)

pub and_then-Settles :
    {A B : Type 0} (act : Method A) (k : A → Method B) (r : Resolver) (q : Request)
    → Settles act r q
    → ((a : A) (q : Request) → Settles (k a) r q)
    → Settles (λ r q. and_then (act r q) (λ a q. k a r q)) r q
and_then-Settles act k r q s f = after-Settles act k r q (act r q) refl s f

abbrev pub branch : {A : Type 0} → (String → Bool) → Method A → Method A → Method A
branch c act act' r q = if c q.scope.role then act r q else act' r q

-- A method that is `act` where the role is that of `q`.
pub same-Settles :
    {A : Type 0} (act act' : Method A) (r : Resolver) (q : Request)
    → ((r' : Resolver) (q' : Request) → q'.scope.role ≡ q.scope.role → act' r' q' ≡ act r' q')
    → Settles act r q
    → Settles act' r q
same-Settles act act' r q same s = (
  subst (λ p. Grows q p.1) (sym (same r q refl)) s.0,
  λ a h r' q' g.
      let g' : Grows (act r q).1 q' = subst (λ p. Grows p.1 q') (same r q refl) g in
      same r' q' (g'.0 ∙ s.0.0) ∙ s.1 a (ap (λ p. p.0) (sym (same r q refl)) ∙ h) r' q' g',
)

-- A branch on the role, which does not change.
pub branch-Settles :
    {A : Type 0} (c : String → Bool) (act act' : Method A) (r : Resolver) (q : Request)
    → Settles act r q
    → Settles act' r q
    → Settles (branch c act act') r q
branch-Settles {A} c act act' r q s s' = by_role (c q.scope.role) refl
  where
    by_role : (b : Bool) → c q.scope.role ≡ b → Settles (branch c act act') r q
    by_role true e =
        same-Settles act (branch c act act') r q
          (λ r' q' h. ap (λ b. if b then act r' q' else act' r' q') (ap c h ∙ e)) s
    by_role false e =
        same-Settles act' (branch c act act') r q
          (λ r' q' h. ap (λ b. if b then act r' q' else act' r' q') (ap c h ∙ e)) s'
