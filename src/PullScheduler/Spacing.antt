-- ===== src/PullScheduler/Spacing.antt =====
-- pullscheduler/scheduler.go: the times at which a host is polled.
use health_beat.Prelude.{
  ℕ, ◌+◌, ◌≤◌, Bool, true, false, not, ◌&&◌, List, [], ◌∷◌, ◌++◌, Option, none, some, Map, get,
  remove, keys, has, any, ◌==◌, nat_eq, if◌then◌else◌, ◌≡◌, refl, ap, subst, arith, get-put,
  get-remove, All, &&-eq-true,
}
use health_beat.PullScheduler.Scheduler.{
  PullHostInfo, Scheduler, is_due, consider, is_running, finish, forget, forget_ids, Event,
  considers, finishes, forgets, step, run, elapsed, interval, remove_one,
}

-- The time, if a poll of the host begins at the event.
abbrev pub begins : ℕ → Event → Scheduler → List ℕ
begins id (considers c now) s = if c.id == id then if is_due c now s then now ∷ [] else [] else []
begins id (finishes j) s = []
begins id (forgets current) s = []

-- The times at which polls of the host begin.
unfoldable pub starts : ℕ → List Event → Scheduler → List ℕ
starts id [] s = []
starts id (e ∷ es) s = begins id e s ++ starts id es (step e s)

-- Each time is at least `every` after the one before, which may be known.
abbrev pub Spaced : ℕ → Option ℕ → List ℕ → Type 0
Spaced every o [] = Unit
Spaced every none (t ∷ ts) = Spaced every (some t) ts
Spaced every (some last) (t ∷ ts) = (last + every ≤ t) × Spaced every (some t) ts

-- The host keeps its interval and stays listed.
abbrev pub Steady : ℕ → ℕ → Event → Type 0
Steady id every (considers c now) = c.id ≡ id → interval c ≡ every
Steady id every (finishes j) = Unit
Steady id every (forgets current) = any (λ x. x == id) current ≡ true

get-forget_ids :
    (id : ℕ) (current ids : List ℕ) (m : Map ℕ ℕ)
    → any (λ x. x == id) current ≡ true
    → get id (forget_ids current ids m) ≡ get id m
unfolding forget_ids
get-forget_ids id current [] m h = refl
get-forget_ids id current (j ∷ ids) m h = ground (
  arith,
  h,
  get-forget_ids id current ids m h,
  get-remove j id (forget_ids current ids m),
  ap (λ k. any (λ x. x == k) current) {x = j} {y = id},
)

consider-last :
    (c : PullHostInfo) (now id : ℕ) (s : Scheduler)
    → get id (consider c now s).last_polled
      ≡ (if c.id == id && is_due c now s then some now else get id s.last_polled)
unfolding consider
consider-last c now id s = ground (arith, get-put c.id id now s.last_polled)

Spaced-cons :
    (every now : ℕ) (o : Option ℕ) (ts : List ℕ)
    → elapsed o every now ≡ true
    → Spaced every (some now) ts
    → Spaced every o (now ∷ ts)
Spaced-cons every now none ts h rest = rest
Spaced-cons every now (some last) ts h rest = (ground (arith, h), rest)

due-elapsed :
    (c : PullHostInfo) (now : ℕ) (s : Scheduler)
    → is_due c now s ≡ true
    → elapsed (get c.id s.last_polled) (interval c) now ≡ true
unfolding is_due
due-elapsed c now s h =
    (&&-eq-true (not (has c.id s.in_flight)) (elapsed (get c.id s.last_polled) (interval c) now)
      h).1

-- What an event adds to the times.
consider-Spaced :
    (id every : ℕ) (c : PullHostInfo) (now : ℕ) (s : Scheduler) (ts : List ℕ)
    → (c.id ≡ id → interval c ≡ every)
    → Spaced every (get id (consider c now s).last_polled) ts
    → Spaced every (get id s.last_polled) (begins id (considers c now) s ++ ts)
consider-Spaced id every c now s ts steady rest =
    by_host (c.id == id) (is_due c now s) refl refl
      (subst (λ o. Spaced every o ts) (consider-last c now id s) rest)
  where
    by_host :
        (b d : Bool)
        → (c.id == id) ≡ b
        → is_due c now s ≡ d
        → Spaced every (if b && d then some now else get id s.last_polled) ts
        → Spaced every (get id s.last_polled) ((if b then if d then now ∷ [] else [] else []) ++ ts)
    by_host true true e f r =
        let same : c.id ≡ id = (nat_eq.same_iff c.id id).0 e in
        Spaced-cons every now (get id s.last_polled) ts
          (subst (λ i. elapsed (get id s.last_polled) i now ≡ true) (steady same)
            (subst (λ j. elapsed (get j s.last_polled) (interval c) now ≡ true) same
              (due-elapsed c now s f)))
          r
    by_host true false e f r = r
    by_host false d e f r = r

step-Spaced :
    (id every : ℕ) (e : Event) (s : Scheduler) (ts : List ℕ)
    → Steady id every e
    → Spaced every (get id (step e s).last_polled) ts
    → Spaced every (get id s.last_polled) (begins id e s ++ ts)
unfolding step finish forget
step-Spaced id every (considers c now) s ts h rest = consider-Spaced id every c now s ts h rest
step-Spaced id every (finishes j) s ts h rest =
    subst (λ l. Spaced every (get id l) ts) (kept (is_running j s)) rest
  where
    kept :
        (b : Bool)
        → (if b
            then record s { in_flight = remove j s.in_flight; running = remove_one j s.running }
            else s).last_polled
          ≡ s.last_polled
    kept true = refl
    kept false = refl
step-Spaced id every (forgets current) s ts h rest =
    subst (λ o. Spaced every o ts) (get-forget_ids id current (keys s.last_polled) s.last_polled h)
      rest

-- A host that stays listed with the same interval is polled at times that are at least its interval
-- apart, and as far from the poll before them, whatever other hosts do and however polls end.
pub starts-Spaced :
    (id every : ℕ) (es : List Event) (s : Scheduler)
    → All (Steady id every) es
    → Spaced every (get id s.last_polled) (starts id es s)
unfolding starts run
starts-Spaced id every [] s h = none_left (get id s.last_polled)
  where
    none_left : (o : Option ℕ) → Spaced every o []
    none_left none = tt
    none_left (some t) = tt
starts-Spaced id every (e ∷ es) s h =
    step-Spaced id every e s (starts id es (step e s)) h.0
      (starts-Spaced id every es (step e s) h.1)
