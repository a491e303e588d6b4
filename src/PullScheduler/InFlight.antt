-- ===== src/PullScheduler/InFlight.antt =====
-- pullscheduler/scheduler.go: a host has one poll at a time, and is polled when it is due.
use health_beat.Prelude.{
  ℕ, ◌+◌, ◌≤◌, Bool, true, false, List, [], ◌∷◌, ◌++◌, some, Map, put, remove, has, map, any, count,
  ◌==◌, nat_eq, if◌then◌else◌, ◌≡◌, refl, subst, arith, get-put, get-remove, In, inl, inr, ◌⊎◌,
}
use health_beat.PullScheduler.Scheduler.{
  Mark, mark, PullHostInfo, Scheduler, new, is_due, begun, consider, remove_one, finish, forget,
  Event, considers, finishes, forgets, step, run, poll_due_hosts, pass_events,
}

abbrev pub polls_of : ℕ → Scheduler → ℕ
polls_of id s = count (λ x. x == id) s.running

-- The polls of a host are counted by whether it is in flight.
abbrev pub OneEach : Scheduler → Type 0
OneEach s = (id : ℕ) → polls_of id s ≡ (if has id s.in_flight then 1 else 0)

has-put : (k j : ℕ) (m : Map ℕ Mark) → has j (put k mark m) ≡ (if k == j then true else has j m)
unfolding has
has-put k j m = ground (arith, get-put k j mark m)

has-remove : (k j : ℕ) (m : Map ℕ Mark) → has j (remove k m) ≡ (if k == j then false else has j m)
unfolding has
has-remove k j m = ground (arith, get-remove k j m)

count-remove_one :
    (id j : ℕ) (xs : List ℕ)
    → any (λ x. x == id) xs ≡ true
    → count (λ x. x == j) (remove_one id xs) + (if id == j then 1 else 0) ≡ count (λ x. x == j) xs
unfolding count remove_one
count-remove_one id j [] h = ground (arith, h)
count-remove_one id j (x ∷ xs) h = ground (arith, h, count-remove_one id j xs)

consider-OneEach :
    (c : PullHostInfo) (now : ℕ) (s : Scheduler) → OneEach s → OneEach (consider c now s)
unfolding consider is_due count
consider-OneEach c now s one id = ground (arith, one id, has-put c.id id s.in_flight)

finish-OneEach : (j : ℕ) (s : Scheduler) → OneEach s → OneEach (finish j s)
unfolding finish
finish-OneEach j s one id =
    ground (arith, one id, has-remove j id s.in_flight, count-remove_one j id s.running)

step-OneEach : (e : Event) (s : Scheduler) → OneEach s → OneEach (step e s)
unfolding step forget
step-OneEach (considers c now) s one = consider-OneEach c now s one
step-OneEach (finishes id) s one = finish-OneEach id s one
step-OneEach (forgets current) s one = one

pub run-OneEach : (es : List Event) (s : Scheduler) → OneEach s → OneEach (run es s)
unfolding run
run-OneEach [] s one = one
run-OneEach (e ∷ es) s one = run-OneEach es (step e s) (step-OneEach e s one)

-- At most one poll of a host runs at any time, whatever the passes and the ends of polls and however
-- they interleave.
pub run-one_poll : (es : List Event) (id : ℕ) → polls_of id (run es new) ≤ 1
unfolding new has count
run-one_poll es id =
    let one = run-OneEach es new (λ j. new_none j) id in
    omega (arith, one, at_most (has id (run es new).in_flight))
  where
    new_none : (j : ℕ) → polls_of j new ≡ (if has j new.in_flight then 1 else 0)
    new_none j = refl

    at_most : (b : Bool) → (if b then 1 else 0) ≤ 1
    at_most b = ground arith

-- A poll of the host runs.
abbrev pub Polled : ℕ → Scheduler → Type 0
Polled id s = 1 ≤ polls_of id s

consider-Polled :
    (id : ℕ) (c : PullHostInfo) (now : ℕ) (s : Scheduler)
    → Polled id s
    → Polled id (consider c now s)
unfolding consider count
consider-Polled id c now s h = ground (arith, h)

considers-Polled :
    (id now : ℕ) (hosts : List PullHostInfo) (current : List ℕ) (s : Scheduler)
    → Polled id s
    → Polled id (run (map (λ c. considers c now) hosts ++ forgets current ∷ []) s)
unfolding run step forget
considers-Polled id now [] current s h = h
considers-Polled id now (c ∷ hosts) current s h =
    considers-Polled id now hosts current (consider c now s) (consider-Polled id c now s h)

-- The host runs, or is due at `now`.
abbrev pub Due : PullHostInfo → ℕ → Scheduler → Type 0
Due c now s = is_due c now s ≡ true

-- Being due, or polled, lasts while other hosts are considered.
abbrev pub DueOrPolled : PullHostInfo → ℕ → Scheduler → Type 0
DueOrPolled c now s = Due c now s ⊎ Polled c.id s

consider-due :
    (c c' : PullHostInfo) (now : ℕ) (s : Scheduler)
    → DueOrPolled c now s
    → DueOrPolled c now (consider c' now s)
unfolding consider is_due count
consider-due c c' now s (inr h) = inr (ground (arith, h))
consider-due c c' now s (inl h) = by_host (is_due c' now s) (c'.id == c.id) refl refl
  where
    by_host :
        (d b : Bool)
        → is_due c' now s ≡ d
        → (c'.id == c.id) ≡ b
        → DueOrPolled c now (if d then begun c' now s else s)
    by_host true true e f = inr (ground (arith, f))
    by_host true false e f =
        inl (
          ground
            (arith, f, h, get-put c'.id c.id now s.last_polled, has-put c'.id c.id s.in_flight))
    by_host false b e f = inl h

consider_self :
    (c : PullHostInfo) (now : ℕ) (s : Scheduler)
    → DueOrPolled c now s
    → Polled c.id (consider c now s)
unfolding consider count
consider_self c now s (inl h) = ground (arith, h)
consider_self c now s (inr h) = ground (arith, h)

run-Polled :
    (c : PullHostInfo) (now : ℕ) (hosts : List PullHostInfo) (current : List ℕ) (s : Scheduler)
    → In c hosts
    → DueOrPolled c now s
    → Polled c.id (run (map (λ c. considers c now) hosts ++ forgets current ∷ []) s)
unfolding run step
run-Polled c now [] current s absurd h = elim absurd [ ]
run-Polled c now (x ∷ hosts) current s (inl e) h =
    considers-Polled c.id now hosts current (consider x now s)
      (subst (λ y. Polled c.id (consider y now s)) e (consider_self c now s h))
run-Polled c now (x ∷ hosts) current s (inr i) h =
    run-Polled c now hosts current (consider x now s) i (consider-due c x now s h)

-- A pass that lists a host polls it, where it is due or its poll still runs.
pub poll_due_hosts-Polled :
    (c : PullHostInfo) (now : ℕ) (hosts : List PullHostInfo) (s : Scheduler)
    → In c hosts
    → DueOrPolled c now s
    → Polled c.id (poll_due_hosts (some hosts) now s)
unfolding poll_due_hosts pass_events
poll_due_hosts-Polled c now hosts s i h = run-Polled c now hosts _ s i h
