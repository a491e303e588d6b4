-- ===== src/PullScheduler/Scheduler.antt =====
-- pullscheduler/scheduler.go: which hosts are polled, and when. A pass takes the lock once for each
-- host, and a poll that ends takes it too, at any moment: the steps under the lock are events, and a
-- run is any sequence of them. The poll itself (a request over the network, and the recording of its
-- report) changes nothing of the scheduler.
use health_beat.Prelude.{
  ℕ, ◌+◌, ◌*◌, Bool, true, not, ◌&&◌, List, [], ◌∷◌, ◌++◌, Option, none, some, Map, get, put,
  remove, has, keys, map, any, leb, ◌==◌, nat_eq, if◌then◌else◌,
}

pub record PullHostInfo : Type 0 where
  pub id : ℕ
  pub interval_seconds : ℕ

-- Go's `struct{}`, for a map that is a set.
pub data Mark : Type 0 where
  mark : Mark

-- `running` has the host of each poll that has begun and not ended.
pub record Scheduler : Type 0 where
  pub last_polled : Map ℕ ℕ
  pub in_flight : Map ℕ Mark
  pub running : List ℕ

-- `New`
unfoldable pub new : Scheduler
new = record { last_polled = []; in_flight = []; running = [] }

abbrev pub second : ℕ
second = 1_000_000_000

abbrev pub interval : PullHostInfo → ℕ
interval c = c.interval_seconds * second

abbrev pub elapsed : Option ℕ → ℕ → ℕ → Bool
elapsed none every now = true
elapsed (some last) every now = leb (last + every) now

unfoldable pub is_due : PullHostInfo → ℕ → Scheduler → Bool
unfolding has get
is_due c now s = not (has c.id s.in_flight) && elapsed (get c.id s.last_polled) (interval c) now

abbrev pub begun : PullHostInfo → ℕ → Scheduler → Scheduler
begun c now s = record {
  last_polled = put c.id now s.last_polled;
  in_flight = put c.id mark s.in_flight;
  running = c.id ∷ s.running;
}

-- The lock of `pollDueHosts` for one host, and the start of its poll.
unfoldable pub consider : PullHostInfo → ℕ → Scheduler → Scheduler
unfolding is_due put
consider c now s = if is_due c now s then begun c now s else s

unfoldable pub remove_one : ℕ → List ℕ → List ℕ
remove_one id [] = []
remove_one id (x ∷ xs) = let rest = remove_one id xs in if x == id then xs else x ∷ rest

abbrev pub is_running : ℕ → Scheduler → Bool
is_running id s = any (λ x. x == id) s.running

-- A poll of the host ends, if one is running.
unfoldable pub finish : ℕ → Scheduler → Scheduler
unfolding remove remove_one
finish id s =
    if is_running id s
    then record s { in_flight = remove id s.in_flight; running = remove_one id s.running }
    else s

-- The hosts among `ids` that are not listed any more.
unfoldable pub forget_ids : List ℕ → List ℕ → Map ℕ ℕ → Map ℕ ℕ
unfolding remove
forget_ids current [] m = m
forget_ids current (id ∷ ids) m =
    let rest = forget_ids current ids m in
    if any (λ x. x == id) current then rest else remove id rest

-- The end of `pollDueHosts`.
unfoldable pub forget : List ℕ → Scheduler → Scheduler
unfolding forget_ids
forget current s = record s { last_polled = forget_ids current (keys s.last_polled) s.last_polled }

pub data Event : Type 0 where
  considers : PullHostInfo → ℕ → Event
  finishes : ℕ → Event
  forgets : List ℕ → Event

unfoldable pub step : Event → Scheduler → Scheduler
unfolding consider finish forget
step (considers c now) s = consider c now s
step (finishes id) s = finish id s
step (forgets current) s = forget current s

unfoldable pub run : List Event → Scheduler → Scheduler
unfolding step
run [] s = s
run (e ∷ es) s = run es (step e s)

-- `pollDueHosts` without polls that end meanwhile; none is a failed listing.
unfoldable pub pass_events : Option (List PullHostInfo) → ℕ → List Event
pass_events none now = []
pass_events (some hosts) now =
    map (λ c. considers c now) hosts ++ forgets (map (λ (c : PullHostInfo). c.id) hosts) ∷ []

unfoldable pub poll_due_hosts : Option (List PullHostInfo) → ℕ → Scheduler → Scheduler
unfolding run pass_events
poll_due_hosts hosts now s = run (pass_events hosts now) s
