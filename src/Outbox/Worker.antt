-- ===== src/Outbox/Worker.antt =====
-- outbox/worker.go: the delivery of one claimed row, and the wait before the next attempt.
use health_beat.Prelude.{
  ℕ, zero, suc, ◌+◌, ◌-◌, ◌*◌, min, Bool, true, false, not, ◌&&◌, String, List, [], ◌∷◌, any, ltb,
  leb, ◌==◌, string_eq, if◌then◌else◌,
}
use health_beat.Outbox.Queue.{Row, mark_sent, mark_retry, mark_failed}

abbrev pub second : ℕ
second = 1_000_000_000

abbrev pub base_backoff : ℕ
base_backoff = 30 * second

abbrev pub max_backoff : ℕ
max_backoff = 3600 * second

abbrev pub max_attempts : ℕ
max_attempts = 10

-- The loop of `Backoff` with `n` turns left.
unfoldable pub doubled : ℕ → ℕ → ℕ
doubled zero d = d
doubled (suc n) d = let more = doubled n (d * 2) in if ltb d max_backoff then more else d

-- `Backoff`
unfoldable pub backoff : ℕ → ℕ
unfolding doubled
backoff attempt = min (doubled (attempt - 1) base_backoff) max_backoff

-- `send` is the notifiers: whether the attempt of the row to a recipient succeeds. `stored` tells
-- whether the statement that records the outcome succeeds.
pub record Worker : Type 0 where
  pub kinds : List String
  pub notifiers : List String
  pub send : Row → String → Bool
  pub stored : Row → Bool

-- `sendEach`
unfoldable pub send_each : (String → Bool) → List String → Bool
send_each send [] = true
send_each send (r ∷ rs) = send r && send_each send rs

pub data Outcome : Type 0 where
  sent given_up : Outcome
  retried : ℕ → Outcome

unfoldable pub outcome : Worker → Row → ℕ → Outcome
unfolding send_each backoff
outcome w it now =
    if it.unreadable
    then given_up
    else if not (any (λ c. c == it.channel) w.notifiers)
    then given_up
    else if send_each (w.send it) it.recipients
    then sent
    else if leb max_attempts it.attempts
    then given_up
    else retried (now + backoff it.attempts)

unfoldable pub record_outcome : ℕ → ℕ → Outcome → List Row → List Row
record_outcome id now sent rows = mark_sent id now rows
record_outcome id now given_up rows = mark_failed id now rows
record_outcome id now (retried next) rows = mark_retry id next rows

abbrev pub is_sent : Outcome → Bool
is_sent sent = true
is_sent _ = false

-- `deliver`: whether it was sent, and the table.
unfoldable pub deliver : Worker → Row → ℕ → List Row → Bool × List Row
unfolding outcome record_outcome
deliver w it now rows =
    let o = outcome w it now in
    (is_sent o, if w.stored it then record_outcome it.id now o rows else rows)
