-- ===== src/RateLimit/Examples.antt =====
-- Runs of the rate limiter at concrete inputs: tests, and instances of the theorems.
use health_beat.Prelude.{ℕ, ◌+◌, ◌-◌, ◌*◌, ◌≤◌, true, List, [], ◌∷◌, ◌≡◌, refl, get, put, arith}
use health_beat.RateLimit.Limiter.{
  Limiter, minute, capacity, refill_time, take, allow, check, refilled, take_bucket, disabled,
  sweep,
}
use health_beat.RateLimit.Tokens.{Call, available}
use health_beat.RateLimit.Granted.{run_calls, end_of, run_calls-le}
use health_beat.RateLimit.Snapshot.{Listed, snapshot-Listed}
use health_beat.RateLimit.Answers.{check-allow, allow-later}

-- Sixty tokens a minute, two at once.
abbrev limiter : Limiter
limiter = record { per_minute = 60; burst = 2; buckets = []; last_sweep = 0 }

abbrev ask : ℕ → Call
ask at = record { key = "10.0.0.1"; consume = true; at = at }

abbrev calls : List Call
calls = ask 1000 ∷ ask 2000 ∷ ask 3000 ∷ ask 1_500_000_000 ∷ []

abbrev emptied : Limiter
emptied = (run_calls "10.0.0.1" (ask 1000 ∷ ask 2000 ∷ []) limiter).1

abbrev granted : ℕ
granted = (run_calls "10.0.0.1" calls limiter).0

three_granted : granted ≡ 3
unfolding run_calls take disabled sweep take_bucket refilled get put
three_granted = refl

run_calls-le_example :
    (run_calls "10.0.0.1" calls limiter).0 * minute ≤ capacity limiter + (end_of 0 calls - 0) * 60
unfolding refill_time
run_calls-le_example =
    run_calls-le "10.0.0.1" 0 calls limiter (omega arith) (omega arith) refl
      (omega arith, (omega arith, (omega arith, (omega arith, tt))))

check-allow_example : (check "10.0.0.1" 3000 emptied).0 ≡ (allow "10.0.0.1" 3000 emptied).0
check-allow_example = check-allow "10.0.0.1" 3000 emptied

allow-later_example :
    minute
    ≤ available
        (allow "10.0.0.1" 3000 emptied).1
        "10.0.0.1"
        (3000 + ((allow "10.0.0.1" 3000 emptied).0.1 + 1))
unfolding run_calls take disabled sweep take_bucket refilled get put allow
allow-later_example = allow-later "10.0.0.1" 3000 emptied (omega arith) (omega arith) refl

snapshot-Listed_example : Listed 3000 emptied "10.0.0.1"
unfolding run_calls take disabled sweep take_bucket refilled get put available
snapshot-Listed_example = snapshot-Listed 3000 emptied "10.0.0.1" refl (omega arith)
