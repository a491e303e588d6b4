-- ===== src/PullScheduler/Examples.antt =====
-- Runs of the scheduler at concrete inputs: tests, and instances of the theorems.
use health_beat.Prelude.{
  ℕ, ◌*◌, ◌≤◌, some, List, [], ◌∷◌, ◌++◌, All, get, put, remove, has, ◌≡◌, refl, nat_eq, inl, inr,
  arith,
}
use health_beat.PullScheduler.Scheduler.{
  PullHostInfo, new, second, Event, finishes, run, step, consider, finish, forget, is_due,
  pass_events, poll_due_hosts, forget_ids, remove_one,
}
use health_beat.PullScheduler.InFlight.{polls_of, run-one_poll, poll_due_hosts-Polled, Polled}
use health_beat.PullScheduler.Spacing.{starts, Spaced, Steady, starts-Spaced}

abbrev quick : PullHostInfo
quick = record { id = 1; interval_seconds = 10 }

abbrev slow : PullHostInfo
slow = record { id = 2; interval_seconds = 60 }

abbrev at : ℕ → ℕ
at s = s * second

abbrev pass : ℕ → List Event
pass s = pass_events (some (quick ∷ slow ∷ [])) (at s)

abbrev last_pass : List Event
last_pass = pass 25 ++ []

abbrev later_passes : List Event
later_passes = pass 15 ++ last_pass

abbrev after_first : List Event
after_first = finishes 1 ∷ pass 10 ++ later_passes

-- Four passes; a poll of the first host ends between the first two, and then no more.
abbrev events : List Event
events = pass 5 ++ after_first

polled_twice : starts 1 events new ≡ at 5 ∷ at 15 ∷ []
unfolding starts step consider finish forget is_due get put remove has forget_ids remove_one new
    pass_events
polled_twice = refl

run-one_poll_example : polls_of 2 (run events new) ≤ 1
run-one_poll_example = run-one_poll events 2

Steady-pass :
    (now : ℕ) (es : List Event)
    → All (Steady 1 (10 * second)) es
    → All (Steady 1 (10 * second)) (pass_events (some (quick ∷ slow ∷ [])) now ++ es)
unfolding pass_events
Steady-pass now es h = (λ e. refl, (λ e. ground (arith, e), (refl, h)))

starts-Spaced_example : Spaced (10 * second) (get 1 new.last_polled) (starts 1 events new)
unfolding pass_events
starts-Spaced_example = starts-Spaced 1 (10 * second) events new (
    Steady-pass (at 5) after_first (
      tt,
      Steady-pass (at 10) later_passes (Steady-pass (at 15) last_pass (Steady-pass (at 25) [] tt)),
    ))

poll_due_hosts-Polled_example : Polled 2 (poll_due_hosts (some (quick ∷ slow ∷ [])) (at 5) new)
unfolding is_due has get new
poll_due_hosts-Polled_example =
    poll_due_hosts-Polled slow (at 5) (quick ∷ slow ∷ []) new (inr (inl refl)) (inl refl)
