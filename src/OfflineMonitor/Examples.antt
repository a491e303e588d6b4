-- ===== src/OfflineMonitor/Examples.antt =====
-- Runs of the monitor at concrete inputs: tests, and instances of the theorems.
use health_beat.Prelude.{
  ℕ, ◌*◌, true, List, [], ◌∷◌, Option, none, some, In, inl, inr, arith, ◌≡◌, refl,
}
use health_beat.OfflineMonitor.Monitor.{
  HostStatus, second, is_stale, list_stale, mark_offline, check_each, check,
}
use health_beat.OfflineMonitor.Silent.{check-In, NotAgain, check-NotAgain}

abbrev host : ℕ → Option ℕ → HostStatus
host id seen = record {
  id = id;
  organization_id = 1;
  interval_seconds = 10;
  online = true;
  last_seen = seen;
}

abbrev hosts : List HostStatus
hosts = host 1 (some (100 * second)) ∷ host 2 (some (50 * second)) ∷ host 3 none ∷ []

-- At 100 s the second host is silent for 50 s; the third has never reported.
second_told : (check true (λ id. true) (100 * second) hosts).0 ≡ (2, 1) ∷ []
unfolding check check_each list_stale is_stale mark_offline
second_told = refl

check-In_example : In (2, 1) (check true (λ id. true) (100 * second) hosts).0
check-In_example =
    check-In (λ id. true) (100 * second) (50 * second) (host 2 (some (50 * second))) hosts
      (inr (inl refl)) refl refl (omega arith) refl

check-NotAgain_example : NotAgain (300 * second) (check true (λ id. true) (100 * second) hosts)
check-NotAgain_example = check-NotAgain true (λ id. true) (100 * second) (300 * second) hosts
