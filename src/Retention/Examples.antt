-- ===== src/Retention/Examples.antt =====
-- Runs of the purge at concrete inputs: tests, and an instance of the theorem.
use health_beat.Prelude.{
  ℕ, ◌*◌, true, false, List, [], ◌∷◌, Option, none, some, put, remove, string_eq, ◌≡◌, refl, arith,
}
use health_beat.Retention.Purge.{
  Session, done, batches, purge_in_batches, delete_oldest, run_once, day,
}
use health_beat.Retention.Batches.{Ends, purge_in_batches-Ends}

abbrev calm : Session
calm = record { fails = λ i. false; ended = λ i. false }

abbrev rows : List (Option ℕ)
rows = some 3 ∷ none ∷ some 5 ∷ some 8 ∷ some 20 ∷ []

three_go : purge_in_batches 6 calm 10 2 rows ≡ done 3 (none ∷ some 20 ∷ [])
unfolding purge_in_batches batches delete_oldest
three_go = refl

purge_in_batches-Ends_example : Ends 10 rows (purge_in_batches 6 calm 10 2 rows)
purge_in_batches-Ends_example = purge_in_batches-Ends 6 calm 10 2 rows (omega arith)

abbrev broken : Session
broken = record { fails = λ i. true; ended = λ i. false }

-- A table that fails does not stop the next one.
next_is_purged :
    run_once 3
      (40 * day)
      (record { what = "metric samples"; days = 30; session = broken; rows = some 3 ∷ [] }
        ∷ record { what = "audit log entries"; days = 30; session = calm; rows = some 3 ∷ [] }
        ∷ [])
      []
      none
    ≡ (("audit log entries", 1) ∷ ("metric samples", 0) ∷ [], some "metric samples")
unfolding run_once purge_in_batches batches delete_oldest put remove
next_is_purged = refl
