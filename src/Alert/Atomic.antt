-- ===== src/Alert/Atomic.antt =====
-- Transactions and savepoints in dispatch.go (`change`, `announce`): all or nothing.
use health_beat.Prelude.{
  Bool, true, false, ◌≡◌, refl, sym, ◌∙◌, Option, List, [], ◌∷◌, if◌then◌else◌, arith,
}
use health_beat.Alert.Types.{Alert}
use health_beat.Alert.Table.{Result, ok, not_found, failed, Event}
use health_beat.Alert.World.{
  World, M, ◌>>=◌, ◌>>◌, pure, fault, pop_fault, turn, wake, restore, tables, finish, savepoint,
  in_tx,
}
use health_beat.Alert.Recipients.{Prepared, Dispatcher}
use health_beat.Alert.Change.{Change, after_fn, wake_worker, change}

abbrev pub is_ok : {A : Type 0} → Result A → Bool
is_ok (ok a) = true
is_ok not_found = false
is_ok failed = false

pop_fault-db : (bs : List Bool) (w : World) → (pop_fault bs w).1.db ≡ w.db
pop_fault-db [] w = refl
pop_fault-db (b ∷ bs) w = refl

pub fault-db : (w : World) → (fault w).1.db ≡ w.db
unfolding fault
fault-db w = pop_fault-db w.faults w

module _ {A : Type 0} where
  committed-or_restored :
      (b : Bool) (a : A) (v w : World)
      → is_ok ((if b then (restore v.db >> pure failed) else pure (ok a)) w).0 ≡ false
      → ((if b then (restore v.db >> pure failed) else pure (ok a)) w).1.db ≡ v.db
  unfolding restore ◌>>=◌ pure
  committed-or_restored true a v w h = refl
  committed-or_restored false a v w h = ground (arith, h)

  finish-restores :
      (v : World) (r : Result A) (w : World)
      → is_ok (finish v.db r w).0 ≡ false
      → (finish v.db r w).1.db ≡ v.db
  unfolding finish restore ◌>>=◌ pure
  finish-restores v (ok a) w h = let (b, w') = fault w in committed-or_restored b a v w' h
  finish-restores v not_found w h = refl
  finish-restores v failed w h = refl

  run_or_fail-restores :
      (m : M (Result A)) (b : Bool) (w : World)
      → is_ok ((if b then pure failed else (m >>= finish w.db)) w).0 ≡ false
      → ((if b then pure failed else (m >>= finish w.db)) w).1.db ≡ w.db
  unfolding ◌>>=◌ pure
  run_or_fail-restores m true w h = refl
  run_or_fail-restores m false w h = let (r, w') = m w in finish-restores w r w' h

  pub savepoint-restores :
      (m : M (Result A)) (w : World) → is_ok (savepoint m w).0 ≡ false → (savepoint m w).1.db ≡ w.db
  unfolding savepoint ◌>>=◌ tables
  savepoint-restores m w h = let (b, w') = fault w in run_or_fail-restores m b w' h ∙ fault-db w

  in_tx-restores :
      (m : M (Result A)) (w : World)
      → is_ok (in_tx m w).0 ≡ false
      → (in_tx m w).1.db ≡ (turn w).1.db
  unfolding in_tx ◌>>=◌
  in_tx-restores m w h = savepoint-restores m (turn w).1 h

wake_worker-db : (d : Dispatcher) (r : Result Change) (w : World) → (wake_worker d r w).1.db ≡ w.db
unfolding wake_worker wake ◌>>=◌ pure
wake_worker-db d (ok c) w = ground arith
wake_worker-db d not_found w = refl
wake_worker-db d failed w = refl

wake_worker-is_ok :
    (d : Dispatcher) (r : Result Change) (w : World) → is_ok (wake_worker d r w).0 ≡ is_ok r
unfolding wake_worker wake ◌>>=◌ pure
wake_worker-is_ok d (ok c) w = ground arith
wake_worker-is_ok d not_found w = refl
wake_worker-is_ok d failed w = refl

-- A change of an alert that does not succeed leaves the tables as they were when its transaction
-- began, whatever `fn` wrote and whichever call of the database failed.
pub change-restores :
    (d : Dispatcher) (p : Prepared) (event : Event) (fn : M (Result (Option Alert))) (w : World)
    → is_ok (change d p event fn w).0 ≡ false
    → (change d p event fn w).1.db ≡ (turn w).1.db
unfolding change ◌>>=◌
change-restores d p event fn w h =
    let m = fn >>= after_fn d p event in
    let (r, w') = in_tx m w in
    wake_worker-db d r w' ∙ in_tx-restores m w (sym (wake_worker-is_ok d r w') ∙ h)
