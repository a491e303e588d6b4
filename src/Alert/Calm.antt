-- ===== src/Alert/Calm.antt =====
-- The engine where no call of the database fails and no other session commits: what an action
-- does to the tables, and what its result is.
use health_beat.Prelude.{ℕ, Bool, true, false, ◌≡◌, refl, List, [], ◌∷◌, if◌then◌else◌, arith}
use health_beat.Alert.Table.{Db, Result, ok, not_found, failed, Statement}
use health_beat.Alert.World.{
  World, Turn, M, ◌>>=◌, ◌>>◌, pure, wake, turn, pass, fault, pop_fault, restore, tables, finish,
  savepoint, in_tx, statement, query, perform,
}
use health_beat.Alert.Keeps.{Keeps, Lawful}
use health_beat.Alert.Atomic.{is_ok}

abbrev pub Calm : (Db → Type 0) → World → Type 0
Calm Q w = Q w.db × (w.faults ≡ []) × (w.turns ≡ [])

-- From tables with `Q`, the result and the tables have `R`.
pub record Runs {A : Type 0} (Q : Db → Type 0) (R : A → Db → Type 0) (m : M A) : Type 0 where
  pub at : (w : World) → Calm Q w → Calm (R (m w).0) (m w).1

pass-calm : (Q : Db → Type 0) (ts : List Turn) (w : World) → ts ≡ [] → Calm Q w → Calm Q (pass ts w)
pass-calm Q [] w e h = h
pass-calm Q (t ∷ ts) w e h = ground (arith, e)

fault-calm :
    (Q : Db → Type 0) (bs : List Bool) (w : World)
    → bs ≡ []
    → Calm Q w
    → Calm Q (pop_fault bs w).1 × ((pop_fault bs w).0 ≡ false)
fault-calm Q [] w e h = (h, refl)
fault-calm Q (b ∷ bs) w e h = ground (arith, e)

pub Calm-Lawful : (Q : Db → Type 0) → Lawful (Calm Q)
unfolding turn fault wake restore
Calm-Lawful Q = record {
  turns = λ w h. pass-calm Q w.turns w h.2 h;
  faults = λ w h. (fault-calm Q w.faults w h.1 h).0;
  wakes = λ w h. h;
  restores = λ v w hv hw. (hv.0, hw.1, hw.2);
}

-- What keeps every content of the tables.
pub Runs-Keeps : {A : Type 0} (Q : Db → Type 0) (m : M A) → Keeps (Calm Q) m → Runs Q (λ a. Q) m
Runs-Keeps Q m k = record { at = λ w h. k.at w h }

module _ {A : Type 0} where
  pub Runs-pure : (R : A → Db → Type 0) (a : A) → Runs (R a) R (pure a)
  unfolding pure
  Runs-pure R a = record { at = λ w h. h }

  pub Runs-from :
      (Q Q' : Db → Type 0) (R : A → Db → Type 0) (m : M A)
      → ((db : Db) → Q db → Q' db)
      → Runs Q' R m
      → Runs Q R m
  Runs-from Q Q' R m f r = record { at = λ w h. r.at w (f w.db h.0, h.1, h.2) }

  pub Runs-bind :
      {B : Type 0} (Q : Db → Type 0) (R : A → Db → Type 0) (S : B → Db → Type 0) (m : M A)
      (f : A → M B)
      → Runs Q R m
      → ((a : A) → Runs (R a) S (f a))
      → Runs Q S (m >>= f)
  unfolding ◌>>=◌
  Runs-bind Q R S m f r s = record {
    at = λ w h. let k = r.at w h in let (a, w') = m w in (s a).at w' k;
  }

  pub Runs-if_true :
      (Q : Db → Type 0) (R : A → Db → Type 0) (b : Bool) (m n : M A)
      → (b ≡ true → Runs Q R m)
      → (b ≡ false → Runs Q R n)
      → Runs Q R (if b then m else n)
  Runs-if_true Q R true m n km kn = km refl
  Runs-if_true Q R false m n km kn = kn refl

  works :
      (Q : Db → Type 0) (R : Result A → Db → Type 0) (s : Statement A) (b : Bool) (w : World)
      → b ≡ false
      → ((now : ℕ) (db : Db) → Q db → R (s now db).0 (s now db).1)
      → Calm Q w
      → Calm
          (R ((if b then pure failed else perform s) w).0)
          ((if b then pure failed else perform s) w).1
  unfolding perform pure
  works Q R s true w e f h = ground (arith, e)
  works Q R s false w e f h = (f w.clock w.db h.0, h.1, h.2)

  pub Runs-statement :
      (Q : Db → Type 0) (R : Result A → Db → Type 0) (s : Statement A)
      → ((now : ℕ) (db : Db) → Q db → R (s now db).0 (s now db).1)
      → Runs Q R (statement s)
  unfolding statement ◌>>=◌ fault
  Runs-statement Q R s f = record {
    at = λ w h.
        let k = fault-calm Q w.faults w h.1 h in
        works Q R s (pop_fault w.faults w).0 (pop_fault w.faults w).1 k.1 f k.0;
  }

  finish-calm :
      (R : Result A → Db → Type 0) (v : World) (r : Result A) (w : World)
      → is_ok r ≡ true
      → Calm (R r) w
      → Calm (R (finish v.db r w).0) (finish v.db r w).1
  unfolding finish ◌>>=◌ fault pure
  finish-calm R v (ok a) w e h =
      let k = fault-calm (R (ok a)) w.faults w h.1 h in
      committed (pop_fault w.faults w).0 (pop_fault w.faults w).1 k.1 k.0
    where
      committed :
          (b : Bool) (u : World)
          → b ≡ false
          → Calm (R (ok a)) u
          → Calm
              (R ((if b then (restore v.db >> pure failed) else pure (ok a)) u).0)
              ((if b then (restore v.db >> pure failed) else pure (ok a)) u).1
      committed true u eb h = ground (arith, eb)
      committed false u eb h = h
  finish-calm R v not_found w e h = ground (arith, e)
  finish-calm R v failed w e h = ground (arith, e)

  begun :
      (Q : Db → Type 0) (R : Result A → Db → Type 0) (m : M (Result A)) (b : Bool) (w : World)
      → ((r : Result A) (db : Db) → R r db → is_ok r ≡ true)
      → Runs Q R m
      → b ≡ false
      → Calm Q w
      → Calm
          (R ((if b then pure failed else (m >>= finish w.db)) w).0)
          ((if b then pure failed else (m >>= finish w.db)) w).1
  unfolding ◌>>=◌ pure
  begun Q R m true w good run e h = ground (arith, e)
  begun Q R m false w good run e h =
      let k = run.at w h in let (r, w') = m w in finish-calm R w r w' (good r w'.db k.0) k

  -- What succeeds is committed.
  pub Runs-savepoint :
      (Q : Db → Type 0) (R : Result A → Db → Type 0) (m : M (Result A))
      → ((r : Result A) (db : Db) → R r db → is_ok r ≡ true)
      → Runs Q R m
      → Runs Q R (savepoint m)
  unfolding savepoint ◌>>=◌ tables fault
  Runs-savepoint Q R m good run = record {
    at = λ w h.
        let k = fault-calm Q w.faults w h.1 h in
        begun Q R m (pop_fault w.faults w).0 (pop_fault w.faults w).1 good run k.1 k.0;
  }

module _ {A : Type 0} where
  pub Runs-query :
      (Q : Db → Type 0) (R : Result A → Db → Type 0) (s : Statement A)
      → ((now : ℕ) (db : Db) → Q db → R (s now db).0 (s now db).1)
      → Runs Q R (query s)
  unfolding query
  Runs-query Q R s f =
      Runs-bind Q (λ _. Q) R turn (λ _. statement s) (record { at = (Calm-Lawful Q).turns })
        (λ _. Runs-statement Q R s f)

  pub Runs-in_tx :
      (Q : Db → Type 0) (R : Result A → Db → Type 0) (m : M (Result A))
      → ((r : Result A) (db : Db) → R r db → is_ok r ≡ true)
      → Runs Q R m
      → Runs Q R (in_tx m)
  unfolding in_tx
  Runs-in_tx Q R m good run =
      Runs-bind Q (λ _. Q) R turn (λ _. savepoint m) (record { at = (Calm-Lawful Q).turns })
        (λ _. Runs-savepoint Q R m good run)
