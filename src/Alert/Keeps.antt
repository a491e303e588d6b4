-- ===== src/Alert/Keeps.antt =====
-- What every action of the engine keeps, whichever calls of the database fail and whatever other
-- sessions commit: one rule for each way to build an action.
use health_beat.Prelude.{Bool, true, false, Option, none, some, List, [], ◌∷◌, if◌then◌else◌}
use health_beat.Alert.Table.{Result, ok, not_found, failed, Statement}
use health_beat.Alert.World.{
  World, M, ◌>>=◌, ◌>>◌, pure, now, wake, turn, fault, perform, statement, query, read, restore,
  tables, finish, savepoint, in_tx, on_ok, on_result, on_some, on_cons,
}

pub record Keeps {A : Type 0} (P : World → Type 0) (m : M A) : Type 0 where
  pub at : (w : World) → P w → P (m w).1

-- What a predicate must allow: the world goes on, and the tables go back to an earlier content.
pub record Lawful (P : World → Type 0) : Type 0 where
  pub turns : (w : World) → P w → P (turn w).1
  pub faults : (w : World) → P w → P (fault w).1
  pub wakes : (w : World) → P w → P (wake w).1
  pub restores : (v w : World) → P v → P w → P (restore v.db w).1

module _ {P : World → Type 0} where
  module _ {A : Type 0} where
    pub Keeps-pure : (a : A) → Keeps P (pure a)
    unfolding pure
    Keeps-pure a = record { at = λ w h. h }

    pub Keeps-if : (b : Bool) (m n : M A) → Keeps P m → Keeps P n → Keeps P (if b then m else n)
    Keeps-if true m n km kn = km
    Keeps-if false m n km kn = kn

  pub Keeps-now : Keeps P now
  unfolding now
  Keeps-now = record { at = λ w h. h }

  module _ {A B : Type 0} where
    pub Keeps-bind :
        (m : M A) (f : A → M B) → Keeps P m → ((a : A) → Keeps P (f a)) → Keeps P (m >>= f)
    unfolding ◌>>=◌
    Keeps-bind m f km kf = record { at = λ w h. let (a, w') = m w in (kf a).at w' (km.at w h) }

    pub Keeps-on_ok :
        (r : Result A) (f : A → M B) (n : M B)
        → ((a : A) → Keeps P (f a))
        → Keeps P n
        → Keeps P (on_ok r f n)
    unfolding on_ok
    Keeps-on_ok (ok a) f n kf kn = kf a
    Keeps-on_ok not_found f n kf kn = kn
    Keeps-on_ok failed f n kf kn = kn

    pub Keeps-on_result :
        (r : Result A) (f : A → M B) (m n : M B)
        → ((a : A) → Keeps P (f a))
        → Keeps P m
        → Keeps P n
        → Keeps P (on_result r f m n)
    unfolding on_result
    Keeps-on_result (ok a) f m n kf km kn = kf a
    Keeps-on_result not_found f m n kf km kn = km
    Keeps-on_result failed f m n kf km kn = kn

    pub Keeps-on_some :
        (o : Option A) (f : A → M B) (n : M B)
        → ((a : A) → Keeps P (f a))
        → Keeps P n
        → Keeps P (on_some o f n)
    unfolding on_some
    Keeps-on_some (some a) f n kf kn = kf a
    Keeps-on_some none f n kf kn = kn

    pub Keeps-on_cons :
        (xs : List A) (f : A → List A → M B) (n : M B)
        → ((x : A) (rest : List A) → Keeps P (f x rest))
        → Keeps P n
        → Keeps P (on_cons xs f n)
    unfolding on_cons
    Keeps-on_cons (x ∷ rest) f n kf kn = kf x rest
    Keeps-on_cons [] f n kf kn = kn

pub ruleset keeps_rules = (
  Keeps-pure, Keeps-if, Keeps-now, Keeps-bind, Keeps-on_ok, Keeps-on_result, Keeps-on_some,
  Keeps-on_cons,
)

module _ {P : World → Type 0} (L : Lawful P) where
  Keeps-turn : Keeps P turn
  Keeps-turn = record { at = L.turns }

  pub Keeps-fault : Keeps P fault
  Keeps-fault = record { at = L.faults }

  pub Keeps-wake : Keeps P wake
  Keeps-wake = record { at = L.wakes }

  module _ {A : Type 0} where
    pub Keeps-statement : (s : Statement A) → Keeps P (perform s) → Keeps P (statement s)
    unfolding statement
    Keeps-statement s k = search (keeps_rules, Keeps-fault)

    pub Keeps-query : (s : Statement A) → Keeps P (perform s) → Keeps P (query s)
    unfolding query
    Keeps-query s k = search (keeps_rules, Keeps-turn, Keeps-statement)

    restore_if-at :
        (v : World) (b : Bool) (a : A) (w : World)
        → P v
        → P w
        → P ((if b then (restore v.db >> pure failed) else pure (ok a)) w).1
    unfolding ◌>>=◌ pure
    restore_if-at v true a w hv hw = L.restores v w hv hw
    restore_if-at v false a w hv hw = hw

    finish-at : (v : World) (r : Result A) (w : World) → P v → P w → P (finish v.db r w).1
    unfolding finish ◌>>=◌ pure
    finish-at v (ok a) w hv hw =
        let (broken, w') = fault w in restore_if-at v broken a w' hv (L.faults w hw)
    finish-at v not_found w hv hw = L.restores v w hv hw
    finish-at v failed w hv hw = L.restores v w hv hw

    run_or_fail-at :
        (m : M (Result A)) (b : Bool) (w : World)
        → Keeps P m
        → P w
        → P ((if b then pure failed else (m >>= finish w.db)) w).1
    unfolding ◌>>=◌ pure
    run_or_fail-at m true w k h = h
    run_or_fail-at m false w k h = let (r, w') = m w in finish-at w r w' h (k.at w h)

    pub Keeps-savepoint : (m : M (Result A)) → Keeps P m → Keeps P (savepoint m)
    unfolding savepoint ◌>>=◌ tables
    Keeps-savepoint m k = record {
      at = λ w h. let (broken, w') = fault w in run_or_fail-at m broken w' k (L.faults w h);
    }

    pub Keeps-in_tx : (m : M (Result A)) → Keeps P m → Keeps P (in_tx m)
    unfolding in_tx
    Keeps-in_tx m k = search (keeps_rules, Keeps-turn, Keeps-savepoint)

  pub Keeps-read : {A : Type 0} (a : A) → Keeps P (read a)
  unfolding read
  Keeps-read a = search (keeps_rules, Keeps-turn, Keeps-fault)
