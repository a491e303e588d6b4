-- ===== src/Alert/LevelAfter/Writes.antt =====
-- engine.go and dispatch.go where nothing fails: what the three statements on an alert write.
use health_beat.Prelude.{
  ℕ, ◌≡◌, refl, sym, subst, Option, none, some, nat_eq, string_eq, pair_eq, arith,
}
use health_beat.Prelude.Int.{ℤ}
use health_beat.Alert.Types.{Level, Alert, AlertKey}
use health_beat.Alert.Table.{
  Db, Result, ok, not_found, failed, update_level, resolve, create_if_none_active, active_id,
  set_resolved, update_returning, insert_if, new_alert,
}
use health_beat.Alert.World.{pure, on_ok, on_result}
use health_beat.Alert.Change.{resolve_fn}
use health_beat.Alert.HostState.{Engine}
use health_beat.Alert.Engine.{level_fn, open_fn}
use health_beat.Alert.Calm.{Runs, Runs-bind, Runs-statement}
use health_beat.Alert.Lookup.{
  update_level-level_in, resolve-level_in, create-level_in, active_id-found,
}
use health_beat.Alert.LevelAfter.Committed.{Shows, LevelIs, Wrote}

module _ (host : ℕ) (key : AlertKey) where
  module _ (e : Engine) where
    pure-level :
        {A : Type 0} (S : Db → Type 0) (r : Result A) (a : A) (o : Alert)
        → Runs
            (λ db. S db × (r ≡ ok a))
            (λ r db. S db × ((b : Alert) × (r ≡ ok (some b))))
            (on_ok r (λ _. pure (ok (some o))) (pure failed))
    unfolding on_ok pure
    pure-level S (ok b) a o = record { at = λ w h. ((h.0.0, (o, refl)), h.1, h.2) }
    pure-level S not_found a o = record { at = λ w h. ground (arith, h.0.1) }
    pure-level S failed a o = record { at = λ w h. ground (arith, h.0.1) }

    pub level_fn-level :
        (a : Alert) (l : Level) (v t : Option ℤ)
        → Runs (Shows host key (some a)) (Wrote host key e.dispatcher (some l)) (level_fn e a l v t)
    unfolding level_fn update_level
    level_fn-level a l v t =
        Runs-bind (Shows host key (some a)) (λ r db. LevelIs host key (some l) db × (r ≡ ok tt)) _ _
          _
          (Runs-statement _ _ _
            (λ now db h. (update_level-level_in host key a l v t _ db.alerts h.0, refl)))
          (λ r. pure-level (LevelIs host key (some l)) r tt _)

    resolved_row :
        (a : Alert) (v t : Option ℤ) (now : ℕ) (db : Db)
        → Shows host key (some a) db
        → LevelIs host key none (resolve a.id v t now db).1
          × ((b : Alert) × ((resolve a.id v t now db).0 ≡ ok b))
    unfolding resolve
    resolved_row a v t now db h =
        let (b, found) = active_id-found host key a db.alerts h.0 in
        subst
          (λ o.
            LevelIs host key none (update_returning o (active_id a.id) (set_resolved now v t) db).1
            × ((c : Alert) × ((update_returning o (active_id a.id) (set_resolved now v t) db).0
                  ≡ ok c)))
          (sym found) (resolve-level_in host key a now v t db.alerts h.0 h.1, (_, refl))

    resolved-level :
        (r : Result Alert)
        → Runs
            (λ db. LevelIs host key none db × ((b : Alert) × (r ≡ ok b)))
            (Wrote host key e.dispatcher none)
            (on_result r (λ a. pure (ok (some a))) (pure (ok none)) (pure failed))
    unfolding on_result pure
    resolved-level (ok b) = record { at = λ w h. ((h.0.0, (b, refl)), h.1, h.2) }
    resolved-level not_found = record { at = λ w h. let (b, eq) = h.0.1 in ground (arith, eq) }
    resolved-level failed = record { at = λ w h. let (b, eq) = h.0.1 in ground (arith, eq) }

    pub resolve_fn-level :
        (a : Alert) (v t : Option ℤ)
        → Runs
            (Shows host key (some a))
            (Wrote host key e.dispatcher none)
            (resolve_fn e.dispatcher a v t)
    unfolding resolve_fn
    resolve_fn-level a v t =
        Runs-bind (Shows host key (some a))
          (λ r db. LevelIs host key none db × ((b : Alert) × (r ≡ ok b))) _ _ _
          (Runs-statement _ _ _ (resolved_row a v t)) resolved-level

    created-level :
        (l : Level) (r : Result (Option Alert))
        → Runs
            (Wrote host key e.dispatcher (some l) r)
            (Wrote host key e.dispatcher (some l))
            (on_ok r (λ created. pure (ok created)) (pure failed))
    unfolding on_ok pure
    created-level l (ok o) = record { at = λ w h. h }
    created-level l not_found = record { at = λ w h. let (b, eq) = h.0.1 in ground (arith, eq) }
    created-level l failed = record { at = λ w h. h }

    pub open_fn-level :
        (l : Level) (v t : Option ℤ)
        → Runs
            (Shows host key none)
            (Wrote host key e.dispatcher (some l))
            (open_fn e host key l v t)
    unfolding open_fn create_if_none_active
    open_fn-level l v t =
        Runs-bind (Shows host key none) (Wrote host key e.dispatcher (some l)) _ _ _
          (Runs-statement _ _ _ (λ now db h.
            subst
              (λ o.
                Wrote host key e.dispatcher (some l)
                  (insert_if o (new_alert db now host key l v t) db).0
                  (insert_if o (new_alert db now host key l v t) db).1)
              (sym h.0) (create-level_in host key l v t now db, (_, refl))))
          (created-level l)
