-- ===== src/Alert/LevelAfter/Committed.antt =====
-- dispatch.go (`change`) where nothing fails: what `fn` wrote of the key's alert is committed.
use health_beat.Prelude.{
  ℕ, ◌≤◌, Bool, true, ◌≡◌, refl, sym, ap, ◌∙◌, subst, Option, some, List, [], ◌∷◌, All, nat_eq,
  string_eq, pair_eq, count, arith,
}
use health_beat.Alert.Types.{Level, Alert, AlertKey}
use health_beat.Alert.Table.{
  Db, Result, ok, not_found, failed, Event, OutboxMessage, about, find_active, set_notify_pending,
  enqueue,
}
use health_beat.Alert.World.{M, ◌>>=◌, pure, perform, on_ok, wake}
use health_beat.Alert.Keeps.{Keeps, Lawful}
use health_beat.Alert.Recipients.{Recipient, Prepared, Dispatcher}
use health_beat.Alert.Change.{Change, announce, after_fn, wake_worker, change, prepared_change}
use health_beat.Alert.Atomic.{is_ok}
use health_beat.Alert.Announced.{announce-AllOrNone}
use health_beat.Alert.Calm.{
  Calm, Runs, Calm-Lawful, Runs-Keeps, Runs-bind, Runs-if_true, Runs-in_tx,
}
use health_beat.Alert.Lookup.{level_in, set_notify_pending-level_in}
use health_beat.Alert.Preserved.Dispatch.{announce-Keeps, enqueue_all-Keeps, prepare-Keeps}

module _ (host : ℕ) (key : AlertKey) where
  abbrev pub LevelIs : Option Level → Db → Type 0
  LevelIs x db = level_in host key db.alerts ≡ x

  -- The active alert of the key, and no other.
  abbrev pub Shows : Option Alert → Db → Type 0
  Shows o db = (find_active host key db.alerts ≡ o) × (count (about host key) db.alerts ≤ 1)

  abbrev Done : Option Level → {A : Type 0} → A → Db → Type 0
  Done x a = LevelIs x

  -- The change is committed, with an alert.
  abbrev pub Told : Result Change → Type 0
  Told r = (c : Change) × (a : Alert) × (r ≡ ok c) × (c.alert ≡ some a)

  Told-ok : (r : Result Change) → Told r → is_ok r ≡ true
  Told-ok r (c, a, eq, alert) = ap is_ok eq

  module _ (d : Dispatcher) (x : Option Level) where
    abbrev L : Lawful (Calm (LevelIs x))
    L = Calm-Lawful (LevelIs x)

    marks : (id : ℕ) (m : Bool) → Keeps (Calm (LevelIs x)) (perform (set_notify_pending id m))
    unfolding perform set_notify_pending
    marks id m = record {
      at = λ w h. (set_notify_pending-level_in host key id m w.db.alerts ∙ h.0, h.1, h.2);
    }

    sends : (m : OutboxMessage) → Keeps (Calm (LevelIs x)) (perform (enqueue m))
    unfolding perform enqueue
    sends m = record { at = λ w h. h }

    announce-level :
        (p : Prepared) (event : Event) (a : Alert)
        → Runs (LevelIs x) (λ r db. LevelIs x db × (is_ok r ≡ true)) (announce d p event a)
    announce-level p event a = record {
      at = λ w h.
          let k =
            (announce-Keeps L d marks p event a (
                enqueue_all-Keeps L d (λ r. Unit) p event a p.recipients (λ r _. sends _)
                  (All-Unit p.recipients))).at
              w h in
          ((k.0, (announce-AllOrNone d p event a w).0), k.1, k.2);
    }
      where
        All-Unit : (rs : List Recipient) → All (λ r. Unit {0}) rs
        All-Unit [] = tt
        All-Unit (r ∷ rs) = (tt, All-Unit rs)

    abbrev pub Committed : Result Change → Db → Type 0
    Committed r db = LevelIs x db × Told r

    told-level :
        (a : Alert) (r : Result Bool)
        → Runs
            (λ db. LevelIs x db × (is_ok r ≡ true))
            Committed
            (on_ok r (λ b. pure (ok (record { alert = some a; notified = b }))) (pure failed))
    unfolding on_ok pure
    told-level a (ok b) = record { at = λ w h. ((h.0.0, (_, a, refl, refl)), h.1, h.2) }
    told-level a not_found = record { at = λ w h. ground (arith, h.0.1) }
    told-level a failed = record { at = λ w h. ground (arith, h.0.1) }

    after_fn-level :
        (p : Prepared) (event : Event) (a : Alert)
        → Runs (LevelIs x) Committed (after_fn d p event (ok (some a)))
    unfolding after_fn
    after_fn-level p event a =
        Runs-bind (LevelIs x) (λ r db. LevelIs x db × (is_ok r ≡ true)) Committed _ _
          (announce-level p event a) (told-level a)

    abbrev pub Wrote : Result (Option Alert) → Db → Type 0
    Wrote r db = LevelIs x db × ((a : Alert) × (r ≡ ok (some a)))

    after-Wrote :
        (p : Prepared) (event : Event) (r : Result (Option Alert))
        → Runs (Wrote r) Committed (after_fn d p event r)
    after-Wrote p event r = record {
      at = λ w h.
          let (a, eq) = h.0.1 in
          subst (λ r'. Calm (Committed (after_fn d p event r' w).0) (after_fn d p event r' w).1)
            (sym eq) ((after_fn-level p event a).at w (h.0.0, h.1, h.2));
    }

    wake_worker-level : (r : Result Change) → Runs (Committed r) (Committed) (wake_worker d r)
    unfolding wake_worker ◌>>=◌ pure wake
    wake_worker-level (ok c) =
        Runs-if_true (Committed (ok c)) (Committed) _ _ _ (λ e. record { at = λ w h. h })
          (λ e. record { at = λ w h. h })
    wake_worker-level not_found = record { at = λ w h. h }
    wake_worker-level failed = record { at = λ w h. h }

    pub prepared_change-level :
        (Q : Db → Type 0) (h org : ℕ) (level : Level) (event : Event)
        (fn : M (Result (Option Alert)))
        → Runs Q Wrote fn
        → Runs Q (Committed) (prepared_change d h org level event fn)
    unfolding prepared_change change
    prepared_change-level Q h org level event fn run =
        Runs-bind Q (λ p. Q) (Committed) _ _
          (Runs-Keeps Q _ (prepare-Keeps (Calm-Lawful Q) d h org level))
          (λ p.
            Runs-bind Q (Committed) (Committed) _ _
              (Runs-in_tx Q (Committed) _ (λ r db k. Told-ok r k.1)
                (Runs-bind Q Wrote (Committed) _ _ run (after-Wrote p event)))
              wake_worker-level)
