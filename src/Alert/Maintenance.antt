-- ===== src/Alert/Maintenance.antt =====
-- Maintenance in dispatch.go: a suppressed change marks the alert, and queues nothing.
use health_beat.Prelude.{
  ℕ, Bool, true, false, ◌≡◌, refl, ap, sym, subst, ◌∙◌, Option, some, List, [], ◌∷◌, arith,
}
use health_beat.Alert.Types.{Level, Alert}
use health_beat.Alert.Table.{Db, Result, ok, OutboxMessage, Event}
use health_beat.Alert.World.{World, M, read, fault, pop_fault, ◌>>=◌, pure, on_ok, on_some, now}
use health_beat.Alert.Keeps.{Keeps, Lawful, Keeps-now}
use health_beat.Alert.Yields.{
  Yields, Yields-bind, Yields-after, Yields-pure, Yields-if_true, Keeps-if_true, read-ok,
}
use health_beat.Alert.HostState.{Engine}
use health_beat.Alert.Recipients.{Prepared, Dispatcher, in_maintenance, prepare}
use health_beat.Alert.Change.{announce, prepared_change}
use health_beat.Alert.Flush.{flush_deferred}
use health_beat.Alert.Operations.{Operation, run_all}
use health_beat.Alert.Preserved.Tables.{
  outbox-invariant, Within, NoFaults, NoFaults-Onward, lawful_tables, marked, engine_rules,
}
use health_beat.Alert.Preserved.Dispatch.{
  mark_deferred-Keeps, prepared_change-Keeps, flush_deferred-Keeps,
}
use health_beat.Alert.Guarantees.{run_all-keeps}

no_fault-first :
    (Q : Db → Type 0) (bs : List Bool) (w : World)
    → Within Q NoFaults w
    → bs ≡ []
    → Within Q NoFaults (pop_fault bs w).1 × ((pop_fault bs w).0 ≡ false)
no_fault-first Q [] w h e = (h, refl)
no_fault-first Q (b ∷ bs) w h e = ground (arith, e)

fault-works : (Q : Db → Type 0) → Yields (Within Q NoFaults) (λ b. b ≡ false) fault
unfolding fault
fault-works Q = record { at = λ w h. no_fault-first Q w.faults w h h.1 }

-- The host is in maintenance at every time.
abbrev pub Maintained : Dispatcher → ℕ → Type 0
Maintained d host =
    (active : ℕ → ℕ → Bool) × (d.in_window ≡ some active) × ((t : ℕ) → active host t ≡ true)

module _ (d : Dispatcher) (o : List OutboxMessage) where
  -- No call fails, and the outbox is `o`.
  abbrev W : World → Type 0
  W = Within (λ db. db.outbox ≡ o) NoFaults

  abbrev L : Lawful W
  L = lawful_tables (outbox-invariant (λ x. x ≡ o)) NoFaults-Onward

  abbrev IsTrue : Bool → Type 0
  IsTrue b = b ≡ true

  answered-true :
      (r : Result Bool) → r ≡ ok true → Yields W IsTrue (on_ok r (λ busy. pure busy) (pure false))
  unfolding on_ok
  answered-true r e =
      subst (λ x. Yields W IsTrue (on_ok x (λ busy. pure busy) (pure false))) (sym e)
        (Yields-pure IsTrue true refl)

  windowed-true :
      (active : ℕ → ℕ → Bool) (host : ℕ)
      → ((t : ℕ) → active host t ≡ true)
      → Yields W IsTrue
          (do t ← now; r ← read (active host t); on_ok r (λ busy. pure busy) (pure false))
  windowed-true active host busy = Yields-after IsTrue _ _ Keeps-now (λ t.
      Yields-bind (λ r. r ≡ ok (active host t)) IsTrue _ _
        (read-ok L (active host t) (fault-works (λ db. db.outbox ≡ o)))
        (λ r e. answered-true r (e ∙ ap ok (busy t))))

  in_maintenance-IsTrue : (host : ℕ) → Maintained d host → Yields W IsTrue (in_maintenance d host)
  unfolding in_maintenance on_some
  in_maintenance-IsTrue host (active, eq, busy) =
      subst
        (λ x. Yields W IsTrue (
          on_some x (λ a. do t ← now; r ← read (a host t); on_ok r (λ b. pure b) (pure false))
            (pure false)))
        (sym eq) (windowed-true active host busy)

  abbrev Suppressed : Prepared → Type 0
  Suppressed p = p.suppressed ≡ true

  prepare-Suppressed :
      (host org : ℕ) (level : Level)
      → Maintained d host
      → Yields W Suppressed (prepare d host org level)
  unfolding prepare
  prepare-Suppressed host org level m =
      Yields-bind IsTrue Suppressed _ _ (in_maintenance-IsTrue host m)
        (λ busy e. Yields-if_true Suppressed busy _ _ e (Yields-pure Suppressed _ refl))

  announce-silent :
      (p : Prepared) (event : Event) (a : Alert) → Suppressed p → Keeps W (announce d p event a)
  unfolding announce
  announce-silent p event a s =
      Keeps-if_true p.suppressed _ _ s
        (mark_deferred-Keeps L d (marked (outbox-invariant (λ x. x ≡ o)) NoFaults-Onward) a _)

  module _ (all : (host : ℕ) → Maintained d host) where
    pub silent_changes :
        (host org : ℕ) (level : Level) (event : Event) (fn : M (Result (Option Alert)))
        → Keeps W fn
        → Keeps W (prepared_change d host org level event fn)
    silent_changes =
        prepared_change-Keeps L d Suppressed
          (λ host org level. prepare-Suppressed host org level (all host)) (λ p c s. s)
          announce-silent

    pub silent_flush : Keeps W (flush_deferred d)
    silent_flush =
        flush_deferred-Keeps L d Suppressed
          (λ host org level. prepare-Suppressed host org level (all host)) (λ p c s. s)
          announce-silent

-- While every host is in maintenance and no call of the database fails, any sequence of calls of
-- the engine leaves the outbox as it is, whatever other sessions commit to the alerts.
pub run_all-silent :
    (e : Engine) (os : List Operation) (w : World)
    → ((host : ℕ) → Maintained e.dispatcher host)
    → w.faults ≡ []
    → (run_all e os w).db.outbox ≡ w.db.outbox
run_all-silent e os w all works =
    (run_all-keeps e
      (engine_rules (outbox-invariant (λ x. x ≡ w.db.outbox)) NoFaults-Onward e.dispatcher
        (silent_changes e.dispatcher w.db.outbox all))
      (silent_flush e.dispatcher w.db.outbox all) os w (refl, works)).0
