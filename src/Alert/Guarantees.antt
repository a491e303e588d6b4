-- ===== src/Alert/Guarantees.antt =====
-- What the alert engine promises of the tables, over any sequence of its operations.
use health_beat.Prelude.{ℕ, List, [], ◌∷◌, All}
use health_beat.Alert.Types.{Level, Alert}
use health_beat.Alert.Table.{Db, OutboxMessage, Event, enqueue}
use health_beat.Alert.Recipients.{Prepared, Recipient, prepare}
use health_beat.Alert.Change.{announce}
use health_beat.Alert.Flush.{flush_deferred}
use health_beat.Alert.Yields.{Yields}
use health_beat.Alert.Preserved.Dispatch.{
  prepare-Keeps, enqueue_all-Keeps, announce-Keeps, prepared_change-Keeps, flush_deferred-Keeps,
}
use health_beat.Alert.World.{World, perform}
use health_beat.Alert.Keeps.{Keeps, Lawful}
use health_beat.Alert.HostState.{Engine}
use health_beat.Alert.Operations.{
  Operation, report, metrics, docker, offline, online, flush, run, run_all,
}
use health_beat.Alert.Invariants.WellFormed.{WellFormed, WellFormed-invariant}
use health_beat.Alert.Preserved.Lifecycle.{EngineRules}
use health_beat.Alert.Preserved.Tables.{
  TableInvariant, Within, AnyFaults, AnyFaults-Onward, lawful_tables, marked, engine_rules,
}
use health_beat.Alert.Preserved.Reports.{
  evaluate_report-Keeps, evaluate_metrics_only-Keeps, evaluate_docker_only-Keeps,
  resolve_offline-Keeps, raise_offline-Keeps,
}

-- The operations keep `P` where the dispatcher does.
module _ {P : World → Type 0} (e : Engine) (rules : EngineRules e.dispatcher P)
    (flushes : Keeps P (flush_deferred e.dispatcher)) where
  run-Keeps : (o : Operation) → Keeps P (run e o)
  unfolding run
  run-Keeps (report host org r) = evaluate_report-Keeps e rules host org r
  run-Keeps (metrics host org cpu ram disks) =
      evaluate_metrics_only-Keeps e rules host org cpu ram disks
  run-Keeps (docker host org cs) = evaluate_docker_only-Keeps e rules host org cs
  run-Keeps (offline host org) = raise_offline-Keeps e rules host org
  run-Keeps (online host org) = resolve_offline-Keeps e rules host org
  run-Keeps flush = flushes

  pub run_all-keeps : (os : List Operation) (w : World) → P w → P (run_all e os w)
  unfolding run_all
  run_all-keeps [] w q = q
  run_all-keeps (o ∷ os) w q = run_all-keeps os (run e o w).1 ((run-Keeps o).at w q)

-- A predicate on the tables that does not read the outbox.
module _ {Q : Db → Type 0} (I : TableInvariant Q)
    (sent : (m : OutboxMessage) (now : ℕ) (db : Db) → Q db → Q (enqueue m now db).1)
    (e : Engine) where
  abbrev L : Lawful (Within Q AnyFaults)
  L = lawful_tables I AnyFaults-Onward

  abbrev Ready : Prepared → Type 0
  Ready p = Unit

  sends : (m : OutboxMessage) → Keeps (Within Q AnyFaults) (perform (enqueue m))
  unfolding perform
  sends m = record { at = λ w q. (sent m w.clock w.db q.0, q.1) }

  All-Unit : (rs : List Recipient) → All (λ r. Unit {0}) rs
  All-Unit [] = tt
  All-Unit (r ∷ rs) = (tt, All-Unit rs)

  announces :
      (p : Prepared) (event : Event) (a : Alert)
      → Ready p
      → Keeps (Within Q AnyFaults) (announce e.dispatcher p event a)
  announces p event a r = announce-Keeps L e.dispatcher (marked I AnyFaults-Onward) p event a (
      enqueue_all-Keeps L e.dispatcher (λ r. Unit) p event a p.recipients (λ r _. sends _)
        (All-Unit p.recipients))

  prepares :
      (host org : ℕ) (level : Level)
      → Yields (Within Q AnyFaults) Ready (prepare e.dispatcher host org level)
  prepares host org level = record {
    at = λ w q. ((prepare-Keeps L e.dispatcher host org level).at w q, tt);
  }

  pub run_tables-keeps : (os : List Operation) (w : World) → Q w.db → Q (run_all e os w).db
  run_tables-keeps os w q =
      (run_all-keeps e
        (engine_rules I AnyFaults-Onward e.dispatcher
          (prepared_change-Keeps L e.dispatcher Ready prepares (λ p c r. tt) announces))
        (flush_deferred-Keeps L e.dispatcher Ready prepares (λ p c r. tt) announces) os w (q, tt)).0

-- After any sequence of calls of the engine, whichever calls of the database fail and whatever
-- other sessions commit in between: if at the start a host and key had one active alert at most,
-- and ids were unique and below the next id, the same holds at the end.
pub run_all-WellFormed :
    (e : Engine) (os : List Operation) (w : World)
    → WellFormed w.db
    → WellFormed (run_all e os w).db
unfolding enqueue
run_all-WellFormed e os w wf =
    run_tables-keeps WellFormed-invariant
      (λ m now db h. record { one_active = h.one_active; one_id = h.one_id; fresh = h.fresh }) e os
      w wf
