-- ===== src/Alert/Examples.antt =====
-- Runs of the alert engine at concrete inputs: tests, and instances of the theorems.
use health_beat.Prelude.{true, false, ◌≡◌, refl, none, some, [], ◌∷◌, count, get, arith}
use health_beat.Prelude.Int.{pos}
use health_beat.Alert.Types.{duration_of}
use health_beat.Alert.Table.{Event}
use health_beat.Alert.World.{
  tables, turn, in_tx, savepoint, fault, pure, statement, ◌>>=◌, finish, restore, on_result,
  perform,
}
use health_beat.Alert.Recipients.{deliverable}
use health_beat.Alert.Change.{change, announce, resolve_fn, after_fn, wake_worker}
use health_beat.Alert.HostState.{level_of}
use health_beat.Alert.Engine.{apply}
use health_beat.Alert.Operations.{run_all}
use health_beat.Alert.Invariants.WellFormed.{WellFormed}
use health_beat.Alert.Atomic.{change-restores}
use health_beat.Alert.Announced.{AllOrNone, queued, announce-AllOrNone}
use health_beat.Alert.Delivery.{AllAddressed, run_all-AllAddressed}
use health_beat.Alert.Reasons.{SplitInto, deliverable-splits}
use health_beat.Alert.Maintenance.{run_all-silent}
use health_beat.Alert.Guarantees.{run_all-WellFormed}
use health_beat.Alert.LevelAfter.{reached, apply-level}
use health_beat.Alert.Lookup.{level_in}
use health_beat.Alert.Waiting.{apply-waits}
use health_beat.Alert.Fixtures.{
  alice, bob, dispatcher, cpu_limit, engine, cpu_alert, alert_tables, busy_world, calm_world,
  cpu_key, state, day, ready, critical_world, evening,
}

alert_tables-WellFormed : WellFormed alert_tables
unfolding count
alert_tables-WellFormed = record {
  one_active = λ host key. ground arith;
  one_id = λ id. ground arith;
  fresh = λ id le. ground (arith, le);
}

apply-level_example :
    level_in 1 cpu_key critical_world.db.alerts ≡ reached (level_of (cpu_limit none) (pos 95000))
unfolding duration_of count get
apply-level_example =
    apply-level (engine false) (state (some cpu_alert)) cpu_key (pos 95000) (cpu_limit none)
      calm_world refl refl refl (ground arith) refl

run_all-WellFormed_example : WellFormed evening.db
run_all-WellFormed_example =
    run_all-WellFormed (engine false) day busy_world alert_tables-WellFormed

announce-AllOrNone_example :
    AllOrNone
      (dispatcher false)
      []
      (queued (dispatcher false) ready Event.opened cpu_alert (alice ∷ alice ∷ []) [])
      (announce (dispatcher false) ready Event.opened cpu_alert busy_world)
announce-AllOrNone_example =
    announce-AllOrNone (dispatcher false) ready Event.opened cpu_alert busy_world

change-restores_example :
    (change
      (dispatcher false)
      ready
      Event.resolved
      (resolve_fn (dispatcher false) cpu_alert none none)
      (record busy_world { faults = false ∷ true ∷ [] })).1.db
    ≡ (turn (record busy_world { faults = false ∷ true ∷ [] })).1.db
unfolding change in_tx turn savepoint fault pure statement ◌>>=◌ finish tables restore resolve_fn
    on_result after_fn wake_worker perform
change-restores_example =
    change-restores (dispatcher false) ready Event.resolved
      (resolve_fn (dispatcher false) cpu_alert none none)
      (record busy_world { faults = false ∷ true ∷ [] }) refl

run_all-AllAddressed_example : AllAddressed (dispatcher false) busy_world.db.outbox evening.db
run_all-AllAddressed_example = run_all-AllAddressed (engine false) day busy_world

run_all-silent_example : (run_all (engine true) day calm_world).db.outbox ≡ []
run_all-silent_example =
    run_all-silent (engine true) day calm_world (λ host. ((λ h t. true), refl, λ t. refl)) refl

apply-waits_example :
    apply (engine false) (state none) cpu_key (pos 95000) (cpu_limit (some 60)) calm_world
    ≡ (state none, calm_world)
unfolding get duration_of level_of
apply-waits_example =
    apply-waits (engine false) (state none) cpu_key (pos 95000) (cpu_limit (some 60)) 50 calm_world
      (λ h. ground (arith, h)) refl refl (λ h. ground (arith, h)) (omega arith)

deliverable-splits_example :
    SplitInto
      ("email" ∷ [])
      (alice ∷ bob ∷ [])
      (deliverable ("email" ∷ []) (alice ∷ bob ∷ [])).0
      (deliverable ("email" ∷ []) (alice ∷ bob ∷ [])).1
deliverable-splits_example = deliverable-splits ("email" ∷ []) (alice ∷ bob ∷ [])
