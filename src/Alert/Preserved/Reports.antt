-- ===== src/Alert/Preserved/Reports.antt =====
-- The functions of numeric.go, and the entry points of the engine.
use health_beat.Prelude.{ℕ, Option, List, [], ◌∷◌}
use health_beat.Prelude.Int.{ℤ}
use health_beat.Alert.Types.{DiskUsage, DockerContainerReport, SystemState, Report}
use health_beat.Alert.World.{World}
use health_beat.Alert.Keeps.{Keeps, keeps_rules}
use health_beat.Alert.HostState.{HostState, Engine}
use health_beat.Alert.Evaluate.{
  evaluate_restart_loops, evaluate_time_offset, evaluate_numeric, evaluate_all, evaluate_report,
  resolve_offline, raise_offline, evaluate_metrics_only, evaluate_docker_only,
}
use health_beat.Alert.Preserved.Lifecycle.{
  EngineRules, found_active, open_fn-Keeps, resolve_and_notify-Keeps, settle-Keeps, apply-Keeps,
}
use health_beat.Alert.Preserved.Subjects.{
  reconcile-Keeps, resolve_all-Keeps, evaluate_subjects-Keeps, load_state-Keeps,
}
use health_beat.Alert.Preserved.MetricReports.{evaluate_metrics-Keeps, evaluate_docker-Keeps}
use health_beat.Alert.Preserved.StatusReports.{services-Keeps, evaluate_status-Keeps}

module _ {P : World → Type 0} (e : Engine) (R : EngineRules e.dispatcher P) where
  evaluate_restart_loops-Keeps : (st : HostState) → Keeps P (evaluate_restart_loops e st)
  unfolding evaluate_restart_loops
  evaluate_restart_loops-Keeps st =
      search (keeps_rules, services-Keeps e R, resolve_all-Keeps e R, evaluate_subjects-Keeps e R)
        depth 7

  evaluate_time_offset-Keeps :
      (st : HostState) (s : Option SystemState) → Keeps P (evaluate_time_offset e st s)
  unfolding evaluate_time_offset
  evaluate_time_offset-Keeps st s = search (keeps_rules, reconcile-Keeps e R, apply-Keeps e R)

  evaluate_numeric-Keeps : (st : HostState) (r : Report) → Keeps P (evaluate_numeric e st r)
  unfolding evaluate_numeric
  evaluate_numeric-Keeps st r =
      search
        (
          keeps_rules,
          evaluate_subjects-Keeps e R,
          evaluate_restart_loops-Keeps,
          evaluate_time_offset-Keeps,
        )
        depth 7

  evaluate_all-Keeps : (st : HostState) (r : Report) → Keeps P (evaluate_all e st r)
  unfolding evaluate_all
  evaluate_all-Keeps st r =
      search
        (
          keeps_rules,
          settle-Keeps e R,
          evaluate_docker-Keeps e R,
          evaluate_metrics-Keeps e R,
          evaluate_status-Keeps e R,
          evaluate_numeric-Keeps,
        )
        depth 8

  pub evaluate_report-Keeps : (host org : ℕ) (r : Report) → Keeps P (evaluate_report e host org r)
  unfolding evaluate_report
  evaluate_report-Keeps host org r = search (keeps_rules, load_state-Keeps e R, evaluate_all-Keeps)

  pub resolve_offline-Keeps : (host org : ℕ) → Keeps P (resolve_offline e host org)
  unfolding resolve_offline
  resolve_offline-Keeps host org =
      search (keeps_rules, found_active e R, resolve_and_notify-Keeps e R)

  pub raise_offline-Keeps : (host org : ℕ) → Keeps P (raise_offline e host org)
  unfolding raise_offline
  raise_offline-Keeps host org =
      search (keeps_rules, found_active e R, R.changes, open_fn-Keeps e R)

  pub evaluate_metrics_only-Keeps :
      (host org : ℕ) (cpu ram : ℤ) (disks : List DiskUsage)
      → Keeps P (evaluate_metrics_only e host org cpu ram disks)
  unfolding evaluate_metrics_only
  evaluate_metrics_only-Keeps host org cpu ram disks =
      search (keeps_rules, load_state-Keeps e R, evaluate_metrics-Keeps e R)

  pub evaluate_docker_only-Keeps :
      (host org : ℕ) (cs : List DockerContainerReport)
      → Keeps P (evaluate_docker_only e host org cs)
  unfolding evaluate_docker_only
  evaluate_docker_only-Keeps host org [] = search keeps_rules
  evaluate_docker_only-Keeps host org (c ∷ cs) =
      search (keeps_rules, load_state-Keeps e R, evaluate_docker-Keeps e R)
