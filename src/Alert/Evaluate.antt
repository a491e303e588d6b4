-- ===== src/Alert/Evaluate.antt =====
-- alertengine/numeric.go, and the entry points of engine.go: a report, a host that falls silent, a
-- host that is back.
use health_beat.Prelude.{
  ℕ, ◌*◌, ◌-◌, String, false, not, Option, none, some, List, [], ◌∷◌, Map, get, put, string_eq,
  pair_eq, if◌then◌else◌,
}
use health_beat.Prelude.Int.{ℤ, abs}
use health_beat.Alert.Types.{
  critical, HostService, SystemState, DiskUsage, DockerContainerReport, Report, metric,
  restarts_since, second, of_count,
}
use health_beat.Alert.Table.{Event, get_active_subject}
use health_beat.Alert.World.{on_ok, on_some, on_result, M, ◌>>=◌, ◌>>◌, pure, now, query}
use health_beat.Alert.Change.{prepared_change, resolve_and_notify}
use health_beat.Alert.HostState.{Engine, HostState, load_state}
use health_beat.Alert.Engine.{apply, open_fn, settle}
use health_beat.Alert.Reconcile.{
  no_condition, has_thresholds, reconcile, resolve_all, evaluate_subjects,
}
use health_beat.Alert.Metrics.{evaluate_metrics, evaluate_docker}
use health_beat.Alert.StatusAlerts.{services, evaluate_status}

-- 10 minutes
abbrev pub restart_window : ℕ
restart_window = 600 * second

-- Values by subject; of two entries with one name the later one stands.
unfoldable pub value_map : Map String ℤ → List (String × ℤ) → Map String ℤ
value_map vs [] = vs
value_map vs ((name, v) ∷ rest) = value_map (put name v vs) rest

-- nil where there is no entry
abbrev pub values_of : List (String × ℤ) → Option (Map String ℤ)
values_of [] = none
values_of (x ∷ rest) = some (value_map [] (x ∷ rest))

abbrev temperatures_of : Option SystemState → List (String × ℤ)
temperatures_of none = []
temperatures_of (some s) = s.temperatures

unfoldable pub restart_values : ℕ → Map String ℤ → List HostService → Map String ℤ
restart_values since vs [] = vs
restart_values since vs (s ∷ rest) =
    restart_values since
      (if s.watched then put s.name (of_count (restarts_since s since)) vs else vs) rest

abbrev offset_of : Option SystemState → Option ℤ
offset_of none = none
offset_of (some s) = elim s.time_sync [ none ↦ none | some ts ↦ ts.offset_ms ]

module _ (e : Engine) where
  unfoldable pub evaluate_restart_loops : HostState → M HostState
  evaluate_restart_loops st =
      if not (has_thresholds (metric st.thresholds "service_restart"))
      then resolve_all e st "service_restart_loop"
      else do
        r ← services e st
        on_some r.0
            (λ found. do
              t ← now
              evaluate_subjects e r.1 "service_restart" "service_restart_loop"
                  (some (restart_values (t - restart_window) [] found)))
            (pure r.1)

  unfoldable pub evaluate_time_offset : HostState → Option SystemState → M HostState
  evaluate_time_offset st state =
      on_some (metric st.thresholds "time_offset").base
        (λ t.
          on_some (offset_of state) (λ v. apply e st ("time_sync", "offset") (abs v) t) (pure st))
        (reconcile e st "time_sync" (put "offset" no_condition []) false)

  unfoldable pub evaluate_numeric : HostState → Report → M HostState
  evaluate_numeric st r = do
    st₁ ← evaluate_subjects e st "disk_latency" "disk_latency" (values_of r.disk_io)
    st₂ ← evaluate_subjects e st₁ "temperature" "temperature" (values_of (temperatures_of r.state))
    st₃ ← evaluate_restart_loops st₂
    evaluate_time_offset st₃ r.state

  unfoldable pub evaluate_all : HostState → Report → M (Unit {0})
  evaluate_all st r = do
    st₁ ← settle e st ("host_offline", "") (get ("host_offline", "") st.active) none none
    st₂ ← evaluate_docker e st₁ r.containers
    st₃ ← evaluate_metrics e st₂ r.cpu_pct r.ram_pct r.disks
    st₄ ← evaluate_status e st₃ r
    evaluate_numeric st₄ r
    pure tt

  -- `EvaluateReport`
  unfoldable pub evaluate_report : ℕ → ℕ → Report → M (Unit {0})
  evaluate_report host org r = do
    loaded ← load_state e host org
    on_some loaded (λ st. evaluate_all st r) (pure tt)

  -- `EvaluateMetrics`
  unfoldable pub evaluate_metrics_only : ℕ → ℕ → ℤ → ℤ → List DiskUsage → M (Unit {0})
  evaluate_metrics_only host org cpu ram disks = do
    loaded ← load_state e host org
    on_some loaded (λ st. do evaluate_metrics e st cpu ram disks; pure tt) (pure tt)

  -- `EvaluateDocker`
  unfoldable pub evaluate_docker_only : ℕ → ℕ → List DockerContainerReport → M (Unit {0})
  evaluate_docker_only host org [] = pure tt
  evaluate_docker_only host org (c ∷ rest) = do
    loaded ← load_state e host org
    on_some loaded (λ st. do evaluate_docker e st (c ∷ rest); pure tt) (pure tt)

  -- `ResolveOffline`
  unfoldable pub resolve_offline : ℕ → ℕ → M (Unit {0})
  resolve_offline host org = do
    r ← query (get_active_subject host ("host_offline", ""))
    on_ok r (λ a. resolve_and_notify e.dispatcher a org none none) (pure tt)

  -- `RaiseOffline`
  unfoldable pub raise_offline : ℕ → ℕ → M (Unit {0})
  raise_offline host org = do
    r ← query (get_active_subject host ("host_offline", ""))
    on_result r (λ a. pure tt)
        (do
          prepared_change e.dispatcher host org critical Event.opened
              (open_fn e host ("host_offline", "") critical none none)
          pure tt)
        (pure tt)
