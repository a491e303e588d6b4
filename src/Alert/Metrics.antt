-- ===== src/Alert/Metrics.antt =====
-- alertengine/engine.go: the alerts of the measured values (cpu, ram, disk, docker_restart) and of
-- the mounts that are missing.
use health_beat.Prelude.{
  ℕ, String, Bool, not, ◌&&◌, ◌||◌, Option, none, some, List, [], ◌∷◌, any, length, keys, ◌==◌,
  string_eq, pair_eq, ltb, if◌then◌else◌,
}
use health_beat.Prelude.Int.{ℤ}
use health_beat.Alert.Types.{
  critical, Alert, AlertKey, ThresholdConfig, SubjectThresholds, threshold_for, metric, DiskUsage,
  DockerContainerReport, of_count,
}
use health_beat.Alert.Table.{Event}
use health_beat.Alert.World.{on_ok, on_some, on_cons, M, ◌>>=◌, ◌>>◌, pure, read}
use health_beat.Alert.Change.{prepared_change}
use health_beat.Alert.HostState.{Engine, HostState, active_of}
use health_beat.Alert.Engine.{apply, open_fn}
use health_beat.Alert.Reconcile.{has_thresholds, resolve_all, close_missing}

-- A set of names (Go's map[string]struct{}), each once.
unfoldable pub name_set : List String → List String
name_set [] = []
name_set (s ∷ rest) =
    let found = name_set rest in if any (λ x. x == s) found then found else s ∷ found

abbrev pub is_in : String → List String → Bool
is_in s names = any (λ x. x == s) names

abbrev pub missing_mount_reports : ℕ
missing_mount_reports = 3

-- The mounts whose absence is worth an alert.
unfoldable pub expected_mounts : HostState → Bool → List String → List String
unfolding name_set
expected_mounts st all_mounts selection =
    if not all_mounts
    then name_set selection
    else name_set (keys (metric st.thresholds "disk").per_subject)

-- The threshold by which a reported subject is evaluated; none where it is not selected either.
abbrev pub disk_threshold :
    SubjectThresholds → Bool → List String → DiskUsage → Option ThresholdConfig
disk_threshold thresholds all_mounts selection d =
    if all_mounts || is_in d.mount selection then threshold_for thresholds d.mount else none

abbrev pub reported : List DiskUsage → List String
reported [] = []
reported (d ∷ rest) = d.mount ∷ reported rest

-- Mounts that the last reports do not list at all.
abbrev pub is_lost : List (List String) → String → Bool
is_lost history m = not (any (λ report. is_in m report) history)

module _ (e : Engine) where
  unfoldable pub apply_if : HostState → AlertKey → ℤ → Option ThresholdConfig → M HostState
  apply_if st key v none = pure st
  apply_if st key v (some t) = apply e st key v t

  -- `evaluate`: a metric of the whole host.
  unfoldable pub evaluate : HostState → String → ℤ → M HostState
  evaluate st metric_type value =
      on_some (metric st.thresholds metric_type).base (λ t. apply e st (metric_type, "") value t)
        (resolve_all e st metric_type)

  abbrev add_evaluated : String → Option ThresholdConfig → List String → List String
  add_evaluated m none done = done
  add_evaluated m (some t) done = m ∷ done

  unfoldable pub apply_disks :
      HostState → SubjectThresholds → Bool → List String → List DiskUsage → M HostState
  apply_disks st thresholds all_mounts selection [] = pure st
  apply_disks st thresholds all_mounts selection (d ∷ rest) = do
    st' ←
        apply_if st ("disk", d.mount) d.used_pct (disk_threshold thresholds all_mounts selection d)
    apply_disks st' thresholds all_mounts selection rest

  unfoldable pub evaluated_disks :
      SubjectThresholds → Bool → List String → List DiskUsage → List String
  evaluated_disks thresholds all_mounts selection [] = []
  evaluated_disks thresholds all_mounts selection (d ∷ rest) =
      add_evaluated d.mount (disk_threshold thresholds all_mounts selection d)
        (evaluated_disks thresholds all_mounts selection rest)

  -- `evaluateDisks`
  unfoldable pub evaluate_disks : HostState → List DiskUsage → Bool → List String → M HostState
  evaluate_disks st disks all_mounts selection =
      let thresholds = metric st.thresholds "disk" in
      if not (has_thresholds thresholds) then pure st else do
        st' ← apply_disks st thresholds all_mounts selection disks
        close_missing e st' (active_of st' "disk")
            (λ s. is_in s (evaluated_disks thresholds all_mounts selection disks))

  unfoldable pub open_missing : HostState → List (List String) → List String → M HostState
  open_missing st history [] = pure st
  open_missing st history (m ∷ rest) =
      let more = open_missing st history rest in
      if not (is_lost history m) then more else do
        prepared_change e.dispatcher st.host_id st.org_id critical Event.opened
            (open_fn e st.host_id ("disk_missing", m) critical none none)
        more

  unfoldable pub open_lost : HostState → List String → M HostState
  open_lost st [] = pure st
  open_lost st (m ∷ rest) = do
    r ← read (e.recent_reported_mounts st.host_id missing_mount_reports)
    on_ok r
        (λ history.
          if ltb (length history) missing_mount_reports
          then pure st
          else open_missing st history (m ∷ rest))
        (pure st)

  abbrev wanted_and_gone : List String → List DiskUsage → String → Bool
  wanted_and_gone expected disks s = is_in s expected && not (is_in s (reported disks))

  -- The open disk_missing alerts that stay open, by subject.
  abbrev still_open : List Alert → (String → Bool) → List String
  still_open [] stays = []
  still_open (a ∷ rest) stays =
      let more = still_open rest stays in if stays a.subject then a.subject ∷ more else more

  abbrev lost_candidates : List String → List String → List String → List String
  lost_candidates [] present opened = []
  lost_candidates (m ∷ rest) present opened =
      let more = lost_candidates rest present opened in
      if not (is_in m present) && not (is_in m opened) then m ∷ more else more

  -- `evaluateMissingMounts`
  unfoldable pub evaluate_missing_mounts :
      HostState → List DiskUsage → Bool → List String → M HostState
  evaluate_missing_mounts st disks all_mounts selection =
      let expected = expected_mounts st all_mounts selection in
      let alerts = active_of st "disk_missing" in
      let stays = wanted_and_gone expected disks in
      do
        st' ← close_missing e st alerts stays
        open_lost st' (lost_candidates expected (reported disks) (still_open alerts stays))

  -- `evaluateMetrics`
  unfoldable pub evaluate_metrics : HostState → ℤ → ℤ → List DiskUsage → M HostState
  evaluate_metrics st cpu ram disks = do
    st₁ ← evaluate st "cpu" cpu
    st₂ ← evaluate st₁ "ram" ram
    st₃ ←
        (if not (has_thresholds (metric st₂.thresholds "disk"))
          then resolve_all e st₂ "disk"
          else pure st₂)
    on_cons disks
        (λ d rest. do
          r ← read (e.disk_alert_mounts st₃.host_id)
          on_ok r
              (λ choice. do
                st₄ ← evaluate_disks st₃ (d ∷ rest) choice.0 choice.1
                evaluate_missing_mounts st₄ (d ∷ rest) choice.0 choice.1)
              (pure st₃))
        (pure st₃)

  unfoldable pub apply_containers :
      HostState → SubjectThresholds → List DockerContainerReport → M HostState
  apply_containers st thresholds [] = pure st
  apply_containers st thresholds (c ∷ rest) = do
    st' ←
        apply_if st ("docker_restart", c.name) (of_count c.restart_count)
          (threshold_for thresholds c.name)
    apply_containers st' thresholds rest

  unfoldable pub evaluated_containers : SubjectThresholds → List DockerContainerReport → List String
  evaluated_containers thresholds [] = []
  evaluated_containers thresholds (c ∷ rest) =
      add_evaluated c.name (threshold_for thresholds c.name) (evaluated_containers thresholds rest)

  -- `evaluateDocker`
  unfoldable pub evaluate_docker : HostState → List DockerContainerReport → M HostState
  evaluate_docker st containers =
      let thresholds = metric st.thresholds "docker_restart" in
      if not (has_thresholds thresholds)
      then resolve_all e st "docker_restart"
      else on_cons containers
          (λ c rest. do
            st' ← apply_containers st thresholds (c ∷ rest)
            close_missing e st' (active_of st' "docker_restart")
                (λ s. is_in s (evaluated_containers thresholds (c ∷ rest))))
          (pure st)
