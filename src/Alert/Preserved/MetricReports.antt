-- ===== src/Alert/Preserved/MetricReports.antt =====
-- The functions of engine.go that evaluate metrics, disks and containers.
use health_beat.Prelude.{String, Bool, Option, none, some, List, [], ◌∷◌}
use health_beat.Prelude.Int.{ℤ}
use health_beat.Alert.Types.{
  AlertKey, ThresholdConfig, SubjectThresholds, DiskUsage, DockerContainerReport,
}
use health_beat.Alert.World.{World}
use health_beat.Alert.Keeps.{Keeps, keeps_rules}
use health_beat.Alert.HostState.{HostState, Engine}
use health_beat.Alert.Metrics.{
  apply_if, evaluate, apply_disks, evaluate_disks, open_missing, open_lost, evaluate_missing_mounts,
  evaluate_metrics, apply_containers, evaluate_docker,
}
use health_beat.Alert.Preserved.Lifecycle.{EngineRules, reads, open_fn-Keeps, apply-Keeps}
use health_beat.Alert.Preserved.Subjects.{close_missing-Keeps, resolve_all-Keeps}

module _ {P : World → Type 0} (e : Engine) (R : EngineRules e.dispatcher P) where
  apply_if-Keeps :
      (st : HostState) (key : AlertKey) (v : ℤ) (o : Option ThresholdConfig)
      → Keeps P (apply_if e st key v o)
  unfolding apply_if
  apply_if-Keeps st key v none = search keeps_rules
  apply_if-Keeps st key v (some t) = apply-Keeps e R st key v t

  evaluate-Keeps : (st : HostState) (type : String) (v : ℤ) → Keeps P (evaluate e st type v)
  unfolding evaluate
  evaluate-Keeps st type v = search (keeps_rules, apply-Keeps e R, resolve_all-Keeps e R)

  apply_disks-Keeps :
      (st : HostState) (t : SubjectThresholds) (b : Bool) (selection : List String)
      (disks : List DiskUsage)
      → Keeps P (apply_disks e st t b selection disks)
  unfolding apply_disks
  apply_disks-Keeps st t b selection [] = search keeps_rules
  apply_disks-Keeps st t b selection (d ∷ rest) =
      search
        (keeps_rules, apply_if-Keeps, λ (st' : HostState). apply_disks-Keeps st' t b selection rest)

  evaluate_disks-Keeps :
      (st : HostState) (disks : List DiskUsage) (b : Bool) (selection : List String)
      → Keeps P (evaluate_disks e st disks b selection)
  unfolding evaluate_disks
  evaluate_disks-Keeps st disks b selection =
      search (keeps_rules, apply_disks-Keeps, close_missing-Keeps e R)

  open_missing-Keeps :
      (st : HostState) (history : List (List String)) (names : List String)
      → Keeps P (open_missing e st history names)
  unfolding open_missing
  open_missing-Keeps st history [] = search keeps_rules
  open_missing-Keeps st history (m ∷ rest) = search (
    keeps_rules,
    R.changes,
    open_fn-Keeps e R,
    λ (st' : HostState). open_missing-Keeps st' history rest,
  )

  open_lost-Keeps : (st : HostState) (names : List String) → Keeps P (open_lost e st names)
  unfolding open_lost
  open_lost-Keeps st [] = search keeps_rules
  open_lost-Keeps st (m ∷ rest) = search (keeps_rules, reads e R, open_missing-Keeps)

  evaluate_missing_mounts-Keeps :
      (st : HostState) (disks : List DiskUsage) (b : Bool) (selection : List String)
      → Keeps P (evaluate_missing_mounts e st disks b selection)
  unfolding evaluate_missing_mounts
  evaluate_missing_mounts-Keeps st disks b selection =
      search (keeps_rules, close_missing-Keeps e R, open_lost-Keeps)

  pub evaluate_metrics-Keeps :
      (st : HostState) (cpu ram : ℤ) (disks : List DiskUsage)
      → Keeps P (evaluate_metrics e st cpu ram disks)
  unfolding evaluate_metrics
  evaluate_metrics-Keeps st cpu ram disks =
      search
        (
          keeps_rules,
          reads e R,
          evaluate-Keeps,
          resolve_all-Keeps e R,
          evaluate_disks-Keeps,
          evaluate_missing_mounts-Keeps,
        )
        depth 12

  apply_containers-Keeps :
      (st : HostState) (t : SubjectThresholds) (cs : List DockerContainerReport)
      → Keeps P (apply_containers e st t cs)
  unfolding apply_containers
  apply_containers-Keeps st t [] = search keeps_rules
  apply_containers-Keeps st t (c ∷ rest) =
      search (keeps_rules, apply_if-Keeps, λ (st' : HostState). apply_containers-Keeps st' t rest)

  pub evaluate_docker-Keeps :
      (st : HostState) (cs : List DockerContainerReport) → Keeps P (evaluate_docker e st cs)
  unfolding evaluate_docker
  evaluate_docker-Keeps st cs =
      search (keeps_rules, resolve_all-Keeps e R, apply_containers-Keeps, close_missing-Keeps e R)
