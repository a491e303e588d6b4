-- ===== src/Alert/Preserved/StatusReports.antt =====
-- The functions of status.go.
use health_beat.Prelude.{String, ℕ, Bool, true, false, Option, none, some, List, [], ◌∷◌, Map}
use health_beat.Alert.Types.{
  Alert, StatusRuleSetting, DiskUsage, DockerContainerReport, SystemState, Report,
}
use health_beat.Alert.World.{World}
use health_beat.Alert.Keeps.{Keeps, keeps_rules}
use health_beat.Alert.HostState.{HostState, Engine}
use health_beat.Alert.Reconcile.{Conditions}
use health_beat.Alert.StatusAlerts.{
  services, evaluate_services, container_rule, close_disabled, evaluate_container_status, oom_quiet,
  oom_known, oom_state, evaluate_oom_kills, previous_read_only, mount_condition,
  read_only_conditions, evaluate_read_only, raid_state, evaluate_raid, evaluate_time_sync,
  evaluate_flag, evaluate_status,
}
use health_beat.Alert.Preserved.Lifecycle.{
  EngineRules, reads, change_level-Keeps, open_alert-Keeps, resolve_alert-Keeps,
}
use health_beat.Alert.Preserved.Subjects.{reconcile-Keeps, resolve_all-Keeps}

module _ {P : World → Type 0} (e : Engine) (R : EngineRules e.dispatcher P) where
  pub services-Keeps : (st : HostState) → Keeps P (services e st)
  unfolding services
  services-Keeps st = search (keeps_rules, reads e R)

  evaluate_services-Keeps : (st : HostState) → Keeps P (evaluate_services e st)
  unfolding evaluate_services
  evaluate_services-Keeps st =
      search (keeps_rules, services-Keeps, resolve_all-Keeps e R, reconcile-Keeps e R)

  container_rule-Keeps :
      (st : HostState) (name : String) (is_so : DockerContainerReport → Bool)
      (cs : List DockerContainerReport)
      → Keeps P (container_rule e st name is_so cs)
  unfolding container_rule
  container_rule-Keeps st name is_so cs = search (keeps_rules, reconcile-Keeps e R)

  close_disabled-Keeps :
      (st : HostState) (rule type : String) → Keeps P (close_disabled e st rule type)
  unfolding close_disabled
  close_disabled-Keeps st rule type = search (keeps_rules, resolve_all-Keeps e R)

  evaluate_container_status-Keeps :
      (st : HostState) (cs : List DockerContainerReport)
      → Keeps P (evaluate_container_status e st cs)
  unfolding evaluate_container_status
  evaluate_container_status-Keeps st cs =
      search (keeps_rules, close_disabled-Keeps, container_rule-Keeps) depth 7

  oom_quiet-Keeps : (rule : StatusRuleSetting) (last : Option ℕ) → Keeps P (oom_quiet e rule last)
  unfolding oom_quiet
  oom_quiet-Keeps rule none = search keeps_rules
  oom_quiet-Keeps rule (some last) = search keeps_rules

  oom_known-Keeps :
      (st : HostState) (rule : StatusRuleSetting) (b : Bool) (last : Option ℕ) (o : Option Alert)
      → Keeps P (oom_known e st rule b last o)
  unfolding oom_known
  oom_known-Keeps st rule true last (some a) = change_level-Keeps e R st a _ _ _
  oom_known-Keeps st rule true last none = open_alert-Keeps e R st _ _ _ _
  oom_known-Keeps st rule false last (some a) =
      search (keeps_rules, oom_quiet-Keeps, resolve_alert-Keeps e R, change_level-Keeps e R)
  oom_known-Keeps st rule false last none = search keeps_rules

  oom_state-Keeps :
      (st : HostState) (rule : StatusRuleSetting) (b : Bool) (s : Option SystemState)
      → Keeps P (oom_state e st rule b s)
  unfolding oom_state
  oom_state-Keeps st rule b none = search keeps_rules
  oom_state-Keeps st rule b (some s) = search (keeps_rules, oom_known-Keeps)

  evaluate_oom_kills-Keeps : (st : HostState) (r : Report) → Keeps P (evaluate_oom_kills e st r)
  unfolding evaluate_oom_kills
  evaluate_oom_kills-Keeps st r = search (keeps_rules, resolve_all-Keeps e R, oom_state-Keeps)

  previous_read_only-Keeps :
      (st : HostState) (o : Option (Map String Bool)) → Keeps P (previous_read_only e st o)
  unfolding previous_read_only
  previous_read_only-Keeps st (some m) = search keeps_rules
  previous_read_only-Keeps st none = search (keeps_rules, reads e R)

  mount_condition-Keeps :
      (st : HostState) (rule : StatusRuleSetting) (previous : Option (Map String Bool))
      (d : DiskUsage) (o : Option Bool)
      → Keeps P (mount_condition e st rule previous d o)
  unfolding mount_condition
  mount_condition-Keeps st rule previous d none = search keeps_rules
  mount_condition-Keeps st rule previous d (some false) = search keeps_rules
  mount_condition-Keeps st rule previous d (some true) =
      search (keeps_rules, previous_read_only-Keeps)

  read_only_conditions-Keeps :
      (st : HostState) (rule : StatusRuleSetting) (previous : Option (Map String Bool))
      (disks : List DiskUsage) (conds : Conditions)
      → Keeps P (read_only_conditions e st rule previous disks conds)
  unfolding read_only_conditions
  read_only_conditions-Keeps st rule previous [] conds = search keeps_rules
  read_only_conditions-Keeps st rule previous (d ∷ rest) conds = search (
    keeps_rules,
    mount_condition-Keeps,
    λ (p : Option (Map String Bool)) (cs : Conditions).
        read_only_conditions-Keeps st rule p rest cs,
  )

  evaluate_read_only-Keeps :
      (st : HostState) (disks : List DiskUsage) → Keeps P (evaluate_read_only e st disks)
  unfolding evaluate_read_only
  evaluate_read_only-Keeps st disks =
      search (keeps_rules, resolve_all-Keeps e R, read_only_conditions-Keeps, reconcile-Keeps e R)

  raid_state-Keeps :
      (st : HostState) (degraded rebuilding : StatusRuleSetting) (s : Option SystemState)
      → Keeps P (raid_state e st degraded rebuilding s)
  unfolding raid_state
  raid_state-Keeps st degraded rebuilding none = search keeps_rules
  raid_state-Keeps st degraded rebuilding (some s) = search (keeps_rules, reconcile-Keeps e R)

  evaluate_raid-Keeps : (st : HostState) (s : Option SystemState) → Keeps P (evaluate_raid e st s)
  unfolding evaluate_raid
  evaluate_raid-Keeps st s = search (keeps_rules, resolve_all-Keeps e R, raid_state-Keeps)

  evaluate_time_sync-Keeps : (st : HostState) (r : Report) → Keeps P (evaluate_time_sync e st r)
  unfolding evaluate_time_sync
  evaluate_time_sync-Keeps st r = search (keeps_rules, reconcile-Keeps e R)

  evaluate_flag-Keeps :
      (st : HostState) (rule type : String) (flag : Option Bool)
      → Keeps P (evaluate_flag e st rule type flag)
  unfolding evaluate_flag
  evaluate_flag-Keeps st rule type flag =
      search (keeps_rules, resolve_all-Keeps e R, reconcile-Keeps e R)

  pub evaluate_status-Keeps : (st : HostState) (r : Report) → Keeps P (evaluate_status e st r)
  unfolding evaluate_status
  evaluate_status-Keeps st r =
      search
        (
          keeps_rules, evaluate_services-Keeps, evaluate_container_status-Keeps,
          evaluate_oom_kills-Keeps, evaluate_read_only-Keeps, evaluate_raid-Keeps,
          evaluate_time_sync-Keeps, evaluate_flag-Keeps,
        )
        depth 12
