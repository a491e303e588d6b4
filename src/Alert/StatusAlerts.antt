-- ===== src/Alert/StatusAlerts.antt =====
-- alertengine/status.go: the alerts of states rather than values. Data that a report lacks changes
-- nothing.
use health_beat.Prelude.{
  ℕ, ◌+◌, String, Bool, true, false, not, ◌&&◌, Option, none, some, List, [], ◌∷◌, get, put, has,
  Map, ◌==◌, string_eq, pair_eq, leb, ltb, if◌then◌else◌,
}
use health_beat.Alert.Types.{
  Alert, StatusRuleSetting, enabled, rule_of, duration_of, DiskUsage, DockerContainerReport,
  HostService, SystemState, HostInfo, Report,
}
use health_beat.Alert.World.{on_ok, on_some, on_cons, M, ◌>>=◌, pure, now, read}
use health_beat.Alert.HostState.{Engine, HostState}
use health_beat.Alert.Engine.{change_level, open_alert, resolve_alert}
use health_beat.Alert.Reconcile.{
  Condition, Conditions, no_condition, kept, holds, reconcile, resolve_all,
}
use health_beat.Alert.Conditions.{
  is_true, service_conditions, container_conditions, raid_conditions, time_sync_of, synced_of,
  unsynced_condition, source_condition, read_only_map,
}

module _ (e : Engine) where
  -- The services, read once for a report; an empty list is not nil.
  unfoldable pub services : HostState → M (Option (List HostService) × HostState)
  services st = if st.services_loaded then pure (st.service_list, st) else do
    r ← read (e.host_services st.host_id)
    on_ok r
        (λ found.
          pure (some found, record st { service_list = some found; services_loaded = true }))
        (pure (none, record st { services_loaded = true }))

  unfoldable pub evaluate_services : HostState → M HostState
  evaluate_services st =
      let rule = rule_of st.rules "service_failed" in
      if not (enabled rule) then resolve_all e st "service_failed" else do
        r ← services st
        on_some r.0
            (λ found. reconcile e r.1 "service_failed" (service_conditions rule [] found) true)
            (pure r.1)

  unfoldable pub container_rule :
      HostState → String → (DockerContainerReport → Bool) → List DockerContainerReport → M HostState
  container_rule st name is_so containers =
      let rule = rule_of st.rules name in
      if enabled rule
      then reconcile e st name (container_conditions rule is_so [] containers) true
      else pure st

  unfoldable pub close_disabled : HostState → String → String → M HostState
  close_disabled st rule alert_type =
      if enabled (rule_of st.rules rule) then pure st else resolve_all e st alert_type

  -- The rules and the alert types have the same names here.
  unfoldable pub evaluate_container_status : HostState → List DockerContainerReport → M HostState
  evaluate_container_status st containers = do
    st₁ ← close_disabled st "container_unhealthy" "container_unhealthy"
    st₂ ← close_disabled st₁ "container_oom" "container_oom"
    on_cons containers
        (λ c rest. do
          st₃ ← container_rule st₂ "container_unhealthy" (λ c. c.health == "unhealthy") (c ∷ rest)
          container_rule st₃ "container_oom" (λ c. is_true c.oom_killed) (c ∷ rest))
        (pure st₂)

  unfoldable pub oom_quiet : StatusRuleSetting → Option ℕ → M Bool
  oom_quiet rule none = pure true
  oom_quiet rule (some last) = do t ← now; pure (leb (last + duration_of rule.duration_seconds) t)

  unfoldable pub oom_known :
      HostState → StatusRuleSetting → Bool → Option ℕ → Option Alert → M HostState
  oom_known st rule true last (some existing) = change_level e st existing rule.level none none
  oom_known st rule true last none = open_alert e st ("oom_kill", "") rule.level none none
  oom_known st rule false last (some existing) = do
    quiet ← oom_quiet rule last
    (if quiet
        then resolve_alert e st ("oom_kill", "") existing none none
        else change_level e st existing rule.level none none)
  oom_known st rule false last none = pure st

  unfoldable pub oom_state : HostState → StatusRuleSetting → Bool → Option SystemState → M HostState
  oom_state st rule increased none = pure st
  oom_state st rule increased (some s) =
      on_some s.oom_kills
        (λ n. oom_known st rule increased s.oom_last_increase_at (get ("oom_kill", "") st.active))
        (pure st)

  unfoldable pub evaluate_oom_kills : HostState → Report → M HostState
  evaluate_oom_kills st r =
      let rule = rule_of st.rules "oom_kill" in
      if not (enabled rule)
      then resolve_all e st "oom_kill"
      else oom_state st rule r.oom_increased r.state

  -- Read at most once, when the first newly read-only mount is met.
  unfoldable pub previous_read_only : HostState → Option (Map String Bool) → M (Map String Bool)
  previous_read_only st (some previous) = pure previous
  previous_read_only st none = do
    r ← read (e.previous_disks st.host_id)
    on_ok r (λ disks. pure (read_only_map [] disks)) (pure [])

  abbrev was_writable : Option Bool → Bool
  was_writable (some false) = true
  was_writable _ = false

  unfoldable pub mount_condition :
      HostState
      → StatusRuleSetting
      → Option (Map String Bool)
      → DiskUsage
      → Option Bool
      → M (Condition × Option (Map String Bool))
  mount_condition st rule previous d none = pure (kept, previous)
  mount_condition st rule previous d (some false) = pure (no_condition, previous)
  mount_condition st rule previous d (some true) =
      if has ("fs_readonly", d.mount) st.active then pure (holds rule true, previous) else do
        p ← previous_read_only st previous
        pure (if was_writable (get d.mount p) then holds rule true else kept, some p)

  -- The loop of evaluateReadOnly; a later entry of a mount replaces an earlier one.
  unfoldable pub read_only_conditions :
      HostState
      → StatusRuleSetting
      → Option (Map String Bool)
      → List DiskUsage
      → Conditions
      → M Conditions
  read_only_conditions st rule previous [] conds = pure conds
  read_only_conditions st rule previous (d ∷ rest) conds = do
    r ← mount_condition st rule previous d d.read_only
    read_only_conditions st rule r.1 rest (put d.mount r.0 conds)

  unfoldable pub evaluate_read_only : HostState → List DiskUsage → M HostState
  evaluate_read_only st disks =
      let rule = rule_of st.rules "fs_readonly" in
      if not (enabled rule)
      then resolve_all e st "fs_readonly"
      else on_cons disks
          (λ d rest. do
            conds ← read_only_conditions st rule none (d ∷ rest) []
            reconcile e st "fs_readonly" conds true)
          (pure st)

  unfoldable pub raid_state :
      HostState → StatusRuleSetting → StatusRuleSetting → Option SystemState → M HostState
  raid_state st degraded rebuilding none = pure st
  raid_state st degraded rebuilding (some s) =
      on_cons s.raid
        (λ x rest.
          reconcile e st "raid_degraded" (raid_conditions degraded rebuilding [] (x ∷ rest)) true)
        (pure st)

  unfoldable pub evaluate_raid : HostState → Option SystemState → M HostState
  evaluate_raid st state =
      let degraded = rule_of st.rules "raid_degraded" in
      let rebuilding = rule_of st.rules "raid_rebuilding" in
      if not (enabled degraded) && not (enabled rebuilding)
      then resolve_all e st "raid_degraded"
      else raid_state st degraded rebuilding state

  unfoldable pub evaluate_time_sync : HostState → Report → M HostState
  evaluate_time_sync st r =
      let ts = time_sync_of r.state in
      let synced = synced_of ts r.host_info in
      do
        t ← now
        reconcile e st "time_sync"
            (source_condition (rule_of st.rules "time_source") ts synced t
              (unsynced_condition (rule_of st.rules "time_unsynced") synced []))
            false

  -- `evaluateFlag`; a flag that is not known changes nothing.
  unfoldable pub evaluate_flag : HostState → String → String → Option Bool → M HostState
  evaluate_flag st rule_name alert_type flag =
      let rule = rule_of st.rules rule_name in
      if not (enabled rule)
      then resolve_all e st alert_type
      else on_some flag (λ b. reconcile e st alert_type (put "" (holds rule b) []) false) (pure st)

  abbrev reboot_required : Option HostInfo → Option Bool
  reboot_required none = none
  reboot_required (some h) = h.reboot_required

  abbrev security_pending : Option SystemState → Option Bool
  security_pending none = none
  security_pending (some s) = elim s.security_updates [ none ↦ none | some n ↦ some (ltb 0 n) ]

  unfoldable pub evaluate_status : HostState → Report → M HostState
  evaluate_status st r = do
    st₁ ← evaluate_services st
    st₂ ← evaluate_container_status st₁ r.containers
    st₃ ← evaluate_oom_kills st₂ r
    st₄ ← evaluate_read_only st₃ r.disks
    st₅ ← evaluate_raid st₄ r.state
    st₆ ← evaluate_time_sync st₅ r
    st₇ ← evaluate_flag st₆ "reboot_required" "reboot_required" (reboot_required r.host_info)
    evaluate_flag st₇ "security_updates" "security_updates" (security_pending r.state)
