-- ===== src/Alert/Conditions.antt =====
-- alertengine/status.go: what a report says of each subject.
use health_beat.Prelude.{
  ℕ, ◌+◌, ◌*◌, String, Bool, true, false, not, ◌&&◌, ◌||◌, Option, none, some, List, [], ◌∷◌, put,
  Map, ◌==◌, string_eq, pair_eq, leb, ltb, eqb, if◌then◌else◌,
}
use health_beat.Alert.Types.{
  StatusRuleSetting, enabled, second, DiskUsage, DockerContainerReport, HostService, TimeSource,
  TimeSync, SystemState, HostInfo,
}
use health_beat.Alert.Reconcile.{Condition, Conditions, no_condition, holds}

abbrev pub is_true : Option Bool → Bool
is_true (some true) = true
is_true _ = false

-- The watched services; a service that is not watched is left out. Of two entries with one name
-- the later one stands, here and below.
unfoldable pub service_conditions : StatusRuleSetting → Conditions → List HostService → Conditions
service_conditions rule conds [] = conds
service_conditions rule conds (s ∷ rest) =
    let c = holds rule (s.active_state == "failed" || s.active_state == "inactive") in
    service_conditions rule
      (if s.watched then put s.name (record c { since = s.since }) conds else conds) rest

unfoldable pub container_conditions :
    StatusRuleSetting
    → (DockerContainerReport → Bool)
    → Conditions
    → List DockerContainerReport
    → Conditions
container_conditions rule is_so conds [] = conds
container_conditions rule is_so conds (c ∷ rest) =
    container_conditions rule is_so (put c.name (holds rule (is_so c)) conds) rest

abbrev pub raid_degraded_state : String → Bool
raid_degraded_state s = s == "degraded" || s == "inactive" || s == "failed"

abbrev pub raid_rebuilding_state : String → Bool
raid_rebuilding_state s = s == "recovering" || s == "resyncing" || s == "reshaping"

unfoldable pub raid_condition : StatusRuleSetting → StatusRuleSetting → String → Condition
raid_condition degraded rebuilding s =
    if raid_degraded_state s
    then holds degraded true
    else if raid_rebuilding_state s
    then holds rebuilding true
    else no_condition

unfoldable pub raid_conditions :
    StatusRuleSetting → StatusRuleSetting → Conditions → List (String × String) → Conditions
unfolding raid_condition
raid_conditions degraded rebuilding conds [] = conds
raid_conditions degraded rebuilding conds ((name, s) ∷ rest) =
    raid_conditions degraded rebuilding (put name (raid_condition degraded rebuilding s) conds) rest

abbrev pub all_sources : (TimeSource → Bool) → List TimeSource → Bool
all_sources p [] = true
all_sources p (s ∷ rest) = p s && all_sources p rest

abbrev pub unreachable : TimeSource → Bool
unreachable s = s.state == "unreachable" || elim s.reach [ none ↦ false | some n ↦ eqb n 0 ]

abbrev pub some_source : List TimeSource → Bool
some_source [] = false
some_source (s ∷ rest) = true

abbrev pub sync_is_old : Option ℕ → Option ℕ → ℕ → Bool
sync_is_old (some poll) (some last) t = ltb 0 poll && ltb (last + 2 * (poll * second)) t
sync_is_old _ _ t = false

unfoldable pub time_source_problem : TimeSync → ℕ → Bool
time_source_problem ts t =
    (is_true ts.ignored
      || ts.leap == "alarm"
      || elim ts.stratum [ none ↦ false | some n ↦ leb 16 n ])
    || (some_source ts.sources && all_sources unreachable ts.sources)
    || sync_is_old ts.poll_s ts.last_sync t

abbrev pub time_sync_of : Option SystemState → Option TimeSync
time_sync_of none = none
time_sync_of (some s) = s.time_sync

abbrev pub inventory_synced : Option HostInfo → Option Bool
inventory_synced none = none
inventory_synced (some h) = h.time_synced

abbrev pub synced_or : Option Bool → Option Bool → Option Bool
synced_or (some b) other = some b
synced_or none other = other

-- From the time state, or from an older agent's inventory.
abbrev pub synced_of : Option TimeSync → Option HostInfo → Option Bool
synced_of none h = inventory_synced h
synced_of (some ts) h = synced_or ts.synchronized (inventory_synced h)

abbrev pub unsynced_condition : StatusRuleSetting → Option Bool → Conditions → Conditions
unsynced_condition rule synced conds =
    if not (enabled rule)
    then put "unsynced" no_condition conds
    else elim synced [ none ↦ conds | some b ↦ put "unsynced" (holds rule (not b)) conds ]

abbrev pub source_holds : StatusRuleSetting → TimeSync → Bool → ℕ → Condition
source_holds rule ts synced t = holds rule (synced && time_source_problem ts t)

abbrev pub source_condition :
    StatusRuleSetting → Option TimeSync → Option Bool → ℕ → Conditions → Conditions
source_condition rule ts synced t conds =
    if not (enabled rule) then put "source" no_condition conds else elim ts [
      | none ↦ conds
      | some s ↦ elim synced [
        | none ↦ conds
        | some b ↦ put "source" (source_holds rule s b t) conds
      ]
    ]

-- What a report says of its mounts; those it knows nothing of are left out.
unfoldable pub read_only_map : Map String Bool → List DiskUsage → Map String Bool
read_only_map found [] = found
read_only_map found (d ∷ rest) =
    read_only_map (elim d.read_only [ none ↦ found | some b ↦ put d.mount b found ]) rest
