-- ===== src/Alert/Types.antt =====
-- The data of the alert engine: levels, statuses and alerts (server/internal/model/model.go and
-- alert_rules.go), pending conditions and thresholds (server/internal/store).
-- Identifiers (UUIDs) and times are numbers; a `float64` reading or level is a ℤ, in thousandths,
-- since the engine only compares them; a nil pointer is `none`.
use health_beat.Prelude.{
  ℕ, String, Bool, false, true, Option, none, some, List, Map, get, string_eq, not, ◌&&◌, [], ◌∷◌,
  ◌*◌, ◌/◌, ◌-◌, ◌+◌, ltb, if◌then◌else◌,
}
use health_beat.Prelude.Int.{ℤ, pos, negsuc, ltb_ℤ}

-- The strings that a `Level` field holds: an alert's level, "off" in a status rule, and "".
pub data Level : Type 0 where
  unset off info warning critical : Level

abbrev pub level_eqb : Level → Level → Bool
level_eqb unset unset = true
level_eqb off off = true
level_eqb info info = true
level_eqb warning warning = true
level_eqb critical critical = true
level_eqb _ _ = false

unfoldable pub level_rank : Level → ℤ
level_rank info = pos 0
level_rank warning = pos 1
level_rank critical = pos 2
level_rank _ = negsuc 0

unfoldable pub valid_alert_level : Level → Bool
valid_alert_level info = true
valid_alert_level warning = true
valid_alert_level critical = true
valid_alert_level _ = false

pub data Status : Type 0 where
  opened acknowledged resolved : Status

pub record Alert : Type 0 where
  pub id : ℕ
  pub host_id : ℕ
  pub alert_type : String
  pub subject : String
  pub level : Level
  pub status : Status
  pub value : Option ℤ
  pub threshold : Option ℤ
  pub created_at : ℕ
  pub acknowledged_at : Option ℕ
  pub acknowledged_by : Option ℕ
  pub resolved_at : Option ℕ
  pub notify_pending : Bool

-- A count as a reading.
abbrev pub of_count : ℕ → ℤ
of_count n = pos (n * 1000)

-- Open or acknowledged.
abbrev pub status_active : Status → Bool
status_active resolved = false
status_active _ = true

abbrev pub is_active : Alert → Bool
is_active a = status_active a.status

abbrev pub is_acknowledged : Status → Bool
is_acknowledged acknowledged = true
is_acknowledged _ = false

-- What an alert is about on its host; `subject` is "" where it is about the whole host.
abbrev pub AlertKey : Type 0
AlertKey = String × String

abbrev pub key_of : Alert → AlertKey
key_of a = (a.alert_type, a.subject)

-- A condition whose duration has not passed yet (a row of alert_pending).
pub record PendingCondition : Type 0 where
  pub host : ℕ
  pub key : AlertKey
  pub level : Level
  pub since : ℕ

pub record ThresholdConfig : Type 0 where
  pub metric_type : String
  pub subject : String
  pub warning_level : ℤ
  pub critical_level : ℤ
  pub duration_seconds : Option ℕ

-- The thresholds that hold for one metric of a host.
pub record SubjectThresholds : Type 0 where
  pub base : Option ThresholdConfig
  pub per_subject : Map String ThresholdConfig

abbrev or_base : Option ThresholdConfig → Option ThresholdConfig → Option ThresholdConfig
or_base (some t) base = some t
or_base none base = base

-- `For`
unfoldable pub threshold_for : SubjectThresholds → String → Option ThresholdConfig
threshold_for d subject = or_base (get subject d.per_subject) d.base

abbrev pub HostThresholds : Type 0
HostThresholds = Map String SubjectThresholds

abbrev or_empty : Option SubjectThresholds → SubjectThresholds
or_empty (some t) = t
or_empty none = record { base = none; per_subject = [] }

-- `Metric`
unfoldable pub metric : HostThresholds → String → SubjectThresholds
metric h metric_type = or_empty (get metric_type h)

-- Reopens an acknowledged alert only when the level rises.
unfoldable pub reopens_on_level_change : Alert → Level → Bool
unfolding level_rank
reopens_on_level_change a new_level =
    is_acknowledged a.status && ltb_ℤ (level_rank a.level) (level_rank new_level)

-- A status rule of a scope (model/alert_rules.go); `level` is off, info, warning or critical.
pub record StatusRuleSetting : Type 0 where
  pub level : Level
  pub duration_seconds : Option ℕ

-- `Enabled`
unfoldable pub enabled : StatusRuleSetting → Bool
enabled s = not (level_eqb s.level unset) && not (level_eqb s.level off)

abbrev pub StatusRuleSet : Type 0
StatusRuleSet = Map String StatusRuleSetting

abbrev or_off : Option StatusRuleSetting → StatusRuleSetting
or_off (some s) = s
or_off none = record { level = off; duration_seconds = none }

-- `Rule`: a rule that is not defined is off.
unfoldable pub rule_of : StatusRuleSet → String → StatusRuleSetting
rule_of rules rule = or_off (get rule rules)

-- time.Second; times and durations are in nanoseconds.
abbrev pub second : ℕ
second = 1_000_000_000

-- `durationOf`: none is at once.
unfoldable pub duration_of : Option ℕ → ℕ
duration_of none = 0
duration_of (some seconds) = seconds * second

-- A container of a report.
pub record DockerContainerReport : Type 0 where
  pub name : String
  pub restart_count : ℕ
  pub health : String
  pub oom_killed : Option Bool

-- A mount of a report.
pub record DiskUsage : Type 0 where
  pub mount : String
  pub used_pct : ℤ
  pub read_only : Option Bool

-- A service of a host with the history of its restart counter: (unix seconds, before, after).
pub record HostService : Type 0 where
  pub name : String
  pub active_state : String
  pub since : Option ℕ
  pub watched : Bool
  pub restart_history : List (ℕ × ℕ × ℕ)

-- The rises of the counter after `t`.
unfoldable pub rises_since : ℕ → List (ℕ × ℕ × ℕ) → ℕ
rises_since t [] = 0
rises_since t ((at, before, after) ∷ rest) =
    (if ltb t at && ltb before after then after - before else 0) + rises_since t rest

-- `RestartsSince`; h[0] > t.Unix().
unfoldable pub restarts_since : HostService → ℕ → ℕ
unfolding rises_since
restarts_since s t = rises_since (t / second) s.restart_history

pub record TimeSource : Type 0 where
  pub state : String
  pub reach : Option ℕ

-- model.TimeSync, the fields that the engine reads; `last_sync` is the time that `LastSync` parses
-- to (none: it does not).
pub record TimeSync : Type 0 where
  pub synchronized : Option Bool
  pub leap : String
  pub stratum : Option ℕ
  pub offset_ms : Option ℤ
  pub poll_s : Option ℕ
  pub last_sync : Option ℕ
  pub ignored : Option Bool
  pub sources : List TimeSource

-- model.SystemState, the fields that the engine reads. `raid` and `temperatures` are by name.
pub record SystemState : Type 0 where
  pub oom_kills : Option ℕ
  pub oom_last_increase_at : Option ℕ
  pub temperatures : List (String × ℤ)
  pub raid : List (String × String)
  pub security_updates : Option ℕ
  pub time_sync : Option TimeSync

pub record HostInfo : Type 0 where
  pub time_synced : Option Bool
  pub reboot_required : Option Bool

-- The part of an agent's report that the engine evaluates.
pub record Report : Type 0 where
  pub cpu_pct : ℤ
  pub ram_pct : ℤ
  pub disks : List DiskUsage
  pub containers : List DockerContainerReport
  pub state : Option SystemState
  pub oom_increased : Bool
  pub host_info : Option HostInfo
  pub disk_io : List (String × ℤ)  -- AwaitMs by name
