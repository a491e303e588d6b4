-- ===== src/Alert/HostState.antt =====
-- alertengine/engine.go: the stores of the engine, and the state that the evaluation of a report
-- reads once.
use Prim.Native.String.{compare}
use Prim.Native.Nat.{Ordering}
use health_beat.Prelude.{
  ℕ, String, Bool, true, false, Option, none, some, List, [], ◌∷◌, Map, put, remove, keep, values,
  sort, ◌==◌, nat_eq, string_eq, pair_eq, if◌then◌else◌,
}
use health_beat.Prelude.Int.{ℤ, leb_ℤ}
use health_beat.Alert.Types.{
  Level, unset, warning, critical, level_eqb, Alert, AlertKey, key_of, PendingCondition,
  ThresholdConfig, HostThresholds, StatusRuleSet, HostService, DiskUsage,
}
use health_beat.Alert.Table.{list_active_for_host, list_pending}
use health_beat.Alert.World.{on_ok, M, ◌>>=◌, pure, read, query}
use health_beat.Alert.Recipients.{Dispatcher}

pub record HostState : Type 0 where
  pub host_id : ℕ
  pub org_id : ℕ
  pub thresholds : HostThresholds
  pub rules : StatusRuleSet
  pub active : Map AlertKey Alert
  pub pending : Map AlertKey ℕ  -- since when
  pub service_list : Option (List HostService)
  pub services_loaded : Bool

-- The stores of the engine that it only reads (alertengine/stores.go), with the dispatcher's.
pub record Engine : Type 0 where
  pub dispatcher : Dispatcher
  pub resolve_host : ℕ → ℕ → HostThresholds
  pub resolve_status_rules : ℕ → ℕ → StatusRuleSet
  pub disk_alert_mounts : ℕ → Bool × List String
  pub host_services : ℕ → List HostService
  pub recent_reported_mounts : ℕ → ℕ → List (List String)
  pub previous_disks : ℕ → List DiskUsage

unfoldable pub active_map : List Alert → Map AlertKey Alert
active_map [] = []
active_map (a ∷ rest) = put (key_of a) a (active_map rest)

unfoldable pub pending_map : List PendingCondition → Map AlertKey ℕ
pending_map [] = []
pending_map (p ∷ rest) = put p.key p.since (pending_map rest)

-- `take`: the alert, out of the state.
unfoldable pub without : HostState → AlertKey → HostState
without st key = record st { active = remove key st.active }

unfoldable pub with_active : HostState → AlertKey → Alert → HostState
with_active st key a = record st { active = put key a st.active }

abbrev text_leb : String → String → Bool
text_leb s t = elim (compare s t) [ Ordering.gt ↦ false | _ ↦ true ]

abbrev pub subject_leb : Alert → Alert → Bool
subject_leb a b = text_leb a.subject b.subject

abbrev pub sort_texts : List String → List String
sort_texts = sort text_leb

-- The active alerts of a type, by subject.
unfoldable pub active_of : HostState → String → List Alert
active_of st alert_type =
    sort subject_leb (keep (λ a. a.alert_type == alert_type) (values st.active))

-- The level that a value reaches; `unset` below the warning level.
unfoldable pub level_of : ThresholdConfig → ℤ → Level
level_of t value =
    if leb_ℤ t.critical_level value
    then critical
    else if leb_ℤ t.warning_level value
    then warning
    else unset

abbrev pub trigger_of : ThresholdConfig → Level → ℤ
trigger_of t level = if level_eqb level critical then t.critical_level else t.warning_level

module _ (e : Engine) where
  -- ListActiveForHost and ListPending after the reads of the thresholds and rules.
  unfoldable pub load_state : ℕ → ℕ → M (Option HostState)
  load_state host org = do
    t ← read (e.resolve_host host org)
    on_ok t
        (λ thresholds. do
          a ← query (list_active_for_host host)
          on_ok a
              (λ active. do
                r ← read (e.resolve_status_rules host org)
                on_ok r
                    (λ rules. do
                      p ← query (list_pending host)
                      on_ok p
                          (λ pending. pure (
                            some (record {
                              host_id = host;
                              org_id = org;
                              thresholds = thresholds;
                              rules = rules;
                              active = active_map active;
                              pending = pending_map pending;
                              service_list = none;
                              services_loaded = false;
                            })))
                          (pure none))
                    (pure none))
              (pure none))
        (pure none)
