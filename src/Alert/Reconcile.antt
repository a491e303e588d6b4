-- ===== src/Alert/Reconcile.antt =====
-- alertengine/status.go and numeric.go: the alerts of a type against what a report says of their
-- subjects.
use health_beat.Prelude.{
  ℕ, ◌+◌, String, Bool, true, false, not, ◌&&◌, Option, none, some, List, [], ◌∷◌, Map, get, put,
  has, keys, ◌==◌, string_eq, pair_eq, ltb, if◌then◌else◌,
}
use health_beat.Prelude.Int.{ℤ}
use health_beat.Alert.Types.{
  Level, unset, level_eqb, Alert, AlertKey, key_of, ThresholdConfig, SubjectThresholds,
  threshold_for, metric, StatusRuleSetting, enabled, duration_of,
}
use health_beat.Alert.World.{on_some, M, ◌>>=◌, pure, now}
use health_beat.Alert.HostState.{Engine, HostState, active_of, sort_texts}
use health_beat.Alert.Engine.{
  sustained, clear_waiting, change_level, resolve_alert, settle, apply, opens_after,
}

-- The state of a subject in a report.
pub record Condition : Type 0 where
  pub level : Level  -- unset: no condition, the alert closes
  pub duration : ℕ
  pub since : Option ℕ  -- when the data says that it began
  pub keep : Bool  -- nothing is known of it: the alert stays as it is

abbrev pub no_condition : Condition
no_condition = record { level = unset; duration = 0; since = none; keep = false }

abbrev pub kept : Condition
kept = record { level = unset; duration = 0; since = none; keep = true }

abbrev pub Conditions : Type 0
Conditions = Map String Condition

-- `holds`
unfoldable pub holds : StatusRuleSetting → Bool → Condition
unfolding enabled
holds rule is_so =
    if not is_so then no_condition else if not (enabled rule) then no_condition else record {
      level = rule.level;
      duration = duration_of rule.duration_seconds;
      since = none;
      keep = false;
    }

abbrev pub has_thresholds : SubjectThresholds → Bool
has_thresholds t = elim t.base [
  | some b ↦ true
  | none ↦ elim t.per_subject [ [] ↦ false | x ∷ rest ↦ true ]
]

module _ (e : Engine) where
  unfoldable pub due : HostState → AlertKey → Condition → M (Bool × HostState)
  due st key c =
      on_some c.since (λ since. do t ← now; pure (not (ltb t (since + c.duration)), st))
        (sustained st key c.level c.duration)

  unfoldable pub raise_condition : HostState → AlertKey → Condition → Option Alert → M HostState
  raise_condition st key c (some existing) = do
    st' ← clear_waiting st key
    change_level e st' existing c.level none none
  raise_condition st key c none = do s ← due st key c; opens_after e s.1 key c.level none none s.0

  -- One subject of the loop of `reconcile`.
  unfoldable pub reconcile_one : HostState → AlertKey → Condition → M HostState
  reconcile_one st key c =
      if c.keep
      then pure st
      else if level_eqb c.level unset
      then (do st' ← clear_waiting st key; settle e st' key (get key st.active) none none)
      else raise_condition st key c (get key st.active)

  unfoldable pub reconcile_known : HostState → AlertKey → Option Condition → M HostState
  reconcile_known st key none = pure st
  reconcile_known st key (some c) = reconcile_one st key c

  unfoldable pub reconcile_subjects : HostState → String → Conditions → List String → M HostState
  reconcile_subjects st alert_type conds [] = pure st
  reconcile_subjects st alert_type conds (s ∷ rest) = do
    st' ← reconcile_known st (alert_type, s) (get s conds)
    reconcile_subjects st' alert_type conds rest

  -- Closes the alerts whose subject is not in `names`.
  unfoldable pub close_missing : HostState → List Alert → (String → Bool) → M HostState
  close_missing st [] known = pure st
  close_missing st (a ∷ rest) known = do
    st' ← (if known a.subject then pure st else resolve_alert e st (key_of a) a none none)
    close_missing st' rest known

  unfoldable pub clear_missing : HostState → String → List AlertKey → (String → Bool) → M HostState
  clear_missing st alert_type [] known = pure st
  clear_missing st alert_type (k ∷ rest) known = do
    st' ← (if k.0 == alert_type && not (known k.1) then clear_waiting st k else pure st)
    clear_missing st' alert_type rest known

  -- `reconcile`; the subjects in the order of their text.
  unfoldable pub reconcile : HostState → String → Conditions → Bool → M HostState
  reconcile st alert_type conds closes = do
    st₁ ← reconcile_subjects st alert_type conds (sort_texts (keys conds))
    if not closes then pure st₁ else do
      st₂ ← close_missing st₁ (active_of st₁ alert_type) (λ s. has s conds)
      clear_missing st₂ alert_type (keys st₂.pending) (λ s. has s conds)

  unfoldable pub resolve_all : HostState → String → M HostState
  resolve_all st alert_type = reconcile st alert_type [] true

  unfoldable pub apply_known : HostState → AlertKey → ℤ → Option ThresholdConfig → M HostState
  apply_known st key v none = pure st
  apply_known st key v (some t) = apply e st key v t

  -- The loop of evaluateSubjects; a subject without a threshold is left out of `evaluated`.
  unfoldable pub apply_subjects :
      HostState → String → SubjectThresholds → Map String ℤ → M HostState
  apply_subjects st alert_type thresholds [] = pure st
  apply_subjects st alert_type thresholds ((subject, v) ∷ rest) = do
    st' ← apply_known st (alert_type, subject) v (threshold_for thresholds subject)
    apply_subjects st' alert_type thresholds rest

  unfoldable pub evaluated : SubjectThresholds → Map String ℤ → Conditions
  evaluated thresholds [] = []
  evaluated thresholds ((subject, v) ∷ rest) = elim (threshold_for thresholds subject) [
    | none ↦ evaluated thresholds rest
    | some t ↦ put subject kept (evaluated thresholds rest)
  ]

  -- `none` values: there is no data, and only an absent threshold closes the alerts.
  unfoldable pub evaluate_subjects :
      HostState → String → String → Option (Map String ℤ) → M HostState
  evaluate_subjects st threshold_type alert_type values =
      let thresholds = metric st.thresholds threshold_type in
      if not (has_thresholds thresholds)
      then resolve_all st alert_type
      else on_some values
          (λ vs. do
            st' ← apply_subjects st alert_type thresholds vs
            reconcile st' alert_type (evaluated thresholds vs) true)
          (pure st)
