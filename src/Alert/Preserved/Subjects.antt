-- ===== src/Alert/Preserved/Subjects.antt =====
-- The functions that settle the subjects of one type of alerts.
use health_beat.Prelude.{ℕ, String, Bool, Option, none, some, List, [], ◌∷◌, Map}
use health_beat.Prelude.Int.{ℤ}
use health_beat.Alert.Types.{Alert, AlertKey, ThresholdConfig, SubjectThresholds}
use health_beat.Alert.World.{World}
use health_beat.Alert.Keeps.{Keeps, keeps_rules}
use health_beat.Alert.HostState.{HostState, Engine, load_state}
use health_beat.Alert.Reconcile.{
  Condition, Conditions, due, raise_condition, reconcile_one, reconcile_known, reconcile_subjects,
  close_missing, clear_missing, reconcile, resolve_all, apply_known, apply_subjects,
  evaluate_subjects,
}
use health_beat.Alert.Preserved.Lifecycle.{
  EngineRules, reads, lists, lists_waiting, queried, sustained-Keeps, clear_waiting-Keeps,
  change_level-Keeps, resolve_alert-Keeps, opens_after-Keeps, settle-Keeps, apply-Keeps,
}

module _ {P : World → Type 0} (e : Engine) (R : EngineRules e.dispatcher P) where
  due-Keeps : (st : HostState) (key : AlertKey) (c : Condition) → Keeps P (due e st key c)
  unfolding due
  due-Keeps st key c = search (keeps_rules, sustained-Keeps e R)

  raise_condition-Keeps :
      (st : HostState) (key : AlertKey) (c : Condition) (o : Option Alert)
      → Keeps P (raise_condition e st key c o)
  unfolding raise_condition
  raise_condition-Keeps st key c none = search (keeps_rules, due-Keeps, opens_after-Keeps e R)
  raise_condition-Keeps st key c (some a) =
      search (keeps_rules, clear_waiting-Keeps e R, change_level-Keeps e R)

  reconcile_one-Keeps :
      (st : HostState) (key : AlertKey) (c : Condition) → Keeps P (reconcile_one e st key c)
  unfolding reconcile_one
  reconcile_one-Keeps st key c =
      search (keeps_rules, clear_waiting-Keeps e R, settle-Keeps e R, raise_condition-Keeps)

  reconcile_known-Keeps :
      (st : HostState) (key : AlertKey) (o : Option Condition)
      → Keeps P (reconcile_known e st key o)
  unfolding reconcile_known
  reconcile_known-Keeps st key none = search keeps_rules
  reconcile_known-Keeps st key (some c) = reconcile_one-Keeps st key c

  reconcile_subjects-Keeps :
      (st : HostState) (type : String) (conds : Conditions) (names : List String)
      → Keeps P (reconcile_subjects e st type conds names)
  unfolding reconcile_subjects
  reconcile_subjects-Keeps st type conds [] = search keeps_rules
  reconcile_subjects-Keeps st type conds (s ∷ rest) = search (
    keeps_rules,
    reconcile_known-Keeps,
    λ (st' : HostState). reconcile_subjects-Keeps st' type conds rest,
  )

  pub close_missing-Keeps :
      (st : HostState) (alerts : List Alert) (known : String → Bool)
      → Keeps P (close_missing e st alerts known)
  unfolding close_missing
  close_missing-Keeps st [] known = search keeps_rules
  close_missing-Keeps st (a ∷ rest) known = search (
    keeps_rules,
    resolve_alert-Keeps e R,
    λ (st' : HostState). close_missing-Keeps st' rest known,
  )

  clear_missing-Keeps :
      (st : HostState) (type : String) (names : List AlertKey) (known : String → Bool)
      → Keeps P (clear_missing e st type names known)
  unfolding clear_missing
  clear_missing-Keeps st type [] known = search keeps_rules
  clear_missing-Keeps st type (k ∷ rest) known = search (
    keeps_rules,
    clear_waiting-Keeps e R,
    λ (st' : HostState). clear_missing-Keeps st' type rest known,
  )

  pub reconcile-Keeps :
      (st : HostState) (type : String) (conds : Conditions) (closes : Bool)
      → Keeps P (reconcile e st type conds closes)
  unfolding reconcile
  reconcile-Keeps st type conds closes =
      search (keeps_rules, reconcile_subjects-Keeps, close_missing-Keeps, clear_missing-Keeps)

  pub resolve_all-Keeps : (st : HostState) (type : String) → Keeps P (resolve_all e st type)
  unfolding resolve_all
  resolve_all-Keeps st type = search reconcile-Keeps

  apply_known-Keeps :
      (st : HostState) (key : AlertKey) (v : ℤ) (o : Option ThresholdConfig)
      → Keeps P (apply_known e st key v o)
  unfolding apply_known
  apply_known-Keeps st key v none = search keeps_rules
  apply_known-Keeps st key v (some t) = apply-Keeps e R st key v t

  apply_subjects-Keeps :
      (st : HostState) (type : String) (t : SubjectThresholds) (vs : Map String ℤ)
      → Keeps P (apply_subjects e st type t vs)
  unfolding apply_subjects
  apply_subjects-Keeps st type t [] = search keeps_rules
  apply_subjects-Keeps st type t ((s, v) ∷ rest) =
      search
        (keeps_rules, apply_known-Keeps, λ (st' : HostState). apply_subjects-Keeps st' type t rest)

  pub evaluate_subjects-Keeps :
      (st : HostState) (threshold_type type : String) (vs : Option (Map String ℤ))
      → Keeps P (evaluate_subjects e st threshold_type type vs)
  unfolding evaluate_subjects
  evaluate_subjects-Keeps st threshold_type type vs =
      search (keeps_rules, resolve_all-Keeps, apply_subjects-Keeps, reconcile-Keeps)

  pub load_state-Keeps : (host org : ℕ) → Keeps P (load_state e host org)
  unfolding load_state
  load_state-Keeps host org =
      search (keeps_rules, reads e R, queried e R, lists e R, lists_waiting e R) depth 12
