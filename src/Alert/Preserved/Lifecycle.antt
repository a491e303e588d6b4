-- ===== src/Alert/Preserved/Lifecycle.antt =====
-- The functions that settle one subject or one type of alerts.
use health_beat.Prelude.{ℕ, Bool, Option, none, some}
use health_beat.Prelude.Int.{ℤ}
use health_beat.Alert.Types.{Level, Alert, AlertKey, ThresholdConfig}
use health_beat.Alert.Table.{
  Event, Statement, Result, create_if_none_active, get_active_subject, list_active_for_host,
  list_pending, update_level, resolve, mark_pending, clear_pending,
}
use health_beat.Alert.World.{World, M, perform, read, query, statement}
use health_beat.Alert.Keeps.{Keeps, Lawful, keeps_rules, Keeps-statement, Keeps-query, Keeps-read}
use health_beat.Alert.Recipients.{Dispatcher}
use health_beat.Alert.Change.{prepared_change, resolve_fn, resolve_and_notify}
use health_beat.Alert.HostState.{HostState, Engine}
use health_beat.Alert.Engine.{
  passed, since_or_mark, sustained, clear_waiting, level_fn, change_level, open_fn, relevel,
  open_alert, resolve_alert, opens_after, settle, raise, apply,
}

-- What the engine does to the tables keeps `P`.
pub record EngineRules (d : Dispatcher) (P : World → Type 0) : Type 0 where
  pub lawful : Lawful P
  pub changes :
      (host org : ℕ) (level : Level) (event : Event) (fn : M (Result (Option Alert)))
      → Keeps P fn
      → Keeps P (prepared_change d host org level event fn)
  pub creates :
      (host : ℕ) (key : AlertKey) (level : Level) (value threshold : Option ℤ)
      → Keeps P (perform (create_if_none_active host key level value threshold))
  pub relevels :
      (id : ℕ) (level : Level) (value threshold : Option ℤ) (reopen : Bool)
      → Keeps P (perform (update_level id level value threshold reopen))
  pub resolves :
      (id : ℕ) (value threshold : Option ℤ) → Keeps P (perform (resolve id value threshold))
  pub marks :
      (host : ℕ) (key : AlertKey) (level : Level) (at : ℕ)
      → Keeps P (perform (mark_pending host key level at))
  pub clears : (host : ℕ) (key : AlertKey) → Keeps P (perform (clear_pending host key))

module _ {P : World → Type 0} (e : Engine) (R : EngineRules e.dispatcher P) where
  open R use {lawful, changes, creates, relevels, resolves, marks, clears}

  pub reads : {A : Type 0} (a : A) → Keeps P (read a)
  reads a = Keeps-read lawful a

  finds : (host : ℕ) (key : AlertKey) → Keeps P (perform (get_active_subject host key))
  unfolding perform get_active_subject
  finds host key = record { at = λ w h. h }

  pub lists : (host : ℕ) → Keeps P (perform (list_active_for_host host))
  unfolding perform list_active_for_host
  lists host = record { at = λ w h. h }

  pub lists_waiting : (host : ℕ) → Keeps P (perform (list_pending host))
  unfolding perform list_pending
  lists_waiting host = record { at = λ w h. h }

  pub stated : {A : Type 0} (s : Statement A) → Keeps P (perform s) → Keeps P (statement s)
  stated s k = Keeps-statement lawful s k

  pub queried : {A : Type 0} (s : Statement A) → Keeps P (perform s) → Keeps P (query s)
  queried s k = Keeps-query lawful s k

  pub found_active : (host : ℕ) (key : AlertKey) → Keeps P (query (get_active_subject host key))
  found_active host key = queried _ (finds host key)

  passed-Keeps : (since d : ℕ) → Keeps P (passed since d)
  unfolding passed
  passed-Keeps since d = search keeps_rules

  since_or_mark-Keeps :
      (st : HostState) (key : AlertKey) (level : Level) (o : Option ℕ)
      → Keeps P (since_or_mark st key level o)
  unfolding since_or_mark
  since_or_mark-Keeps st key level (some since) = search keeps_rules
  since_or_mark-Keeps st key level none = search (keeps_rules, queried, marks)

  pub sustained-Keeps :
      (st : HostState) (key : AlertKey) (level : Level) (d : ℕ) → Keeps P (sustained st key level d)
  unfolding sustained
  sustained-Keeps st key level d = search (keeps_rules, since_or_mark-Keeps, passed-Keeps)

  pub clear_waiting-Keeps : (st : HostState) (key : AlertKey) → Keeps P (clear_waiting st key)
  unfolding clear_waiting
  clear_waiting-Keeps st key = search (keeps_rules, queried, clears)

  level_fn-Keeps :
      (a : Alert) (level : Level) (value threshold : Option ℤ)
      → Keeps P (level_fn e a level value threshold)
  unfolding level_fn
  level_fn-Keeps a level value threshold = search (keeps_rules, stated, relevels)

  pub change_level-Keeps :
      (st : HostState) (a : Alert) (level : Level) (value threshold : Option ℤ)
      → Keeps P (change_level e st a level value threshold)
  unfolding change_level
  change_level-Keeps st a level value threshold =
      search (keeps_rules, changes, level_fn-Keeps) depth 7

  pub open_fn-Keeps :
      (host : ℕ) (key : AlertKey) (level : Level) (value threshold : Option ℤ)
      → Keeps P (open_fn e host key level value threshold)
  unfolding open_fn
  open_fn-Keeps host key level value threshold = search (keeps_rules, stated, creates)

  relevel-Keeps :
      (host : ℕ) (key : AlertKey) (level : Level) (value threshold : Option ℤ)
      → Keeps P (relevel e host key level value threshold)
  unfolding relevel
  relevel-Keeps host key level value threshold =
      search (keeps_rules, queried, found_active, relevels) depth 7

  pub open_alert-Keeps :
      (st : HostState) (key : AlertKey) (level : Level) (value threshold : Option ℤ)
      → Keeps P (open_alert e st key level value threshold)
  unfolding open_alert
  open_alert-Keeps st key level value threshold =
      search (keeps_rules, changes, open_fn-Keeps, relevel-Keeps) depth 7

  resolve_fn-Keeps :
      (a : Alert) (value threshold : Option ℤ) → Keeps P (resolve_fn e.dispatcher a value threshold)
  unfolding resolve_fn
  resolve_fn-Keeps a value threshold = search (keeps_rules, stated, resolves)

  pub resolve_and_notify-Keeps :
      (a : Alert) (org : ℕ) (value threshold : Option ℤ)
      → Keeps P (resolve_and_notify e.dispatcher a org value threshold)
  unfolding resolve_and_notify
  resolve_and_notify-Keeps a org value threshold = search (keeps_rules, changes, resolve_fn-Keeps)

  pub resolve_alert-Keeps :
      (st : HostState) (key : AlertKey) (a : Alert) (value threshold : Option ℤ)
      → Keeps P (resolve_alert e st key a value threshold)
  unfolding resolve_alert
  resolve_alert-Keeps st key a value threshold = search (keeps_rules, resolve_and_notify-Keeps)

  pub opens_after-Keeps :
      (st : HostState) (key : AlertKey) (level : Level) (value threshold : Option ℤ) (b : Bool)
      → Keeps P (opens_after e st key level value threshold b)
  unfolding opens_after
  opens_after-Keeps st key level value threshold b =
      search (keeps_rules, clear_waiting-Keeps, open_alert-Keeps)

  pub settle-Keeps :
      (st : HostState) (key : AlertKey) (o : Option Alert) (value threshold : Option ℤ)
      → Keeps P (settle e st key o value threshold)
  unfolding settle
  settle-Keeps st key none value threshold = search keeps_rules
  settle-Keeps st key (some a) value threshold = resolve_alert-Keeps st key a value threshold

  raise-Keeps :
      (st : HostState) (key : AlertKey) (level : Level) (d : ℕ) (value threshold : Option ℤ)
      (o : Option Alert)
      → Keeps P (raise e st key level d value threshold o)
  unfolding raise
  raise-Keeps st key level d value threshold none =
      search (keeps_rules, sustained-Keeps, opens_after-Keeps)
  raise-Keeps st key level d value threshold (some a) =
      change_level-Keeps st a level value threshold

  pub apply-Keeps :
      (st : HostState) (key : AlertKey) (v : ℤ) (t : ThresholdConfig) → Keeps P (apply e st key v t)
  unfolding apply
  apply-Keeps st key v t = search (keeps_rules, clear_waiting-Keeps, settle-Keeps, raise-Keeps)
