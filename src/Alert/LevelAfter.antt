-- ===== src/Alert/LevelAfter.antt =====
-- engine.go (`apply`, `open`, `changeLevel`, `resolve`) where no call of the database fails and no
-- other session commits: the level that the active alert of a key has afterwards.
mod Committed
mod Writes
mod Steps
use mathlib.Core.Option
use health_beat.Prelude.{
  ℕ, ◌≤◌, Bool, true, ◌≡◌, refl, sym, ap, ◌∙◌, subst, Option, none, some, List, [], ◌∷◌, get, has,
  remove, All, nat_eq, string_eq, pair_eq, count, if◌then◌else◌, arith,
}
use health_beat.Prelude.Int.{ℤ}
use health_beat.Alert.Types.{
  Level, unset, off, info, warning, critical, level_eqb, Alert, AlertKey, ThresholdConfig,
  duration_of,
}
use health_beat.Alert.Table.{
  Db, Result, ok, not_found, failed, Event, OutboxMessage, about, find_active, update_level,
  resolve, create_if_none_active, set_notify_pending, clear_pending, enqueue, active_id,
  set_resolved, update_returning, insert_if, new_alert,
}
use health_beat.Alert.World.{World, M, ◌>>=◌, pure, perform, query, on_ok, on_some, on_result, wake}
use health_beat.Alert.Keeps.{Keeps, Lawful, keeps_rules}
use health_beat.Alert.Recipients.{Recipient, Prepared, Dispatcher}
use health_beat.Alert.Change.{
  Change, announce, after_fn, wake_worker, change, prepared_change, resolve_fn, resolve_and_notify,
}
use health_beat.Alert.HostState.{HostState, Engine, level_of, trigger_of, with_active, without}
use health_beat.Alert.Engine.{
  clear_waiting, level_fn, change_level, open_fn, open_alert, resolve_alert, opens_after, settle,
  raise, sustained, apply,
}
use health_beat.Alert.Atomic.{is_ok}
use health_beat.Alert.Announced.{announce-AllOrNone}
use health_beat.Alert.Calm.{
  Calm, Runs, Calm-Lawful, Runs-Keeps, Runs-pure, Runs-from, Runs-bind, Runs-if_true,
  Runs-statement, Runs-query, Runs-in_tx,
}
use health_beat.Alert.Lookup.{
  level_in, set_notify_pending-level_in, update_level-level_in, resolve-level_in, create-level_in,
  active_id-found,
}
use health_beat.Alert.Preserved.Dispatch.{announce-Keeps, enqueue_all-Keeps, prepare-Keeps}
use health_beat.Alert.LevelAfter.Committed.{Shows, LevelIs}
use health_beat.Alert.LevelAfter.Steps.{clear_waiting-level, settle-level, raise-level}

abbrev pub reached : Level → Option Level
reached unset = none
reached l = some l

module _ (e : Engine) (st : HostState) (key : AlertKey) where
  settled-Runs :
      (o : Option Alert) (v t : Option ℤ)
      → Runs
          (Shows st.host_id key o)
          (λ st' db. LevelIs st.host_id key none db)
          (clear_waiting st key >>= λ st'. settle e st' key o v t)
  settled-Runs o v t =
      Runs-bind (Shows st.host_id key o)
        (λ s db. Shows st.host_id key o db × (s.host_id ≡ st.host_id))
        (λ st' db. LevelIs st.host_id key none db) (clear_waiting st key) _
        (clear_waiting-level st.host_id key e o st)
        (λ s.
          Runs-from _ (Shows st.host_id key o) _ _ (λ db h. h.0)
            (settle-level st.host_id key e o s v t))

  raised-Runs :
      (l : Level) (v u : Option ℤ) (d : ℕ)
      → d ≡ 0
      → Runs
          (Shows st.host_id key (get key st.active))
          (λ st' db. LevelIs st.host_id key (some l) db)
          (raise e st key l d v u (get key st.active))
  raised-Runs l v u d at_once =
      subst
        (λ d.
          Runs (Shows st.host_id key (get key st.active))
            (λ st' db. LevelIs st.host_id key (some l) db)
            (raise e st key l d v u (get key st.active)))
        (sym at_once) (raise-level st.host_id key e (get key st.active) st l v u refl)

  reached-Runs :
      (v : ℤ) (t : ThresholdConfig) (l : Level)
      → duration_of t.duration_seconds ≡ 0
      → Runs
          (Shows st.host_id key (get key st.active))
          (λ st' db. LevelIs st.host_id key (reached l) db)
          (if level_eqb l unset
            then (clear_waiting st key >>= λ st'.
                settle e st' key (get key st.active) (some v) (some t.warning_level))
            else raise e st key l
                (duration_of t.duration_seconds)
                (some v)
                (some (trigger_of t l))
                (get key st.active))
  reached-Runs v t unset at_once = settled-Runs _ (some v) _
  reached-Runs v t off at_once = raised-Runs off _ _ _ at_once
  reached-Runs v t info at_once = raised-Runs info _ _ _ at_once
  reached-Runs v t warning at_once = raised-Runs warning _ _ _ at_once
  reached-Runs v t critical at_once = raised-Runs critical _ _ _ at_once

  apply-Runs :
      (v : ℤ) (t : ThresholdConfig)
      → duration_of t.duration_seconds ≡ 0
      → Runs
          (Shows st.host_id key (get key st.active))
          (λ st' db. LevelIs st.host_id key (reached (level_of t v)) db)
          (apply e st key v t)
  unfolding apply
  apply-Runs v t at_once = reached-Runs v t (level_of t v) at_once

-- Where no call of the database fails and no other session commits in between, `apply` brings the
-- active alert of its key to the level that the value reaches: there is none where the value is
-- below both limits, and otherwise it is there with that level, whether it had to be opened,
-- changed or left. This holds if the state that was read of the host agrees with the tables on the
-- key, at most one alert of the key is active, and the threshold has no duration.
pub apply-level :
    (e : Engine) (st : HostState) (key : AlertKey) (v : ℤ) (t : ThresholdConfig) (w : World)
    → w.faults ≡ []
    → w.turns ≡ []
    → find_active st.host_id key w.db.alerts ≡ get key st.active
    → count (about st.host_id key) w.db.alerts ≤ 1
    → duration_of t.duration_seconds ≡ 0
    → level_in st.host_id key (apply e st key v t w).1.db.alerts ≡ reached (level_of t v)
apply-level e st key v t w works alone agrees one at_once =
    ((apply-Runs e st key v t at_once).at w ((agrees, one), works, alone)).0
