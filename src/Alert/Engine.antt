-- ===== src/Alert/Engine.antt =====
-- alertengine/engine.go: the life of one alert: waiting, opening, changing its level, resolving.
use health_beat.Prelude.{
  ℕ, ◌+◌, Bool, true, false, Option, none, some, get, put, remove, has, nat_eq, string_eq, pair_eq,
  leb, eqb, if◌then◌else◌,
}
use health_beat.Prelude.Int.{ℤ}
use health_beat.Alert.Types.{
  Level, unset, level_eqb, Alert, AlertKey, key_of, ThresholdConfig, reopens_on_level_change,
  duration_of,
}
use health_beat.Alert.Table.{
  Result, ok, failed, Event, create_if_none_active, get_active_subject, mark_pending, clear_pending,
  update_level, set_level,
}
use health_beat.Alert.World.{on_ok, on_some, M, ◌>>=◌, ◌>>◌, pure, now, query, statement}
use health_beat.Alert.Change.{prepared_change, resolve_and_notify}
use health_beat.Alert.HostState.{HostState, Engine, without, with_active, level_of, trigger_of}

unfoldable pub passed : ℕ → ℕ → M Bool
passed since d = do t ← now; pure (leb (since + d) t)

unfoldable pub since_or_mark : HostState → AlertKey → Level → Option ℕ → M (Option ℕ × HostState)
since_or_mark st key level (some since) = pure (some since, st)
since_or_mark st key level none = do
  t ← now
  r ← query (mark_pending st.host_id key level t)
  on_ok r (λ since. pure (some since, record st { pending = put key since st.pending }))
      (pure (none, st))

-- Whether the condition has held for `d`; its start is recorded when it is first seen.
unfoldable pub sustained : HostState → AlertKey → Level → ℕ → M (Bool × HostState)
sustained st key level d = if eqb d 0 then pure (true, st) else do
  found ← since_or_mark st key level (get key st.pending)
  on_some found.0 (λ since. do held ← passed since d; pure (held, found.1)) (pure (false, found.1))

-- `clearPending`
unfoldable pub clear_waiting : HostState → AlertKey → M HostState
clear_waiting st key =
    if has key st.pending
    then (do
      r ← query (clear_pending st.host_id key)
      on_ok r (λ _. pure (record st { pending = remove key st.pending })) (pure st))
    else pure st

module _ (e : Engine) where
  unfoldable pub level_fn : Alert → Level → Option ℤ → Option ℤ → M (Result (Option Alert))
  level_fn existing level value threshold = do
    let reopen = reopens_on_level_change existing level
    r ← statement (update_level existing.id level value threshold reopen)
    on_ok r (λ _. pure (ok (some (set_level level value threshold reopen existing)))) (pure failed)

  -- Nothing where the level is the same.
  unfoldable pub change_level : HostState → Alert → Level → Option ℤ → Option ℤ → M HostState
  change_level st existing level value threshold =
      if level_eqb existing.level level then pure st else do
        r ←
            prepared_change e.dispatcher st.host_id st.org_id level Event.level_changed
              (level_fn existing level value threshold)
        on_ok r (λ c. on_some c.alert (λ a. pure (with_active st (key_of existing) a)) (pure st))
            (pure (with_active st (key_of existing) existing))

  unfoldable pub open_fn : ℕ → AlertKey → Level → Option ℤ → Option ℤ → M (Result (Option Alert))
  open_fn host key level value threshold = do
    r ← statement (create_if_none_active host key level value threshold)
    on_ok r (λ created. pure (ok created)) (pure failed)

  -- Another evaluation opened it: only its level is brought up to date.
  unfoldable pub relevel : ℕ → AlertKey → Level → Option ℤ → Option ℤ → M (Unit {0})
  relevel host key level value threshold = do
    r ← query (get_active_subject host key)
    on_ok r
        (λ a. if level_eqb a.level level then pure tt else do
          query (update_level a.id level value threshold (reopens_on_level_change a level))
          pure tt)
        (pure tt)

  -- `open`
  unfoldable pub open_alert : HostState → AlertKey → Level → Option ℤ → Option ℤ → M HostState
  open_alert st key level value threshold = do
    r ←
        prepared_change e.dispatcher st.host_id st.org_id level Event.opened
          (open_fn st.host_id key level value threshold)
    on_ok r
        (λ c.
          on_some c.alert (λ a. pure (with_active st key a))
            (do relevel st.host_id key level value threshold; pure st))
        (pure (without st key))

  unfoldable pub resolve_alert : HostState → AlertKey → Alert → Option ℤ → Option ℤ → M HostState
  resolve_alert st key a value threshold = do
    resolve_and_notify e.dispatcher a st.org_id value threshold
    pure (without st key)

  unfoldable pub opens_after :
      HostState → AlertKey → Level → Option ℤ → Option ℤ → Bool → M HostState
  opens_after st key level value threshold held =
      if held
      then (do st' ← clear_waiting st key; open_alert st' key level value threshold)
      else pure st

  unfoldable pub settle : HostState → AlertKey → Option Alert → Option ℤ → Option ℤ → M HostState
  settle st key none value threshold = pure st
  settle st key (some existing) value threshold = resolve_alert st key existing value threshold

  unfoldable pub raise :
      HostState → AlertKey → Level → ℕ → Option ℤ → Option ℤ → Option Alert → M HostState
  raise st key level d value threshold (some existing) =
      change_level st existing level value threshold
  raise st key level d value threshold none = do
    s ← sustained st key level d
    opens_after s.1 key level value threshold s.0

  -- `apply`: the life of the alert of a key at a value and its threshold.
  unfoldable pub apply : HostState → AlertKey → ℤ → ThresholdConfig → M HostState
  unfolding level_of
  apply st key value t =
      let level = level_of t value in
      if level_eqb level unset
      then (do
        st' ← clear_waiting st key
        settle st' key (get key st.active) (some value) (some t.warning_level))
      else raise st key level (duration_of t.duration_seconds) (some value)
          (some (trigger_of t level)) (get key st.active)
