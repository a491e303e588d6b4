-- ===== src/Alert/LevelAfter/Steps.antt =====
-- engine.go where nothing fails: the steps of `apply`.
use mathlib.Core.Option
use health_beat.Prelude.{
  ℕ, true, ◌≡◌, refl, sym, ap, ◌∙◌, subst, Option, none, some, has, remove, nat_eq, string_eq,
  pair_eq, arith,
}
use health_beat.Prelude.Int.{ℤ}
use health_beat.Alert.Types.{Level, level_eqb, Alert, AlertKey}
use health_beat.Alert.Table.{Result, ok, not_found, failed, Event, clear_pending}
use health_beat.Alert.World.{M, ◌>>=◌, pure, query, on_ok, on_some}
use health_beat.Alert.Keeps.{keeps_rules}
use health_beat.Alert.Change.{Change, resolve_and_notify}
use health_beat.Alert.HostState.{HostState, Engine, with_active, without}
use health_beat.Alert.Engine.{
  clear_waiting, change_level, open_fn, open_alert, resolve_alert, opens_after, settle, raise,
  sustained,
}
use health_beat.Alert.Calm.{
  Calm, Runs, Runs-Keeps, Runs-pure, Runs-from, Runs-bind, Runs-if_true, Runs-query,
}
use health_beat.Alert.LevelAfter.Committed.{Shows, LevelIs, Wrote, Committed, prepared_change-level}
use health_beat.Alert.LevelAfter.Writes.{level_fn-level, resolve_fn-level, open_fn-level}

level_eqb→eq : (a b : Level) → level_eqb a b ≡ true → a ≡ b
level_eqb→eq a b h = ground arith

module _ (host : ℕ) (key : AlertKey) where
  module _ (e : Engine) where
    -- What is left of a change once it is committed writes nothing more.
    change_level-level :
        (st : HostState) (a : Alert) (l : Level) (v t : Option ℤ)
        → Runs
            (Shows host key (some a))
            (λ st' db. LevelIs host key (some l) db)
            (change_level e st a l v t)
    unfolding change_level
    change_level-level st a l v t =
        Runs-if_true (Shows host key (some a)) (λ st' db. LevelIs host key (some l) db)
          (level_eqb a.level l) _ _
          (λ same.
            Runs-from (Shows host key (some a)) (LevelIs host key (some l))
              (λ st' db. LevelIs host key (some l) db) (pure st)
              (λ db h. ap (Option.map (λ b. b.level)) h.0 ∙ ap some (level_eqb→eq a.level l same))
              (Runs-pure (λ st' db. LevelIs host key (some l) db) st))
          (λ differs.
            Runs-bind (Shows host key (some a)) (Committed host key e.dispatcher (some l)) _ _ _
              (prepared_change-level host key e.dispatcher (some l) (Shows host key (some a))
                st.host_id st.org_id l Event.level_changed _ (level_fn-level host key e a l v t))
              (λ r.
                Runs-from (Committed host key e.dispatcher (some l) r) (LevelIs host key (some l)) _
                  _ (λ db h. h.0) (Runs-Keeps (LevelIs host key (some l)) _ (search keeps_rules))))

    alert_of : Result Change → Option Alert
    alert_of (ok c) = c.alert
    alert_of not_found = none
    alert_of failed = none

    opened-level :
        (l : Level) (r : Result Change) (st : HostState) (late : M HostState)
        → Runs
            (Committed host key e.dispatcher (some l) r)
            (λ st' db. LevelIs host key (some l) db)
            (on_ok r
              (λ c. on_some c.alert (λ a. pure (with_active st key a)) late)
              (pure (without st key)))
    unfolding on_ok on_some pure alert_of
    opened-level l (ok c) st late = record {
      at = λ w h.
          let (c', a, eq, alert) = h.0.1 in
          subst
            (λ o.
              Calm (LevelIs host key (some l))
                (on_some o (λ b. pure (with_active st key b)) late w).1)
            (sym (ap alert_of eq ∙ alert)) (h.0.0, h.1, h.2);
    }
    opened-level l not_found st late = record { at = λ w h. (h.0.0, h.1, h.2) }
    opened-level l failed st late = record { at = λ w h. (h.0.0, h.1, h.2) }

    open_alert-level :
        (st : HostState) (l : Level) (v t : Option ℤ)
        → st.host_id ≡ host
        → Runs
            (Shows host key none)
            (λ st' db. LevelIs host key (some l) db)
            (open_alert e st key l v t)
    unfolding open_alert
    open_alert-level st l v t eh =
        Runs-bind (Shows host key none) (Committed host key e.dispatcher (some l)) _ _ _
          (prepared_change-level host key e.dispatcher (some l) (Shows host key none) st.host_id
            st.org_id l Event.opened _
            (subst
              (λ h.
                Runs (Shows host key none) (Wrote host key e.dispatcher (some l))
                  (open_fn e h key l v t))
              (sym eh) (open_fn-level host key e l v t)))
          (λ r. opened-level l r st _)

    resolve_and_notify-level :
        (a : Alert) (org : ℕ) (v t : Option ℤ)
        → Runs
            (Shows host key (some a))
            (λ u db. LevelIs host key none db)
            (resolve_and_notify e.dispatcher a org v t)
    unfolding resolve_and_notify
    resolve_and_notify-level a org v t =
        Runs-bind (Shows host key (some a)) (Committed host key e.dispatcher none) _ _ _
          (prepared_change-level host key e.dispatcher none (Shows host key (some a)) a.host_id org
            a.level Event.resolved _ (resolve_fn-level host key e a v t))
          (λ r.
            Runs-from (Committed host key e.dispatcher none r) (LevelIs host key none) _ _
              (λ db h. h.0) (Runs-pure (λ u db. LevelIs host key none db) tt))

    resolve_alert-level :
        (st : HostState) (a : Alert) (v t : Option ℤ)
        → Runs
            (Shows host key (some a))
            (λ st' db. LevelIs host key none db)
            (resolve_alert e st key a v t)
    unfolding resolve_alert
    resolve_alert-level st a v t =
        Runs-bind (Shows host key (some a)) (λ u db. LevelIs host key none db) _ _ _
          (resolve_and_notify-level a st.org_id v t)
          (λ u. Runs-pure (λ st' db. LevelIs host key none db) (without st key))

    -- Forgetting the wait writes no alert.
    clears :
        (o : Option Alert) (h : ℕ)
        → Runs (Shows host key o) (λ r. Shows host key o) (query (clear_pending h key))
    unfolding clear_pending
    clears o h = Runs-query (Shows host key o) (λ r. Shows host key o) _ (λ now db q. q)

    kept-level :
        (o : Option Alert) (st : HostState)
        → Runs (Shows host key o) (λ s db. Shows host key o db × (s.host_id ≡ st.host_id)) (pure st)
    kept-level o st =
        Runs-from (Shows host key o) (λ db. Shows host key o db × (st.host_id ≡ st.host_id)) _ _
          (λ db h. (h, refl))
          (Runs-pure (λ s db. Shows host key o db × (s.host_id ≡ st.host_id)) st)

    cleared-level :
        (o : Option Alert) (st st' : HostState) (r : Result (Unit {0}))
        → st'.host_id ≡ st.host_id
        → Runs
            (Shows host key o)
            (λ s db. Shows host key o db × (s.host_id ≡ st.host_id))
            (on_ok r (λ _. pure st') (pure st))
    unfolding on_ok
    cleared-level o st st' (ok u) eh =
        Runs-from (Shows host key o) (λ db. Shows host key o db × (st'.host_id ≡ st.host_id)) _ _
          (λ db h. (h, eh)) (Runs-pure (λ s db. Shows host key o db × (s.host_id ≡ st.host_id)) st')
    cleared-level o st st' not_found eh = kept-level o st
    cleared-level o st st' failed eh = kept-level o st

    pub clear_waiting-level :
        (o : Option Alert) (st : HostState)
        → Runs
            (Shows host key o)
            (λ st' db. Shows host key o db × (st'.host_id ≡ st.host_id))
            (clear_waiting st key)
    unfolding clear_waiting
    clear_waiting-level o st =
        let st' = record st { pending = remove key st.pending } in
        Runs-if_true (Shows host key o) (λ s db. Shows host key o db × (s.host_id ≡ st.host_id))
          (has key st.pending)
          (query (clear_pending st.host_id key) >>= λ r. on_ok r (λ _. pure st') (pure st))
          (pure st)
          (λ held.
            Runs-bind (Shows host key o) (λ r. Shows host key o) _
              (query (clear_pending st.host_id key)) _ (clears o st.host_id)
              (λ r. cleared-level o st st' r refl))
          (λ free. kept-level o st)

    pub settle-level :
        (o : Option Alert) (st : HostState) (v t : Option ℤ)
        → Runs (Shows host key o) (λ st' db. LevelIs host key none db) (settle e st key o v t)
    unfolding settle
    settle-level none st v t =
        Runs-from (Shows host key none) (LevelIs host key none) (λ st' db. LevelIs host key none db)
          (pure st) (λ db h. ap (Option.map (λ b. b.level)) h.0)
          (Runs-pure (λ st' db. LevelIs host key none db) st)
    settle-level (some a) st v t = resolve_alert-level st a v t

    pub raise-level :
        (o : Option Alert) (st : HostState) (l : Level) (v t : Option ℤ)
        → st.host_id ≡ host
        → Runs
            (Shows host key o)
            (λ st' db. LevelIs host key (some l) db)
            (raise e st key l 0 v t o)
    unfolding raise sustained opens_after pure ◌>>=◌
    raise-level none st l v t eh =
        Runs-bind (Shows host key none) (λ s db. Shows host key none db × (s.host_id ≡ st.host_id))
          (λ st' db. LevelIs host key (some l) db) (clear_waiting st key)
          (λ s. open_alert e s key l v t) (clear_waiting-level none st)
          (λ s. record {
            at = λ w h. (open_alert-level s l v t (h.0.1 ∙ eh)).at w (h.0.0, h.1, h.2);
          })
    raise-level (some a) st l v t eh = change_level-level st a l v t
