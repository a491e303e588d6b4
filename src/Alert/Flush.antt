-- ===== src/Alert/Flush.antt =====
-- alertengine/dispatch.go: the notifications that maintenance deferred.
use health_beat.Prelude.{
  ℕ, Bool, true, false, ◌&&◌, Option, none, some, List, [], ◌∷◌, Map, get, put, string_eq, nat_eq,
  if◌then◌else◌,
}
use health_beat.Alert.Types.{Alert, is_active}
use health_beat.Alert.Table.{Result, ok, not_found, failed, Event, get_by_id, list_notify_pending}
use health_beat.Alert.World.{on_ok, on_some, on_result, M, ◌>>=◌, ◌>>◌, pure, query, statement}
use health_beat.Alert.Recipients.{Dispatcher, read_row, prepare}
use health_beat.Alert.Change.{change}

module _ (e : Dispatcher) where
  -- `cur` is told if it is still marked and active.
  unfoldable pub deferred_fn : ℕ → M (Result (Option Alert))
  deferred_fn id = do
    r ← statement (get_by_id id)
    on_result r (λ cur. pure (ok (if cur.notify_pending && is_active cur then some cur else none)))
        (pure not_found) (pure failed)

  abbrev known_busy : Option Bool → Bool
  known_busy (some true) = true
  known_busy _ = false

  -- One alert of FlushDeferred; `busy` is what is known of the hosts' maintenance.
  unfoldable pub flush_one : Alert → Map ℕ Bool → M (Map ℕ Bool)
  flush_one a busy = if known_busy (get a.host_id busy) then pure busy else do
    host ← read_row (e.host_by_id a.host_id)
    on_some host
        (λ h. do
          p ← prepare e a.host_id h.organization_id a.level
          if p.suppressed then pure (put a.host_id true busy) else do
            change e (record p { context = record p.context { deferred = true } }) Event.opened
                (deferred_fn a.id)
            pure (put a.host_id false busy))
        (pure busy)

  unfoldable pub flush_all : List Alert → Map ℕ Bool → M (Unit {0})
  flush_all [] busy = pure tt
  flush_all (a ∷ rest) busy = do busy' ← flush_one a busy; flush_all rest busy'

  unfoldable pub flush_deferred : M (Unit {0})
  flush_deferred = do
    r ← query list_notify_pending
    on_ok r (λ alerts. flush_all alerts []) (pure tt)
