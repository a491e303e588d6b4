-- ===== src/Alert/Change.antt =====
-- alertengine/dispatch.go: the change of an alert with its notifications in one transaction.
use health_beat.Prelude.{
  ℕ, Bool, true, false, not, ◌&&◌, Option, none, some, List, [], ◌∷◌, string_eq, nat_eq,
  if◌then◌else◌,
}
use health_beat.Prelude.Int.{ℤ}
use health_beat.Alert.Types.{Level, Alert}
use health_beat.Alert.Table.{
  Result, ok, not_found, failed, Event, resolve, set_notify_pending, enqueue, OutboxMessage,
}
use health_beat.Alert.World.{
  on_ok, on_result, M, ◌>>=◌, ◌>>◌, pure, wake, statement, savepoint, in_tx,
}
use health_beat.Alert.Recipients.{Recipient, Prepared, Dispatcher, prepare}

-- What `fn` did: the alert that is to be notified (none: nothing is), and whether it was. The
-- alert that `fn` returns beside `false` is never read.
pub record Change : Type 0 where
  pub alert : Option Alert
  pub notified : Bool

module _ (e : Dispatcher) where
  abbrev pub message : Prepared → Event → Alert → Recipient → OutboxMessage
  message p event alert r =
      let text = e.build_message alert p.context in
      record {
        channel = r.channel;
        recipient = r.address;
        title = text.0;
        body = text.1;
        alert_id = alert.id;
        alert_event = event;
        alert_level = alert.level;
      }

  -- One row for each recipient; the first failure ends it.
  unfoldable pub enqueue_all : Prepared → Event → Alert → List Recipient → M (Result (Unit {0}))
  enqueue_all p event alert [] = pure (ok tt)
  enqueue_all p event alert (r ∷ rs) = do
    sent ← statement (enqueue (message p event alert r))
    on_ok sent (λ _. enqueue_all p event alert rs) (pure failed)

  -- Whether the mark is written or not, the change goes on.
  unfoldable pub mark_deferred : Alert → Bool → M (Result Bool)
  mark_deferred alert deferred = do
    savepoint (statement (set_notify_pending alert.id deferred))
    pure (ok false)

  abbrev pub is_resolved : Event → Bool
  is_resolved Event.resolved = true
  is_resolved _ = false

  abbrev pub nobody_to_tell : Prepared → Bool
  nobody_to_tell p = elim p.recipients [ [] ↦ true | r ∷ rs ↦ false ]

  -- The part of `change` after `fn`: the mark or the notifications. `ok true`: rows were written.
  unfoldable pub announce : Prepared → Event → Alert → M (Result Bool)
  announce p event alert =
      if p.suppressed
      then mark_deferred alert (not (is_resolved event))
      else if is_resolved event && alert.notify_pending
      then mark_deferred alert false
      else if nobody_to_tell p
      then (if alert.notify_pending then mark_deferred alert false else pure (ok false))
      else do
        queued ← savepoint (do
          sent ← enqueue_all p event alert p.recipients
          on_ok sent (λ _. statement (set_notify_pending alert.id false)) (pure failed))
        on_ok queued (λ _. pure (ok true)) (pure (ok false))

  unfoldable pub after_fn : Prepared → Event → Result (Option Alert) → M (Result Change)
  after_fn p event (ok (some alert)) = do
    told ← announce p event alert
    on_ok told (λ notified. pure (ok (record { alert = some alert; notified = notified })))
        (pure failed)
  after_fn p event (ok none) = pure (ok (record { alert = none; notified = false }))
  after_fn p event not_found = pure not_found
  after_fn p event failed = pure failed

  unfoldable pub wake_worker : Result Change → M (Result Change)
  wake_worker (ok c) = if c.notified && e.has_worker then (do wake; pure (ok c)) else pure (ok c)
  wake_worker r = pure r

  -- `fn` and the notifications in one transaction.
  unfoldable pub change : Prepared → Event → M (Result (Option Alert)) → M (Result Change)
  change p event fn = do r ← in_tx (do a ← fn; after_fn p event a); wake_worker r

  -- `e.change(ctx, e.prepare(ctx, hostID, orgID, level), event, fn)`
  unfoldable pub prepared_change :
      ℕ → ℕ → Level → Event → M (Result (Option Alert)) → M (Result Change)
  prepared_change host org level event fn = do p ← prepare e host org level; change p event fn

  -- `resolve` in the transaction: `not_found` says that another was first, and nothing is told.
  unfoldable pub resolve_fn : Alert → Option ℤ → Option ℤ → M (Result (Option Alert))
  resolve_fn active value threshold = do
    r ← statement (resolve active.id value threshold)
    on_result r (λ a. pure (ok (some a))) (pure (ok none)) (pure failed)

  unfoldable pub resolve_and_notify : Alert → ℕ → Option ℤ → Option ℤ → M (Unit {0})
  resolve_and_notify active org value threshold = do
    prepared_change active.host_id org active.level Event.resolved
        (resolve_fn active value threshold)
    pure tt
