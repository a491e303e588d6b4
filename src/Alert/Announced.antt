-- ===== src/Alert/Announced.antt =====
-- The notifications of one change in dispatch.go (`announce`, the second half of `change`): all of
-- them are queued, or none.
use health_beat.Prelude.{
  ℕ, if-holds, Bool, true, false, ◌≡◌, refl, sym, ap, ◌∙◌, List, [], ◌∷◌, if◌then◌else◌, ◌&&◌,
  arith,
}
use health_beat.Alert.Types.{Alert}
use health_beat.Alert.Table.{
  Db, Result, ok, not_found, failed, Event, OutboxMessage, enqueue, set_notify_pending,
}
use health_beat.Alert.World.{
  World, M, ◌>>=◌, ◌>>◌, pure, fault, restore, tables, finish, savepoint, statement, perform, on_ok,
}
use health_beat.Alert.Keeps.{Keeps-statement}
use health_beat.Alert.Recipients.{Recipient, Prepared, Dispatcher}
use health_beat.Alert.Change.{
  message, enqueue_all, mark_deferred, announce, is_resolved, nobody_to_tell,
}
use health_beat.Alert.Atomic.{is_ok, fault-db, savepoint-restores}
use health_beat.Alert.Preserved.Tables.{AnyFaults-Onward, lawful_tables, outbox-invariant, marked}
use health_beat.Alert.Preserved.Dispatch.{mark_deferred-Keeps}

-- The outbox with the messages of `rs`, the last one first.
abbrev pub queued :
    Dispatcher → Prepared → Event → Alert → List Recipient → List OutboxMessage → List OutboxMessage
queued d p event a [] outbox = outbox
queued d p event a (r ∷ rs) outbox = queued d p event a rs (message d p event a r ∷ outbox)

abbrev pub told : Result Bool → Bool
told (ok b) = b
told not_found = false
told failed = false

module _ {B : Type 0} where
  -- A chain that succeeds went past its first call.
  then-ok :
      {A : Type 0} (r : Result A) (n : M (Result B)) (w : World)
      → is_ok (on_ok r (λ _. n) (pure failed) w).0 ≡ true
      → (is_ok r ≡ true) × (on_ok r (λ _. n) (pure failed) w ≡ n w)
  unfolding on_ok pure
  then-ok (ok a) n w h = (refl, refl)
  then-ok not_found n w h = ground (arith, h)
  then-ok failed n w h = ground (arith, h)

  committed-ok :
      (b : Bool) (a : B) (v w : World)
      → is_ok ((if b then (restore v.db >> pure failed) else pure (ok a)) w).0 ≡ true
      → ((if b then (restore v.db >> pure failed) else pure (ok a)) w).1.db ≡ w.db
  unfolding restore ◌>>=◌ pure
  committed-ok true a v w h = ground (arith, h)
  committed-ok false a v w h = refl

  finish-ok :
      (v : World) (r : Result B) (w : World)
      → is_ok (finish v.db r w).0 ≡ true
      → (is_ok r ≡ true) × ((finish v.db r w).1.db ≡ w.db)
  unfolding finish restore ◌>>=◌ pure
  finish-ok v (ok a) w h = let (b, w') = fault w in (refl, committed-ok b a v w' h ∙ fault-db w)
  finish-ok v not_found w h = ground (arith, h)
  finish-ok v failed w h = ground (arith, h)

  run_or_fail-ok :
      (m : M (Result B)) (b : Bool) (w : World)
      → is_ok ((if b then pure failed else (m >>= finish w.db)) w).0 ≡ true
      → (is_ok (m w).0 ≡ true)
        × (((if b then pure failed else (m >>= finish w.db)) w).1.db ≡ (m w).1.db)
  unfolding ◌>>=◌ pure
  run_or_fail-ok m true w h = ground (arith, h)
  run_or_fail-ok m false w h = let (r, w') = m w in finish-ok w r w' h

  -- A savepoint that succeeds has done what is inside.
  savepoint-ok :
      (m : M (Result B)) (w : World)
      → is_ok (savepoint m w).0 ≡ true
      → (is_ok (m (fault w).1).0 ≡ true) × ((savepoint m w).1.db ≡ (m (fault w).1).1.db)
  unfolding savepoint ◌>>=◌ tables
  savepoint-ok m w h = let (b, w') = fault w in run_or_fail-ok m b w' h

module _ (d : Dispatcher) where
  performed-enqueue :
      (b : Bool) (m : OutboxMessage) (w : World)
      → is_ok ((if b then pure failed else perform (enqueue m)) w).0 ≡ true
      → ((if b then pure failed else perform (enqueue m)) w).1.db.outbox ≡ m ∷ w.db.outbox
  unfolding pure perform enqueue
  performed-enqueue true m w h = ground (arith, h)
  performed-enqueue false m w h = refl

  statement-enqueue :
      (m : OutboxMessage) (w : World)
      → is_ok (statement (enqueue m) w).0 ≡ true
      → (statement (enqueue m) w).1.db.outbox ≡ m ∷ w.db.outbox
  unfolding statement ◌>>=◌
  statement-enqueue m w h =
      let (b, w') = fault w in
      performed-enqueue b m w' h ∙ ap (λ (db : Db). m ∷ db.outbox) (fault-db w)

  enqueue_all-queues :
      (p : Prepared) (event : Event) (a : Alert) (rs : List Recipient) (w : World)
      → is_ok (enqueue_all d p event a rs w).0 ≡ true
      → (enqueue_all d p event a rs w).1.db.outbox ≡ queued d p event a rs w.db.outbox
  unfolding enqueue_all pure ◌>>=◌
  enqueue_all-queues p event a [] w h = refl
  enqueue_all-queues p event a (r ∷ rs) w h =
      let m = message d p event a r in
      let (q, w') = statement (enqueue m) w in
      let (first, rest) = then-ok q (enqueue_all d p event a rs) w' h in
      ap (λ (x : Result (Unit {0}) × World). x.1.db.outbox) rest
      ∙ enqueue_all-queues p event a rs w' (ap (λ x. is_ok x.0) (sym rest) ∙ h)
      ∙ ap (queued d p event a rs) (statement-enqueue m w first)

  -- The mark does not touch the outbox.
  mark_deferred-outbox :
      (a : Alert) (b : Bool) (w : World) → (mark_deferred d a b w).1.db.outbox ≡ w.db.outbox
  mark_deferred-outbox a b w =
      let I = outbox-invariant (λ o. o ≡ w.db.outbox) in
      ((mark_deferred-Keeps (lawful_tables I AnyFaults-Onward) d (marked I AnyFaults-Onward) a b).at
        w (refl, tt)).0

  mark_statement-outbox :
      (id : ℕ) (w : World) → (statement (set_notify_pending id false) w).1.db.outbox ≡ w.db.outbox
  mark_statement-outbox id w =
      let I = outbox-invariant (λ o. o ≡ w.db.outbox) in
      ((Keeps-statement (lawful_tables I AnyFaults-Onward) _
          (marked I AnyFaults-Onward id false)).at
        w (refl, tt)).0

  abbrev queue_and_mark : Prepared → Event → Alert → M (Result (Unit {0}))
  queue_and_mark p event a = do
    sent ← enqueue_all d p event a p.recipients
    on_ok sent (λ _. statement (set_notify_pending a.id false)) (pure failed)

  queue_and_mark-queues :
      (p : Prepared) (event : Event) (a : Alert) (w : World)
      → is_ok (queue_and_mark p event a w).0 ≡ true
      → (queue_and_mark p event a w).1.db.outbox ≡ queued d p event a p.recipients w.db.outbox
  unfolding ◌>>=◌
  queue_and_mark-queues p event a w h =
      let (q, w') = enqueue_all d p event a p.recipients w in
      let (first, rest) = then-ok q (statement (set_notify_pending a.id false)) w' h in
      ap (λ (x : Result (Unit {0}) × World). x.1.db.outbox) rest
      ∙ mark_statement-outbox a.id w'
      ∙ enqueue_all-queues p event a p.recipients w first

  -- It succeeds, with all messages queued where it says so and none otherwise.
  abbrev pub AllOrNone : List OutboxMessage → List OutboxMessage → Result Bool × World → Type 0
  AllOrNone before after x =
      (is_ok x.0 ≡ true) × (x.1.db.outbox ≡ (if told x.0 then after else before))

  answered-AllOrNone :
      (q : Result (Unit {0})) (before after : List OutboxMessage) (w : World)
      → (is_ok q ≡ true → w.db.outbox ≡ after)
      → (is_ok q ≡ false → w.db.outbox ≡ before)
      → AllOrNone before after (on_ok q (λ _. pure (ok true)) (pure (ok false)) w)
  unfolding on_ok pure
  answered-AllOrNone (ok u) before after w done undone = (refl, done refl)
  answered-AllOrNone not_found before after w done undone = (refl, undone refl)
  answered-AllOrNone failed before after w done undone = (refl, undone refl)

  send-AllOrNone :
      (p : Prepared) (event : Event) (a : Alert) (w : World)
      → AllOrNone w.db.outbox (queued d p event a p.recipients w.db.outbox) (
          (savepoint (queue_and_mark p event a) >>= λ q.
          on_ok q (λ _. pure (ok true)) (pure (ok false)))
            w)
  unfolding ◌>>=◌
  send-AllOrNone p event a w =
      let m = queue_and_mark p event a in
      let (q, w') = savepoint m w in
      let before = λ (db : Db). queued d p event a p.recipients db.outbox in
      answered-AllOrNone q w.db.outbox (queued d p event a p.recipients w.db.outbox) w'
        (λ h.
          let (inside, same) = savepoint-ok m w h in
          ap (λ (db : Db). db.outbox) same
          ∙ queue_and_mark-queues p event a (fault w).1 inside
          ∙ ap before (fault-db w))
        (λ h. ap (λ (db : Db). db.outbox) (savepoint-restores m w h))

  silent-AllOrNone :
      (a : Alert) (b : Bool) (after : List OutboxMessage) (w : World)
      → AllOrNone w.db.outbox after (mark_deferred d a b w)
  unfolding mark_deferred ◌>>=◌ pure
  silent-AllOrNone a b after w = (refl, mark_deferred-outbox a b w)

-- The part of a change that follows the alert's own write never fails it, whichever call of the
-- database fails: it succeeds, and it either says that it notified, and then the outbox has
-- gained exactly one message for each prepared recipient, in their order, or says that it did not,
-- and then the outbox is as before.
pub announce-AllOrNone :
    (d : Dispatcher) (p : Prepared) (event : Event) (a : Alert) (w : World)
    → AllOrNone d w.db.outbox (queued d p event a p.recipients w.db.outbox) (announce d p event a w)
unfolding announce pure
announce-AllOrNone d p event a w =
    let all = queued d p event a p.recipients w.db.outbox in
    let quiet = λ (b : Bool). silent-AllOrNone d a b all w in
    let R = λ (m : M (Result Bool)). AllOrNone d w.db.outbox all (m w) in
    if-holds R p.suppressed _ _ (quiet _) (
      if-holds R (is_resolved d event && a.notify_pending) _ _ (quiet false) (
        if-holds R (nobody_to_tell d p) _ _
          (if-holds R a.notify_pending _ _ (quiet false) (refl, refl))
          (send-AllOrNone d p event a w)))
