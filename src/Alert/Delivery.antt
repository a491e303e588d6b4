-- ===== src/Alert/Delivery.antt =====
-- Who gets notifications: dispatch.go (`prepare`, `deliverable`, `change`).
use health_beat.Prelude.{
  String, All-weaken, ℕ, ◌≡◌, refl, sym, subst, List, [], ◌∷◌, All, Some, inl, inr, In, All-self,
  ◌⊎◌,
}
use health_beat.Alert.Types.{Level, Alert}
use health_beat.Alert.Table.{Db, Result, ok, not_found, failed, OutboxMessage, Event, enqueue}
use health_beat.Alert.World.{World, perform, pure, on_ok}
use health_beat.Alert.Keeps.{Keeps, Lawful}
use health_beat.Alert.Yields.{
  Yields, Yields-bind, Yields-after, Yields-pure, Yields-if, Answer, read-Answer,
}
use health_beat.Alert.HostState.{Engine}
use health_beat.Alert.Recipients.{
  Recipient, SkippedRecipient, nobody, Prepared, Dispatcher, deliverable, prepare, prepare_for,
}
use health_beat.Alert.Reasons.{CanSend, SplitInto, deliverable-splits}
use health_beat.Alert.Change.{announce, message}
use health_beat.Alert.Operations.{Operation, run_all}
use health_beat.Alert.Preserved.Tables.{
  outbox-invariant, Within, AnyFaults, AnyFaults-Onward, lawful_tables, marked, engine_rules,
}
use health_beat.Alert.Preserved.Dispatch.{
  in_maintenance-Keeps, message_context-Keeps, enqueue_all-Keeps, announce-Keeps,
  prepared_change-Keeps, flush_deferred-Keeps,
}
use health_beat.Alert.Guarantees.{run_all-keeps}

-- The recipients that are sent to have what all have, and each can be sent to.
split-All :
    (P : Recipient → Type 0) (notifiers : List String) (rs send : List Recipient)
    (skipped : List SkippedRecipient)
    → SplitInto notifiers rs send skipped
    → All P rs
    → All (λ r. P r × CanSend notifiers r) send
split-All P notifiers rs send skipped SplitInto.nobody_left h = tt
split-All P notifiers rs send skipped (SplitInto.sends_to r rest sent left can s) h =
    ((h.0, can), split-All P notifiers rest sent left s h.1)
split-All P notifiers rs send skipped (SplitInto.skips r reason rest sent left stop s) h =
    split-All P notifiers rest sent left s h.1

All-Some : {A : Type 0} (xs : List A) → All (λ x. Some (λ y. y ≡ x) xs) xs
All-Some [] = tt
All-Some (x ∷ xs) = (inl refl, All-weaken _ _ xs (λ y s. inr s) (All-Some xs))

module _ (d : Dispatcher) where
  -- A recipient of a host, an organization and a level.
  abbrev pub Known : Recipient → Type 0
  Known r =
      (host : ℕ) × (org : ℕ) × (level : Level) × Some (λ x. x ≡ r)
        (d.resolve_recipients host org level)

  abbrev pub Allowed : Recipient → Type 0
  Allowed r = Known r × CanSend d.notifiers r

  abbrev pub Addressed : OutboxMessage → Type 0
  Addressed m = (r : Recipient) × Allowed r × (m.channel ≡ r.channel) × (m.recipient ≡ r.address)

  -- The rows of the outbox, where `old` was in it before.
  abbrev pub OldOrAddressed : List OutboxMessage → OutboxMessage → Type 0
  OldOrAddressed old m = In m old ⊎ Addressed m

  abbrev pub AllAddressed : List OutboxMessage → Db → Type 0
  AllAddressed old db = All (OldOrAddressed old) db.outbox

  module _ {P : World → Type 0} (L : Lawful P) where
    abbrev AllAllowed : Prepared → Type 0
    AllAllowed p = All Allowed p.recipients

    prepare_for-Allowed :
        (host org : ℕ) (rs : List Recipient)
        → All Allowed rs
        → Yields P AllAllowed (prepare_for d host org rs)
    unfolding prepare_for
    prepare_for-Allowed host org [] h = Yields-pure AllAllowed _ tt
    prepare_for-Allowed host org (r ∷ rs) h =
        Yields-after AllAllowed _ _ (message_context-Keeps L d host org)
          (λ mc. Yields-pure AllAllowed _ h)

    answered-Allowed :
        (host org : ℕ) (level : Level) (r : Result (List Recipient))
        → Answer (d.resolve_recipients host org level) r
        → Yields P AllAllowed
            (on_ok r (λ rs. prepare_for d host org (deliverable d.notifiers rs).0) (pure nobody))
    unfolding on_ok
    answered-Allowed host org level (ok rs) e = prepare_for-Allowed host org _ (
        subst (λ xs. All Allowed (deliverable d.notifiers xs).0) (sym e)
          (split-All Known d.notifiers _ _ _ (deliverable-splits d.notifiers _)
            (All-weaken _ _ _ (λ r s. (host, org, level, s)) (All-Some _))))
    answered-Allowed host org level not_found e = Yields-pure AllAllowed _ tt
    answered-Allowed host org level failed e = Yields-pure AllAllowed _ tt

    pub prepare-Allowed :
        (host org : ℕ) (level : Level) → Yields P AllAllowed (prepare d host org level)
    unfolding prepare
    prepare-Allowed host org level =
        Yields-after AllAllowed _ _ (in_maintenance-Keeps L d host) (λ busy.
          Yields-if AllAllowed busy _ _ (Yields-pure AllAllowed _ tt) (
            Yields-bind (Answer (d.resolve_recipients host org level)) AllAllowed _ _
              (read-Answer L _) (λ r e. answered-Allowed host org level r e)))

module _ (e : Engine) (old : List OutboxMessage) where
  abbrev L : Lawful (Within (AllAddressed e.dispatcher old) AnyFaults)
  L = lawful_tables (outbox-invariant (All (OldOrAddressed e.dispatcher old))) AnyFaults-Onward

  sends :
      (p : Prepared) (event : Event) (a : Alert) (r : Recipient)
      → Allowed e.dispatcher r
      → Keeps
          (Within (AllAddressed e.dispatcher old) AnyFaults)
          (perform (enqueue (message e.dispatcher p event a r)))
  unfolding perform enqueue
  sends p event a r h = record { at = λ w q. ((inr (r, h, refl, refl), q.0), q.1) }

  announces :
      (p : Prepared) (event : Event) (a : Alert)
      → All (Allowed e.dispatcher) p.recipients
      → Keeps (Within (AllAddressed e.dispatcher old) AnyFaults) (announce e.dispatcher p event a)
  announces p event a h =
      announce-Keeps L e.dispatcher
        (marked (outbox-invariant (All (OldOrAddressed e.dispatcher old))) AnyFaults-Onward) p event
        a
        (enqueue_all-Keeps L e.dispatcher (Allowed e.dispatcher) p event a p.recipients
          (sends p event a) h)

-- Every row of the outbox was there at the start, or is addressed to a recipient that
-- `ResolveRecipients` gave for some host, organization and level, who is not without access, whose
-- channel is not switched off, and whose channel is among those that have a notifier. This holds
-- after any sequence of calls of the engine, whichever calls of the database fail and whatever other
-- sessions commit to the alerts.
pub run_all-AllAddressed :
    (e : Engine) (os : List Operation) (w : World)
    → AllAddressed e.dispatcher w.db.outbox (run_all e os w).db
run_all-AllAddressed e os w =
    (run_all-keeps e
      (engine_rules (outbox-invariant (All (OldOrAddressed e.dispatcher w.db.outbox)))
        AnyFaults-Onward e.dispatcher
        (prepared_change-Keeps (L e w.db.outbox) e.dispatcher _
          (prepare-Allowed e.dispatcher (L e w.db.outbox)) (λ p c r. r) (announces e w.db.outbox)))
      (flush_deferred-Keeps (L e w.db.outbox) e.dispatcher _
        (prepare-Allowed e.dispatcher (L e w.db.outbox)) (λ p c r. r) (announces e w.db.outbox))
      os w (All-self _ w.db.outbox (λ m i. inl i), tt)).0
