-- ===== src/Alert/Preserved/Dispatch.antt =====
-- The dispatcher's functions: what `prepare` reads decides what `announce` may write.
use health_beat.Prelude.{All, Map, ℕ, Bool, Option, none, some, List, [], ◌∷◌}
use health_beat.Alert.Types.{Level, Alert}
use health_beat.Alert.Table.{
  Statement, Result, ok, not_found, failed, Event, set_notify_pending, enqueue, get_by_id,
  list_notify_pending,
}
use health_beat.Alert.World.{World, M, perform, statement, query, read}
use health_beat.Alert.Keeps.{
  Keeps, Lawful, keeps_rules, Keeps-on_ok, Keeps-on_some, Keeps-if, Keeps-bind, Keeps-pure,
  Keeps-read, Keeps-statement, Keeps-query, Keeps-in_tx, Keeps-savepoint, Keeps-wake,
}
use health_beat.Alert.Yields.{Yields, Yields-then}
use health_beat.Alert.Recipients.{
  Recipient, MessageContext, Prepared, Dispatcher, read_row, in_maintenance, message_context,
  prepare_for, prepare,
}
use health_beat.Alert.Change.{
  Change, message, enqueue_all, mark_deferred, announce, after_fn, wake_worker, change,
  prepared_change,
}
use health_beat.Alert.Flush.{deferred_fn, flush_one, flush_all, flush_deferred}

module _ {P : World → Type 0} (L : Lawful P) (d : Dispatcher) where
  abbrev pub K : {A : Type 0} → M A → Type 0
  K m = Keeps P m

  reads : {A : Type 0} (a : A) → K (read a)
  reads a = Keeps-read L a

  pub stated : {A : Type 0} (s : Statement A) → K (perform s) → K (statement s)
  stated s k = Keeps-statement L s k

  pub read_row-Keeps : {A : Type 0} (row : Option A) → K (read_row row)
  unfolding read_row
  read_row-Keeps row = search (keeps_rules, reads)

  pub in_maintenance-Keeps : (host : ℕ) → K (in_maintenance d host)
  unfolding in_maintenance
  in_maintenance-Keeps host = search (keeps_rules, reads)

  pub message_context-Keeps : (host org : ℕ) → K (message_context d host org)
  unfolding message_context
  message_context-Keeps host org = search (keeps_rules, read_row-Keeps)

  pub prepare_for-Keeps : (host org : ℕ) (rs : List Recipient) → K (prepare_for d host org rs)
  unfolding prepare_for
  prepare_for-Keeps host org [] = search keeps_rules
  prepare_for-Keeps host org (r ∷ rs) = search (keeps_rules, message_context-Keeps)

  pub prepare-Keeps : (host org : ℕ) (level : Level) → K (prepare d host org level)
  unfolding prepare
  prepare-Keeps host org level =
      search (keeps_rules, in_maintenance-Keeps, reads, prepare_for-Keeps)

  -- What may be queued of `p` is queued one by one.
  pub enqueue_all-Keeps :
      (Allowed : Recipient → Type 0) (p : Prepared) (event : Event) (a : Alert)
      (rs : List Recipient)
      → ((r : Recipient) → Allowed r → K (perform (enqueue (message d p event a r))))
      → All Allowed rs
      → K (enqueue_all d p event a rs)
  unfolding enqueue_all
  enqueue_all-Keeps Allowed p event a [] sent h = search keeps_rules
  enqueue_all-Keeps Allowed p event a (r ∷ rs) sent h =
      Keeps-bind _ _ (stated _ (sent r h.0)) (λ q.
        Keeps-on_ok q _ _ (λ _. enqueue_all-Keeps Allowed p event a rs sent h.1) (Keeps-pure _))

  module _ (marks : (id : ℕ) (mark : Bool) → K (perform (set_notify_pending id mark))) where
    pub mark_deferred-Keeps : (a : Alert) (b : Bool) → K (mark_deferred d a b)
    unfolding mark_deferred
    mark_deferred-Keeps a b = search (keeps_rules, Keeps-savepoint L, stated, marks)

    pub announce-Keeps :
        (p : Prepared) (event : Event) (a : Alert)
        → K (enqueue_all d p event a p.recipients)
        → K (announce d p event a)
    unfolding announce
    announce-Keeps p event a sends =
        search (keeps_rules, mark_deferred-Keeps, Keeps-savepoint L, stated, marks) depth 12

module _ {P : World → Type 0} (L : Lawful P) (d : Dispatcher) (Ready : Prepared → Type 0)
    (prepares : (host org : ℕ) (level : Level) → Yields P Ready (prepare d host org level))
    (still_ready : (p : Prepared) (c : MessageContext) → Ready p → Ready (record p { context = c }))
    (announces : (p : Prepared) (event : Event) (a : Alert)
      → Ready p
      → Keeps P (announce d p event a)) where
  after_fn-Keeps :
      (p : Prepared) (event : Event) (r : Result (Option Alert))
      → Ready p
      → Keeps P (after_fn d p event r)
  unfolding after_fn
  after_fn-Keeps p event (ok (some a)) ready = search keeps_rules
  after_fn-Keeps p event (ok none) ready = search keeps_rules
  after_fn-Keeps p event not_found ready = search keeps_rules
  after_fn-Keeps p event failed ready = search keeps_rules

  wake_worker-Keeps : (r : Result Change) → Keeps P (wake_worker d r)
  unfolding wake_worker
  wake_worker-Keeps (ok c) =
      Keeps-if _ _ _ (Keeps-bind _ _ (Keeps-wake L) (λ _. Keeps-pure _)) (Keeps-pure _)
  wake_worker-Keeps not_found = search keeps_rules
  wake_worker-Keeps failed = search keeps_rules

  change-Keeps :
      (p : Prepared) (event : Event) (fn : M (Result (Option Alert)))
      → Ready p
      → Keeps P fn
      → Keeps P (change d p event fn)
  unfolding change
  change-Keeps p event fn ready k =
      search (keeps_rules, Keeps-in_tx L, after_fn-Keeps, wake_worker-Keeps)

  pub prepared_change-Keeps :
      (host org : ℕ) (level : Level) (event : Event) (fn : M (Result (Option Alert)))
      → Keeps P fn
      → Keeps P (prepared_change d host org level event fn)
  unfolding prepared_change
  prepared_change-Keeps host org level event fn k =
      Yields-then Ready _ _ (prepares host org level) (λ p ready. change-Keeps p event fn ready k)

  lists_marked : Keeps P (query list_notify_pending)
  unfolding perform list_notify_pending
  lists_marked = Keeps-query L _ (record { at = λ w q. q })

  finds_id : (id : ℕ) → Keeps P (statement (get_by_id id))
  unfolding perform get_by_id
  finds_id id = Keeps-statement L _ (record { at = λ w q. q })

  deferred_fn-Keeps : (id : ℕ) → Keeps P (deferred_fn d id)
  unfolding deferred_fn
  deferred_fn-Keeps id = search (keeps_rules, finds_id)

  flush_one-Keeps : (a : Alert) (busy : Map ℕ Bool) → Keeps P (flush_one d a busy)
  unfolding flush_one
  flush_one-Keeps a busy = Keeps-if _ _ _ (Keeps-pure _) (
      Keeps-bind _ _ (read_row-Keeps L d _) (λ host.
        Keeps-on_some host _ _
          (λ h. Yields-then Ready _ _ (prepares a.host_id h.organization_id a.level) (λ p ready.
            Keeps-if _ _ _ (Keeps-pure _) (
              Keeps-bind _ _
                (change-Keeps _ Event.opened _ (still_ready p _ ready) (deferred_fn-Keeps a.id))
                (λ _. Keeps-pure _))))
          (Keeps-pure _)))

  flush_all-Keeps : (alerts : List Alert) (busy : Map ℕ Bool) → Keeps P (flush_all d alerts busy)
  unfolding flush_all
  flush_all-Keeps [] busy = search keeps_rules
  flush_all-Keeps (a ∷ rest) busy =
      search (keeps_rules, flush_one-Keeps, λ (b : Map ℕ Bool). flush_all-Keeps rest b)

  pub flush_deferred-Keeps : Keeps P (flush_deferred d)
  unfolding flush_deferred
  flush_deferred-Keeps = search (keeps_rules, lists_marked, flush_all-Keeps)
