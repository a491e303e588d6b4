-- ===== src/Alert/Preserved/Tables.antt =====
-- Invariants of the tables: a predicate that every statement of store/alerts.go keeps is kept by
-- every action of the engine, since the other sessions use the same statements and a rollback goes
-- back to tables for which it held.
use health_beat.Prelude.{arith, subst, ℕ, Bool, Option, none, some, List, [], ◌∷◌, ◌≡◌, refl, ◌+◌}
use health_beat.Prelude.Int.{ℤ}
use health_beat.Alert.Types.{Level, Alert, AlertKey, PendingCondition}
use health_beat.Alert.Table.{
  insert_if, update_returning, mark_found, Result, Db, Event, OutboxMessage, create_if_none_active,
  update_level, resolve, acknowledge, set_notify_pending, mark_pending, clear_pending, keep_alerts,
}
use health_beat.Alert.World.{
  World, Turn, pass, pop_fault, M, Act, act, act_all, turn, fault, wake, restore, perform,
}
use health_beat.Alert.Keeps.{Keeps, Lawful}
use health_beat.Alert.Recipients.{Dispatcher}
use health_beat.Alert.Change.{prepared_change}
use health_beat.Alert.Preserved.Lifecycle.{EngineRules}

pub record TableInvariant (Q : Db → Type 0) : Type 0 where
  pub creates :
      (host : ℕ) (key : AlertKey) (level : Level) (value threshold : Option ℤ) (now : ℕ) (db : Db)
      → Q db
      → Q (create_if_none_active host key level value threshold now db).1
  pub relevels :
      (id : ℕ) (level : Level) (value threshold : Option ℤ) (reopen : Bool) (now : ℕ) (db : Db)
      → Q db
      → Q (update_level id level value threshold reopen now db).1
  pub resolves :
      (id : ℕ) (value threshold : Option ℤ) (now : ℕ) (db : Db)
      → Q db
      → Q (resolve id value threshold now db).1
  pub acknowledges : (id by now : ℕ) (db : Db) → Q db → Q (acknowledge id by now db).1
  pub sets_mark :
      (id : ℕ) (mark : Bool) (now : ℕ) (db : Db) → Q db → Q (set_notify_pending id mark now db).1
  pub marks :
      (host : ℕ) (key : AlertKey) (level : Level) (at now : ℕ) (db : Db)
      → Q db
      → Q (mark_pending host key level at now db).1
  pub clears :
      (host : ℕ) (key : AlertKey) (now : ℕ) (db : Db) → Q db → Q (clear_pending host key now db).1
  pub deletes : (q : Alert → Bool) (db : Db) → Q db → Q (keep_alerts q db)

-- A predicate on the failures to come that holds of their rest.
pub record Onward (F : List Bool → Type 0) : Type 0 where
  pub onward : (b : Bool) (bs : List Bool) → F (b ∷ bs) → F bs

abbrev pub AnyFaults : List Bool → Type 0
AnyFaults bs = Unit

pub AnyFaults-Onward : Onward AnyFaults
AnyFaults-Onward = record { onward = λ b bs h. tt }

abbrev pub NoFaults : List Bool → Type 0
NoFaults bs = bs ≡ []

pub NoFaults-Onward : Onward NoFaults
NoFaults-Onward = record { onward = λ b bs h. ground arith }

abbrev pub Within : (Db → Type 0) → (List Bool → Type 0) → World → Type 0
Within Q F w = Q w.db × F w.faults

module _ {Q : Db → Type 0} {F : List Bool → Type 0} (I : TableInvariant Q) (O : Onward F) where
  act-keeps : (a : Act) (now : ℕ) (db : Db) → Q db → Q (act a now db)
  unfolding act
  act-keeps (Act.creates host key level) now db q = I.creates host key level none none now db q
  act-keeps (Act.relevels id level reopen) now db q = I.relevels id level none none reopen now db q
  act-keeps (Act.resolves id) now db q = I.resolves id none none now db q
  act-keeps (Act.acknowledges id by) now db q = I.acknowledges id by now db q
  act-keeps (Act.marks id mark) now db q = I.sets_mark id mark now db q
  act-keeps (Act.purges cutoff size) now db q = I.deletes _ db q
  act-keeps (Act.deletes_host host) now db q = I.deletes _ db q

  act_all-keeps : (acts : List Act) (now : ℕ) (db : Db) → Q db → Q (act_all acts now db)
  unfolding act_all
  act_all-keeps [] now db q = q
  act_all-keeps (a ∷ acts) now db q = act_all-keeps acts now (act a now db) (act-keeps a now db q)

  pass-keeps : (ts : List Turn) (w : World) → Within Q F w → Within Q F (pass ts w)
  pass-keeps [] w h = h
  pass-keeps (t ∷ ts) w h = (act_all-keeps t.acts (w.clock + t.elapsed) w.db h.0, h.1)

  pop_fault-keeps :
      (bs : List Bool) (w : World) → w.faults ≡ bs → Within Q F w → Within Q F (pop_fault bs w).1
  pop_fault-keeps [] w e h = h
  pop_fault-keeps (b ∷ bs) w e h = (h.0, O.onward b bs (subst F e h.1))

  pub lawful_tables : Lawful (Within Q F)
  unfolding wake restore turn fault
  lawful_tables = record {
    turns = λ w h. pass-keeps w.turns w h;
    faults = λ w h. pop_fault-keeps w.faults w refl h;
    wakes = λ w h. h;
    restores = λ v w hv hw. (hv.0, hw.1);
  }

  pub engine_rules :
      (d : Dispatcher)
      → ((host org : ℕ) (level : Level) (event : Event) (fn : M (Result (Option Alert)))
          → Keeps (Within Q F) fn
          → Keeps (Within Q F) (prepared_change d host org level event fn))
      → EngineRules d (Within Q F)
  unfolding perform
  engine_rules d changes = record {
    lawful = lawful_tables;
    changes = changes;
    creates = λ h k l v t. record { at = λ w q. (I.creates h k l v t w.clock w.db q.0, q.1) };
    relevels = λ i l v t b. record { at = λ w q. (I.relevels i l v t b w.clock w.db q.0, q.1) };
    resolves = λ i v t. record { at = λ w q. (I.resolves i v t w.clock w.db q.0, q.1) };
    marks = λ h k l a. record { at = λ w q. (I.marks h k l a w.clock w.db q.0, q.1) };
    clears = λ h k. record { at = λ w q. (I.clears h k w.clock w.db q.0, q.1) };
  }

  pub marked : (id : ℕ) (mark : Bool) → Keeps (Within Q F) (perform (set_notify_pending id mark))
  unfolding perform
  marked id mark = record { at = λ w q. (I.sets_mark id mark w.clock w.db q.0, q.1) }

-- Only `enqueue` writes the outbox.
module _ (R : List OutboxMessage → Type 0) where
  inserted_outbox :
      (o : Option Alert) (a : Alert) (db : Db) → R db.outbox → R (insert_if o a db).1.outbox
  inserted_outbox none a db h = h
  inserted_outbox (some b) a db h = h

  updated_outbox :
      (o : Option Alert) (p : Alert → Bool) (f : Alert → Alert) (db : Db)
      → R db.outbox
      → R (update_returning o p f db).1.outbox
  updated_outbox none p f db h = h
  updated_outbox (some a) p f db h = h

  marked_outbox :
      (o : Option PendingCondition) (host : ℕ) (key : AlertKey) (level : Level) (at : ℕ) (db : Db)
      → R db.outbox
      → R (mark_found o host key level at db).1.outbox
  marked_outbox none host key level at db h = h
  marked_outbox (some p) host key level at db h = h

  pub outbox-invariant : TableInvariant (λ db. R db.outbox)
  unfolding create_if_none_active update_level resolve acknowledge set_notify_pending mark_pending
      clear_pending
  outbox-invariant = record {
    creates = λ host k l v t now db h. inserted_outbox _ _ db h;
    relevels = λ id l v t b now db h. h;
    resolves = λ id v t now db h. updated_outbox _ _ _ db h;
    acknowledges = λ id by now db h. updated_outbox _ _ _ db h;
    sets_mark = λ id m now db h. h;
    marks = λ host k l at now db h. marked_outbox _ host k l at db h;
    clears = λ host k now db h. h;
    deletes = λ q db h. h;
  }
