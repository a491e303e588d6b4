-- ===== src/Alert/Invariants/Rows.antt =====
-- The columns of a row of `alerts` that the code of store/alerts.go has to keep together: no
-- constraint of the schema ties the status to the columns of acknowledgement and end.
use health_beat.Prelude.{
  ℕ, Bool, true, false, Option, none, some, ◌≡◌, refl, ◌==◌, nat_eq, ◌&&◌, not, All, All-map,
  All-keep, All-weaken, arith,
}
use health_beat.Prelude.Int.{ℤ}
use health_beat.Alert.Types.{Level, Status, Alert, AlertKey, PendingCondition}
use health_beat.Alert.Table.{
  Db, update_returning, mark_found, insert_if, update_where, active_id, open_id, set_level,
  set_resolved, set_acknowledged, set_mark, create_if_none_active, update_level, resolve,
  acknowledge, set_notify_pending, mark_pending, clear_pending, enqueue,
}
use health_beat.Alert.Preserved.Tables.{TableInvariant}

abbrev given : Option ℕ → Bool
given none = false
given (some n) = true

-- An open alert has neither an acknowledgement nor an end; an acknowledged one has the time and
-- the user of its acknowledgement, and no end; a resolved one has an end.
abbrev pub status_fits : Status → Option ℕ → Option ℕ → Option ℕ → Bool
status_fits Status.opened at by ended = not (given at) && not (given by) && not (given ended)
status_fits Status.acknowledged at by ended = given at && given by && not (given ended)
status_fits Status.resolved at by ended = given ended

abbrev pub Coherent : Alert → Type 0
Coherent a = status_fits a.status a.acknowledged_at a.acknowledged_by a.resolved_at ≡ true

abbrev pub RowsCoherent : Db → Type 0
RowsCoherent db = All Coherent db.alerts

relevel-Coherent :
    (id : ℕ) (l : Level) (v t : Option ℤ) (reopen : Bool) (a : Alert)
    → Coherent a
    → Coherent (update_where (active_id id) (set_level l v t reopen) a)
relevel-Coherent id l v t reopen a h = ground arith

acknowledge-Coherent :
    (id now by : ℕ) (a : Alert)
    → Coherent a
    → Coherent (update_where (open_id id) (set_acknowledged now by) a)
acknowledge-Coherent id now by a h = ground arith

resolve-Coherent :
    (id now : ℕ) (v t : Option ℤ) (a : Alert)
    → Coherent a
    → Coherent (update_where (active_id id) (set_resolved now v t) a)
resolve-Coherent id now v t a h = ground arith

mark-Coherent :
    (id : ℕ) (m : Bool) (a : Alert)
    → Coherent a
    → Coherent (update_where (λ b. b.id == id) (set_mark m) a)
mark-Coherent id m a h = ground arith

updated-RowsCoherent :
    (o : Option Alert) (p : Alert → Bool) (f : Alert → Alert) (db : Db)
    → ((a : Alert) → Coherent a → Coherent (update_where p f a))
    → RowsCoherent db
    → RowsCoherent (update_returning o p f db).1
updated-RowsCoherent none p f db fits h = h
updated-RowsCoherent (some a) p f db fits h = All-map Coherent _ db.alerts fits h

inserted-RowsCoherent :
    (o : Option Alert) (a : Alert) (db : Db)
    → Coherent a
    → RowsCoherent db
    → RowsCoherent (insert_if o a db).1
inserted-RowsCoherent none a db fits h = (fits, h)
inserted-RowsCoherent (some old) a db fits h = h

pending-RowsCoherent :
    (o : Option PendingCondition) (host : ℕ) (key : AlertKey) (level : Level) (at : ℕ) (db : Db)
    → RowsCoherent db
    → RowsCoherent (mark_found o host key level at db).1
pending-RowsCoherent none host key level at db h = h
pending-RowsCoherent (some p) host key level at db h = h

pub RowsCoherent-invariant : TableInvariant RowsCoherent
unfolding create_if_none_active update_level resolve acknowledge set_notify_pending mark_pending
    clear_pending enqueue
RowsCoherent-invariant = record {
  creates = λ host k l v t now db h. inserted-RowsCoherent _ _ db refl h;
  relevels = λ id l v t b now db h. All-map Coherent _ db.alerts (relevel-Coherent id l v t b) h;
  resolves = λ id v t now db h. updated-RowsCoherent _ _ _ db (resolve-Coherent id now v t) h;
  acknowledges = λ id by now db h. updated-RowsCoherent _ _ _ db (acknowledge-Coherent id now by) h;
  sets_mark = λ id m now db h. All-map Coherent _ db.alerts (mark-Coherent id m) h;
  marks = λ host k l at now db h. pending-RowsCoherent _ host k l at db h;
  clears = λ host k now db h. h;
  deletes = λ q db h. All-weaken _ _ _ (λ a k. k.0) (All-keep Coherent _ db.alerts h);
}
