-- ===== src/Alert/Invariants/Settled.antt =====
-- What happens to a resolved alert in store/alerts.go: only its mark `notify_pending` is written, or
-- the row is deleted.
use health_beat.Prelude.{
  ℕ, Bool, true, false, Option, none, some, map, ◌≡◌, ap, ◌∙◌, ◌==◌, nat_eq, All, All-map, All-keep,
  All-weaken, ◌<◌, refl, sym, if-holds, arith,
}
use health_beat.Alert.Types.{
  Level, Status, Alert, AlertKey, PendingCondition, is_active, status_active,
}
use health_beat.Alert.Table.{
  Db, update_returning, mark_found, insert_if, update_where, active_id, open_id, set_mark,
  create_if_none_active, update_level, resolve, acknowledge, set_notify_pending, mark_pending,
  clear_pending, enqueue,
}
use health_beat.Alert.Preserved.Tables.{TableInvariant}

abbrev pub SameButMark : Alert → Alert → Type 0
SameButMark a b = set_mark false b ≡ set_mark false a

-- The id of `a` was given, and each row of it is `a`, with any mark.
abbrev pub Recorded : Alert → Db → Type 0
Recorded a db = (a.id < db.next_id) × All (λ b. b.id ≡ a.id → SameButMark a b) db.alerts

module _ (a : Alert) (done : a.status ≡ Status.resolved) where
  resolved_row : (b : Alert) → SameButMark a b → b.status ≡ Status.resolved
  resolved_row b h = ap (λ (x : Alert). x.status) h ∙ done

  -- An update of active rows passes it by.
  active-untouched :
      (p : Alert → Bool) (f : Alert → Alert) (b : Alert)
      → (p b ≡ true → is_active b ≡ true)
      → SameButMark a b
      → SameButMark a (update_where p f b)
  active-untouched p f b only_active h =
      ground (arith, only_active, ap status_active (resolved_row b h))

  marked-same :
      (p : Alert → Bool) (mark : Bool) (b : Alert)
      → SameButMark a b
      → SameButMark a (update_where p (set_mark mark) b)
  marked-same p mark b h = if-holds (SameButMark a) (p b) _ b h h

  map-Recorded :
      (p : Alert → Bool) (f : Alert → Alert) (db : Db)
      → ((b : Alert) → p b ≡ true → is_active b ≡ true)
      → ((b : Alert) → (f b).id ≡ b.id)
      → Recorded a db
      → Recorded a (record db { alerts = map (update_where p f) db.alerts })
  map-Recorded p f db only_active same_id h = (
    h.0,
    All-map (λ b. b.id ≡ a.id → SameButMark a b) (update_where p f) db.alerts
        (λ b k e.
          active-untouched p f b (only_active b)
            (k (sym (if-holds (λ (c : Alert). c.id ≡ b.id) (p b) _ _ (same_id b) refl) ∙ e)))
        h.1,
  )

  updated-Recorded :
      (o : Option Alert) (p : Alert → Bool) (f : Alert → Alert) (db : Db)
      → ((b : Alert) → p b ≡ true → is_active b ≡ true)
      → ((b : Alert) → (f b).id ≡ b.id)
      → Recorded a db
      → Recorded a (update_returning o p f db).1
  updated-Recorded none p f db only_active same_id h = h
  updated-Recorded (some b) p f db only_active same_id h = map-Recorded p f db only_active same_id h

  -- A new row has an id that was not given.
  inserted-Recorded :
      (o : Option Alert) (b : Alert) (db : Db)
      → b.id ≡ db.next_id
      → Recorded a db
      → Recorded a (insert_if o b db).1
  inserted-Recorded none b db new h =
      (omega (arith, h.0), ((λ e. absurd (omega (arith, h.0, e, new))), h.1))
  inserted-Recorded (some old) b db new h = h

  pending-Recorded :
      (o : Option PendingCondition) (host : ℕ) (key : AlertKey) (level : Level) (at : ℕ) (db : Db)
      → Recorded a db
      → Recorded a (mark_found o host key level at db).1
  pending-Recorded none host key level at db h = h
  pending-Recorded (some p) host key level at db h = h

  active_id-active : (id : ℕ) (b : Alert) → active_id id b ≡ true → is_active b ≡ true
  active_id-active id b h = ground arith

  open_id-active : (id : ℕ) (b : Alert) → open_id id b ≡ true → is_active b ≡ true
  open_id-active id b h = ground arith

  pub Recorded-invariant : TableInvariant (Recorded a)
  unfolding create_if_none_active update_level resolve acknowledge set_notify_pending mark_pending
      clear_pending enqueue
  Recorded-invariant = record {
    creates = λ host k l v t now db h. inserted-Recorded _ _ db refl h;
    relevels = λ id l v t b now db h. map-Recorded _ _ db (active_id-active id) (λ b. refl) h;
    resolves = λ id v t now db h. updated-Recorded _ _ _ db (active_id-active id) (λ b. refl) h;
    acknowledges = λ id by now db h. updated-Recorded _ _ _ db (open_id-active id) (λ b. refl) h;
    sets_mark = λ id m now db h. (
      h.0,
      All-map (λ b. b.id ≡ a.id → SameButMark a b) _ db.alerts
          (λ b k e.
            marked-same (λ c. c.id == id) m b
              (k (sym (if-holds (λ (c : Alert). c.id ≡ b.id) (b.id == id) _ _ refl refl) ∙ e)))
          h.1,
    );
    marks = λ host k l at now db h. pending-Recorded _ host k l at db h;
    clears = λ host k now db h. h;
    deletes = λ q db h. (h.0, All-weaken _ _ _ (λ b k. k.0) (All-keep _ _ db.alerts h.1));
  }
