-- ===== src/Alert/Invariants/WellFormed.antt =====
-- The identity of alerts in store/alerts.go: ids, and the unique index on active alerts.
use health_beat.Prelude.{
  ℕ, ◌≤◌, Bool, true, Option, none, some, List, map, ◌≡◌, refl, ◌==◌, nat_eq, string_eq, pair_eq,
  count, count-map, count-map_le, count-find_none, count-keep, arith, eqb, subst, sym, ◌∙◌,
  Bool-cases, &&-eq-true, ◌&&◌, inl, inr, ap,
}
use health_beat.Prelude.Int.{ℤ}
use health_beat.Alert.Types.{PendingCondition, Level, Alert, AlertKey, key_of, is_active}
use health_beat.Alert.Table.{
  Db, update_returning, mark_found, about, find_active, update_where, active_id, open_id, set_level,
  set_resolved, set_acknowledged, set_mark, new_alert, insert_if, create_if_none_active,
  update_level, resolve, acknowledge, set_notify_pending, mark_pending, clear_pending, enqueue,
}
use health_beat.Alert.Preserved.Tables.{TableInvariant}

abbrev pub has_id : ℕ → Alert → Bool
has_id id a = eqb a.id id

-- One active alert at most for a host and key, and one alert at most for an id, which is below the
-- next id.
pub record WellFormed (db : Db) : Type 0 where
  pub one_active : (host : ℕ) (key : AlertKey) → count (about host key) db.alerts ≤ 1
  pub one_id : (id : ℕ) → count (has_id id) db.alerts ≤ 1
  pub fresh : (id : ℕ) → db.next_id ≤ id → count (has_id id) db.alerts ≡ 0

-- A change of rows that neither moves nor activates any.
record Harmless (f : Alert → Alert) : Type 0 where
  pub same_id : (a : Alert) → (f a).id ≡ a.id
  pub same_about :
      (host : ℕ) (key : AlertKey) (a : Alert)
      → about host key (f a) ≡ true
      → about host key a ≡ true

map-WellFormed :
    (f : Alert → Alert) (db : Db)
    → Harmless f
    → WellFormed db
    → WellFormed (record db { alerts = map f db.alerts })
map-WellFormed f db h wf = record {
  one_active = λ host key. omega (
    arith,
    count-map_le (about host key) f db.alerts (h.same_about host key),
    wf.one_active host key,
  );
  one_id = λ id. omega (
    arith,
    count-map (has_id id) f db.alerts (λ a. ap (λ i. eqb i id) (h.same_id a)),
    wf.one_id id,
  );
  fresh = λ id le. omega (
    arith,
    count-map (has_id id) f db.alerts (λ a. ap (λ i. eqb i id) (h.same_id a)),
    wf.fresh id le,
  );
}

relevel-Harmless :
    (id : ℕ) (level : Level) (v t : Option ℤ) (reopen : Bool)
    → Harmless (update_where (active_id id) (set_level level v t reopen))
relevel-Harmless id level v t reopen = record {
  same_id = λ a. ground arith;
  same_about = λ host key a h. ground arith;
}

resolve-Harmless :
    (id now : ℕ) (v t : Option ℤ) → Harmless (update_where (active_id id) (set_resolved now v t))
resolve-Harmless id now v t = record {
  same_id = λ a. ground arith;
  same_about = λ host key a h. ground arith;
}

acknowledge-Harmless :
    (id now by : ℕ) → Harmless (update_where (open_id id) (set_acknowledged now by))
acknowledge-Harmless id now by = record {
  same_id = λ a. ground arith;
  same_about = λ host key a h. ground arith;
}

mark-Harmless : (id : ℕ) (mark : Bool) → Harmless (update_where (λ a. a.id == id) (set_mark mark))
mark-Harmless id mark = record {
  same_id = λ a. ground arith;
  same_about = λ host key a h. ground arith;
}

-- The new alert is about its own host and key only.
about-new :
    (host host' : ℕ) (key key' : AlertKey) (a : Alert) (alerts : List Alert)
    → a.host_id ≡ host
    → key_of a ≡ key
    → find_active host key alerts ≡ none
    → about host' key' a ≡ true
    → count (about host' key') alerts ≡ 0
about-new host host' key key' a alerts eh ek none_active h =
    let parts = &&-eq-true (is_active a && a.host_id == host') (key_of a == key') h in
    let same = &&-eq-true (is_active a) (a.host_id == host') parts.0 in
    let zero_count = count-find_none (about host key) alerts none_active in
    subst (λ k. count (about host' k) alerts ≡ 0)
      (sym ek ∙ (pair_eq.same_iff (key_of a) key').0 parts.1)
      (subst (λ i. count (about i key) alerts ≡ 0)
        (sym eh ∙ (nat_eq.same_iff a.host_id host').0 same.1) zero_count)

inserted-WellFormed :
    (host : ℕ) (key : AlertKey) (a : Alert) (db : Db) (o : Option Alert)
    → find_active host key db.alerts ≡ o
    → a.host_id ≡ host
    → key_of a ≡ key
    → a.id ≡ db.next_id
    → WellFormed db
    → WellFormed (insert_if o a db).1
unfolding count
inserted-WellFormed host key a db (some old) e eh ek ei wf = wf
inserted-WellFormed host key a db none e eh ek ei wf = record {
  one_active = λ host' key'. elim (Bool-cases (about host' key' a)) [
    | inl eq ↦ ground (arith, about-new host host' key key' a db.alerts eh ek e eq)
    | inr ne ↦ ground (arith, wf.one_active host' key')
  ];
  one_id = λ id. ground (arith, wf.one_id id, wf.fresh id);
  fresh = λ id le. ground (arith, wf.fresh id);
}

create-WellFormed :
    (host : ℕ) (key : AlertKey) (level : Level) (v t : Option ℤ) (now : ℕ) (db : Db)
    → WellFormed db
    → WellFormed (create_if_none_active host key level v t now db).1
unfolding create_if_none_active
create-WellFormed host key level v t now db wf =
    inserted-WellFormed host key (new_alert db now host key level v t) db _ refl refl refl refl wf

updated-WellFormed :
    (o : Option Alert) (p : Alert → Bool) (f : Alert → Alert) (db : Db)
    → Harmless (update_where p f)
    → WellFormed db
    → WellFormed (update_returning o p f db).1
updated-WellFormed none p f db h wf = wf
updated-WellFormed (some a) p f db h wf = map-WellFormed _ db h wf

-- Only the alerts and the next id matter.
pending-WellFormed :
    (o : Option PendingCondition) (host : ℕ) (key : AlertKey) (level : Level) (at : ℕ) (db : Db)
    → WellFormed db
    → WellFormed (mark_found o host key level at db).1
pending-WellFormed none host key level at db wf = record {
  one_active = wf.one_active;
  one_id = wf.one_id;
  fresh = wf.fresh;
}
pending-WellFormed (some p) host key level at db wf = record {
  one_active = wf.one_active;
  one_id = wf.one_id;
  fresh = wf.fresh;
}

pub WellFormed-invariant : TableInvariant WellFormed
unfolding update_level resolve acknowledge set_notify_pending mark_pending clear_pending enqueue
WellFormed-invariant = record {
  creates = create-WellFormed;
  relevels = λ id l v t b now db wf. map-WellFormed _ db (relevel-Harmless id l v t b) wf;
  resolves = λ id v t now db wf. updated-WellFormed _ _ _ db (resolve-Harmless id now v t) wf;
  acknowledges = λ id by now db wf. updated-WellFormed _ _ _ db (acknowledge-Harmless id now by) wf;
  sets_mark = λ id m now db wf. map-WellFormed _ db (mark-Harmless id m) wf;
  marks = λ h k l at now db wf. pending-WellFormed _ h k l at db wf;
  clears =
      λ h k now db wf. record { one_active = wf.one_active; one_id = wf.one_id; fresh = wf.fresh };
  deletes = λ q db wf. record {
    one_active = λ h k. omega (arith, count-keep (about h k) q db.alerts, wf.one_active h k);
    one_id = λ i. omega (arith, count-keep (has_id i) q db.alerts, wf.one_id i);
    fresh = λ i le. omega (arith, count-keep (has_id i) q db.alerts, wf.fresh i le);
  };
}
