-- ===== src/Alert/Table.antt =====
-- The statements of store/alerts.go on the tables `alerts`, `alert_pending` and
-- `notification_outbox`. A statement takes the server's clock (SQL `now()`) and the tables, and
-- returns its result with the new tables. The unique index on active alerts
-- (migrations/000002_alert_acknowledged_active.up.sql) is the test in `create_if_none_active`.
use health_beat.Prelude.{
  ℕ, ◌+◌, String, Bool, false, true, Option, none, some, List, ◌∷◌, map, ◌&&◌, not, ◌==◌, nat_eq,
  string_eq, pair_eq, find?, keep, any, take, sort, ltb, leb, ◌||◌, if◌then◌else◌,
}
use health_beat.Prelude.Int.{ℤ}
use health_beat.Alert.Types.{Level, Status, Alert, AlertKey, key_of, is_active, PendingCondition}

-- `not_found` is store.ErrNotFound, `failed` any other error of the database.
pub data Result {ℓ} (A : Type ℓ) : Type ℓ where
  ok : A → Result A
  not_found : Result A
  failed : Result A

-- The event that a notification is about.
pub data Event : Type 0 where
  opened level_changed resolved : Event

-- A row of notification_outbox as the alert engine writes it (store.OutboxMessage).
pub record OutboxMessage : Type 0 where
  pub channel : String
  pub recipient : String
  pub title : String
  pub body : String
  pub alert_id : ℕ
  pub alert_event : Event
  pub alert_level : Level

pub record Db : Type 0 where
  pub alerts : List Alert
  pub pending : List PendingCondition
  pub outbox : List OutboxMessage
  pub next_id : ℕ

abbrev pub Statement : Type 0 → Type 0
Statement A = ℕ → Db → Result A × Db

abbrev pub about : ℕ → AlertKey → Alert → Bool
about host key a = is_active a && a.host_id == host && key_of a == key

-- The active alert of a host about a key.
abbrev pub find_active : ℕ → AlertKey → List Alert → Option Alert
find_active host key = find? (about host key)

abbrev pub find_id : ℕ → List Alert → Option Alert
find_id id = find? (λ a. a.id == id)

abbrev pub or_not_found : {A : Type 0} → Option A → Result A
or_not_found none = not_found
or_not_found (some a) = ok a

-- Applies `f` to the rows that pass the test (an UPDATE … WHERE).
abbrev pub update_where : (Alert → Bool) → (Alert → Alert) → Alert → Alert
update_where p f a = if p a then f a else a

-- UPDATE … RETURNING of the row that the test finds.
abbrev pub update_returning :
    Option Alert → (Alert → Bool) → (Alert → Alert) → Db → Result Alert × Db
update_returning none p f db = (not_found, db)
update_returning (some a) p f db =
    (ok (f a), record db { alerts = map (update_where p f) db.alerts })

abbrev pub new_alert : Db → ℕ → ℕ → AlertKey → Level → Option ℤ → Option ℤ → Alert
new_alert db now host key level value threshold = record {
  id = db.next_id;
  host_id = host;
  alert_type = key.0;
  subject = key.1;
  level = level;
  status = Status.opened;
  value = value;
  threshold = threshold;
  created_at = now;
  acknowledged_at = none;
  acknowledged_by = none;
  resolved_at = none;
  notify_pending = false;
}

abbrev pub insert_if : Option Alert → Alert → Db → Result (Option Alert) × Db
insert_if (some old) a db = (ok none, db)
insert_if none a db = (ok (some a), record db { alerts = a ∷ db.alerts; next_id = db.next_id + 1 })

-- `some` is the created alert; `none` says that an active alert was there (created = false).
unfoldable pub create_if_none_active :
    ℕ → AlertKey → Level → Option ℤ → Option ℤ → Statement (Option Alert)
create_if_none_active host key level value threshold now db =
    insert_if (find_active host key db.alerts) (new_alert db now host key level value threshold) db

-- GetActiveSubject; GetActive is this at the subject "".
unfoldable pub get_active_subject : ℕ → AlertKey → Statement Alert
get_active_subject host key now db = (or_not_found (find_active host key db.alerts), db)

unfoldable pub get_by_id : ℕ → Statement Alert
get_by_id id now db = (or_not_found (find_id id db.alerts), db)

unfoldable pub list_active_for_host : ℕ → Statement (List Alert)
list_active_for_host host now db = (ok (keep (λ a. a.host_id == host && is_active a) db.alerts), db)

-- ORDER BY created_at, id
abbrev earlier : Alert → Alert → Bool
earlier a b = ltb a.created_at b.created_at || (a.created_at == b.created_at && leb a.id b.id)

-- Filters by the mark and by the active statuses; the oldest is first.
unfoldable pub list_notify_pending : Statement (List Alert)
list_notify_pending now db =
    (ok (sort earlier (keep (λ a. a.notify_pending && is_active a) db.alerts)), db)

abbrev pub active_id : ℕ → Alert → Bool
active_id id a = a.id == id && is_active a

abbrev pub set_level : Level → Option ℤ → Option ℤ → Bool → Alert → Alert
set_level level value threshold reopen a = record a {
  level = level;
  value = value;
  threshold = threshold;
  status = if reopen then Status.opened else a.status;
  acknowledged_at = if reopen then none else a.acknowledged_at;
  acknowledged_by = if reopen then none else a.acknowledged_by;
}

unfoldable pub update_level : ℕ → Level → Option ℤ → Option ℤ → Bool → Statement Unit
update_level id level value threshold reopen now db = (
  ok tt,
  record db {
    alerts = map (update_where (active_id id) (set_level level value threshold reopen)) db.alerts;
  },
)

abbrev pub coalesce : Option ℤ → Option ℤ → Option ℤ
coalesce none old = old
coalesce (some v) old = some v

abbrev pub set_resolved : ℕ → Option ℤ → Option ℤ → Alert → Alert
set_resolved now value threshold a = record a {
  status = Status.resolved;
  resolved_at = some now;
  value = coalesce value a.value;
  threshold = coalesce threshold a.threshold;
}

-- Returns the updated row; `not_found` where it is not there or resolved already.
unfoldable pub resolve : ℕ → Option ℤ → Option ℤ → Statement Alert
resolve id value threshold now db =
    update_returning (find? (active_id id) db.alerts) (active_id id)
      (set_resolved now value threshold) db

abbrev pub set_acknowledged : ℕ → ℕ → Alert → Alert
set_acknowledged now by a = record a {
  status = Status.acknowledged;
  acknowledged_at = some now;
  acknowledged_by = some by;
}

abbrev pub status_open : Status → Bool
status_open Status.opened = true
status_open _ = false

abbrev pub open_id : ℕ → Alert → Bool
open_id id a = a.id == id && status_open a.status

unfoldable pub acknowledge : ℕ → ℕ → Statement Alert
acknowledge id by now db =
    update_returning (find? (open_id id) db.alerts) (open_id id) (set_acknowledged now by) db

abbrev pub set_mark : Bool → Alert → Alert
set_mark mark a = record a { notify_pending = mark }

-- The test `notify_pending <> $2` of the statement only spares a write of the same value.
unfoldable pub set_notify_pending : ℕ → Bool → Statement Unit
set_notify_pending id mark now db =
    (ok tt, record db { alerts = map (update_where (λ a. a.id == id) (set_mark mark)) db.alerts })

abbrev pub same_condition : ℕ → AlertKey → PendingCondition → Bool
same_condition host key p = p.host == host && p.key == key

unfoldable pub list_pending : ℕ → Statement (List PendingCondition)
list_pending host now db = (ok (keep (λ p. p.host == host) db.pending), db)

abbrev pub mark_found : Option PendingCondition → ℕ → AlertKey → Level → ℕ → Db → Result ℕ × Db
mark_found none host key level at db = (
  ok at,
  record db { pending = record { host = host; key = key; level = level; since = at } ∷ db.pending },
)
mark_found (some p) host key level at db = (
  ok p.since,
  record db {
    pending =
        map (λ q. if same_condition host key q then record q { level = level } else q) db.pending;
  },
)

-- A condition that is there keeps its start, and takes the new level.
unfoldable pub mark_pending : ℕ → AlertKey → Level → ℕ → Statement ℕ
mark_pending host key level at now db =
    mark_found (find? (same_condition host key) db.pending) host key level at db

unfoldable pub clear_pending : ℕ → AlertKey → Statement Unit
clear_pending host key now db =
    (ok tt, record db { pending = keep (λ p. not (same_condition host key p)) db.pending })

-- Outbox.Enqueue
unfoldable pub enqueue : OutboxMessage → Statement Unit
enqueue m now db = (ok tt, record db { outbox = m ∷ db.outbox })

abbrev pub keep_alerts : (Alert → Bool) → Db → Db
keep_alerts q db = record db { alerts = keep q db.alerts }

abbrev ended_before : ℕ → Option ℕ → Bool
ended_before cutoff none = false
ended_before cutoff (some t) = ltb t cutoff

abbrev expired : ℕ → Alert → Bool
expired cutoff a = not (is_active a) && ended_before cutoff a.resolved_at

-- ORDER BY resolved_at; rows without one are not compared.
abbrev ended_first : Alert → Alert → Bool
ended_first a b = elim b.resolved_at as (λ o. Bool) [
  | none ↦ true
  | some t ↦ ended_before (t + 1) a.resolved_at
]

-- One batch of `PurgeResolvedBefore`.
abbrev pub purge_resolved_before : ℕ → ℕ → Db → Db
purge_resolved_before cutoff size db =
    let picked = take size (sort ended_first (keep (expired cutoff) db.alerts)) in
    keep_alerts (λ a. not (any (λ b. b.id == a.id) picked)) db

-- The rows that go with a host (ON DELETE CASCADE).
abbrev pub delete_host : ℕ → Db → Db
delete_host host db = keep_alerts (λ a. not (a.host_id == host)) db
