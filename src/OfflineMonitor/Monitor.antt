-- ===== src/OfflineMonitor/Monitor.antt =====
-- offlinemonitor/monitor.go, and the statements of store/hosts.go that it uses: which hosts count as
-- offline. The alert that the engine raises for such a host is the subject of Alert/; here the calls
-- of RaiseOffline are listed in their order. `lists` tells whether the listing succeeds, `marks`
-- whether the statement that marks a host does.
use health_beat.Prelude.{
  ℕ, ◌+◌, ◌*◌, Bool, false, ◌&&◌, List, [], ◌∷◌, Option, none, some, map, keep, ltb, ◌==◌, nat_eq,
  if◌then◌else◌,
}

-- A host with its row of host_status.
pub record HostStatus : Type 0 where
  pub id : ℕ
  pub organization_id : ℕ
  pub interval_seconds : ℕ
  pub online : Bool
  pub last_seen : Option ℕ

abbrev pub second : ℕ
second = 1_000_000_000

abbrev pub grace_multiplier : ℕ
grace_multiplier = 3

abbrev pub silent_since : Option ℕ → ℕ → ℕ → Bool
silent_since none limit now = false
silent_since (some seen) limit now = ltb (seen + limit) now

unfoldable pub is_stale : ℕ → HostStatus → Bool
is_stale now h =
    h.online && silent_since h.last_seen (h.interval_seconds * grace_multiplier * second) now

-- `ListStale`
unfoldable pub list_stale : ℕ → List HostStatus → List HostStatus
unfolding is_stale
list_stale now hosts = keep (is_stale now) hosts

abbrev pub offline : HostStatus → HostStatus
offline h = record h { online = false }

abbrev pub marked : ℕ → HostStatus → HostStatus
marked id h = if h.id == id then offline h else h

-- `MarkOffline`
unfoldable pub mark_offline : ℕ → List HostStatus → List HostStatus
mark_offline id hosts = map (marked id) hosts

abbrev pub Checked : Type 0
Checked = List (ℕ × ℕ) × List HostStatus

abbrev pub raising : HostStatus → Checked → Checked
raising c r = ((c.id, c.organization_id) ∷ r.0, r.1)

-- The loop of `check` over the stale hosts: the calls of RaiseOffline, and the table.
unfoldable pub check_each : (ℕ → Bool) → List HostStatus → List HostStatus → Checked
unfolding mark_offline
check_each marks [] hosts = ([], hosts)
check_each marks (c ∷ cs) hosts =
    let rest = check_each marks cs (mark_offline c.id hosts) in
    let skipped = check_each marks cs hosts in if marks c.id then raising c rest else skipped

-- `check`
unfoldable pub check : Bool → (ℕ → Bool) → ℕ → List HostStatus → Checked
unfolding check_each list_stale
check lists marks now hosts =
    if lists then check_each marks (list_stale now hosts) hosts else ([], hosts)
