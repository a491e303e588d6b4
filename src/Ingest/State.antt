-- ===== src/Ingest/State.antt =====
-- model/ingest_v4.go (`NextSystemState`) and ingest/ingest.go (`oomIncreased`): the state that is kept
-- from one report to the next.
use health_beat.Prelude.{
  ℕ, Bool, true, false, not, ◌&&◌, List, Option, none, some, ltb, eqb, if◌then◌else◌, ◌≡◌, ◌≢◌,
  refl, ap, ◌∙◌, arith,
}
use health_beat.Ingest.Types.{
  MemoryDetail, Temperature, Raid, Capacity, Processes, Updates, TimeSync, Dns, Report,
}
use health_beat.Ingest.Sections.{is_none}
use health_beat.Ingest.Timed.{no_entries}

pub record SystemState : Type 0 where
  pub oom_kills : Option ℕ
  pub oom_last_increase_at : Option ℕ
  pub temperatures : List Temperature
  pub raid : List Raid
  pub capacity : Option Capacity
  pub processes : Option Processes
  pub updates : Option Updates
  pub time_sync : Option TimeSync
  pub dns : Option Dns

-- `SystemState.empty`
unfoldable pub empty : SystemState → Bool
empty s =
    is_none s.oom_kills
    && is_none s.oom_last_increase_at
    && no_entries s.temperatures
    && no_entries s.raid
    && is_none s.capacity
    && is_none s.processes
    && is_none s.updates
    && is_none s.time_sync
    && is_none s.dns

abbrev pub kills_of : Option MemoryDetail → Option ℕ
kills_of none = none
kills_of (some m) = m.oom_kills

abbrev pub raised : Option ℕ → ℕ → Option ℕ → ℕ → Option ℕ
raised none n last now = last
raised (some k) n last now = if ltb k n then some now else last

-- When the counter last rose, after a report with these kills.
unfoldable pub last_increase : Option SystemState → Option ℕ → ℕ → Option ℕ
last_increase prev none now = none
last_increase none (some n) now = none
last_increase (some p) (some n) now = raised p.oom_kills n p.oom_last_increase_at now

unfoldable pub built_state : Option SystemState → Report → ℕ → SystemState
unfolding last_increase
built_state prev r now = record {
  oom_kills = kills_of r.memory_detail;
  oom_last_increase_at = last_increase prev (kills_of r.memory_detail) now;
  temperatures = r.temperatures;
  raid = r.raid;
  capacity = r.capacity;
  processes = r.processes;
  updates = r.updates;
  time_sync = r.time_sync;
  dns = r.dns;
}

-- `NextSystemState`
unfoldable pub next_system_state : Option SystemState → Report → ℕ → Option SystemState
unfolding built_state empty
next_system_state prev r now =
    if empty (built_state prev r now) then none else some (built_state prev r now)

abbrev pub differs : Option ℕ → ℕ → Bool
differs none t = true
differs (some u) t = not (eqb t u)

abbrev pub last_of : Option SystemState → Option ℕ
last_of none = none
last_of (some s) = s.oom_last_increase_at

abbrev pub changed : Option ℕ → Option ℕ → Bool
changed last none = false
changed last (some t) = differs last t

-- `oomIncreased`
unfoldable pub oom_increased : Option SystemState → Option SystemState → Bool
oom_increased prev next = changed (last_of prev) (last_of next)

abbrev pub above : Option ℕ → ℕ → Bool
above none n = false
above (some k) n = ltb k n

-- Both counters are known, and the report's is larger.
abbrev pub counter_rose : Option SystemState → Option ℕ → Bool
counter_rose prev none = false
counter_rose none (some n) = false
counter_rose (some p) (some n) = above p.oom_kills n

without_kills :
    (prev : Option SystemState) (kills : Option ℕ) (now : ℕ)
    → is_none kills ≡ true
    → none ≡ last_increase prev kills now
unfolding last_increase
without_kills prev none now h = refl
without_kills prev (some n) now h = ground (arith, h)

next-last :
    (prev : Option SystemState) (r : Report) (now : ℕ)
    → last_of (next_system_state prev r now) ≡ last_increase prev (kills_of r.memory_detail) now
unfolding next_system_state empty built_state
next-last prev r now = by_empty (empty (built_state prev r now)) refl
  where
    by_empty :
        (b : Bool)
        → empty (built_state prev r now) ≡ b
        → last_of (if b then none else some (built_state prev r now))
          ≡ last_increase prev (kills_of r.memory_detail) now
    by_empty true e = without_kills prev (kills_of r.memory_detail) now (ground (arith, e))
    by_empty false e = refl

changed-last :
    (prev : Option SystemState) (kills : Option ℕ) (now : ℕ)
    → last_of prev ≢ some now
    → changed (last_of prev) (last_increase prev kills now) ≡ counter_rose prev kills
unfolding last_increase
changed-last prev none now h = refl
changed-last none (some n) now h = refl
changed-last (some p) (some n) now h = ground (arith, h)

-- The engine is told of a risen counter exactly where the previous and the new count of kills are
-- known and the new one is larger, if the clock has moved on since the last rise: not on a first
-- count, nor where the counter went back (a restart), nor where it is not reported.
pub oom_increased-rose :
    (prev : Option SystemState) (r : Report) (now : ℕ)
    → last_of prev ≢ some now
    → oom_increased prev (next_system_state prev r now)
      ≡ counter_rose prev (kills_of r.memory_detail)
unfolding oom_increased
oom_increased-rose prev r now h =
    ap (changed (last_of prev)) (next-last prev r now)
    ∙ changed-last prev (kills_of r.memory_detail) now h
