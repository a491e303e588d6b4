-- ===== src/Maintenance/Window.antt =====
-- maintenance/maintenance.go and model/maintenance.go: the occurrences of a maintenance window, with
-- its exceptions, and how long maintenance goes on without a break. The days of a
-- recurring window are in Calendar; `occurrences` of a window is a parameter of `active_at`.
use health_beat.Prelude.{
  ℕ, ◌+◌, ◌*◌, min, max, Bool, ◌&&◌, String, List, [], ◌∷◌, ◌++◌, Option, none, some, sort, ltb,
  leb, eqb, string_eq, if◌then◌else◌,
}
use health_beat.Prelude.Int.{ℤ}

pub record MaintenanceOverride : Type 0 where
  pub occurrence_start : ℕ
  pub ended_at : Option ℕ

-- The fields that the calendar and the validation read. A calendar day is a number of days.
pub record MaintenanceWindow : Type 0 where
  pub id : ℕ
  pub title : String
  pub recurrence : String
  pub starts_at : Option ℕ
  pub ends_at : Option ℕ
  pub start_minute : Option ℤ
  pub duration_minutes : Option ℤ
  pub repeat_every : ℤ
  pub weekdays : Option ℤ
  pub month_day : Option ℤ
  pub month_week : Option ℤ
  pub month_weekday : Option ℤ
  pub valid_from : Option ℕ
  pub valid_until : Option ℕ
  pub ended_at : Option ℕ
  pub host_ids : List ℕ
  pub org_ids : List ℕ
  pub overrides : List MaintenanceOverride

pub record Occurrence : Type 0 where
  pub window_id : ℕ
  pub start : ℕ
  pub end : ℕ

-- The earlier of the end and a time, if there is one.
abbrev pub ends_by : Option ℕ → Occurrence → Occurrence
ends_by none o = o
ends_by (some t) o = if ltb t o.end then record o { end = t } else o

-- The exceptions of `apply`: none where the occurrence is skipped.
unfoldable pub apply_overrides : List MaintenanceOverride → Occurrence → Option Occurrence
apply_overrides [] o = some o
apply_overrides (ov ∷ ovs) o =
    let here = elim ov.ended_at as (λ e. Option Occurrence) [
      | none ↦ none
      | some t ↦ apply_overrides ovs (ends_by (some t) o)
    ] in
    let rest = apply_overrides ovs o in if eqb ov.occurrence_start o.start then here else rest

abbrev pub lasting : Occurrence → Option Occurrence
lasting o = if ltb o.start o.end then some o else none

abbrev pub finished : Option ℕ → Option Occurrence → Option Occurrence
finished ended none = none
finished ended (some o) = lasting (ends_by ended o)

-- `apply`; none is an occurrence that does not take place.
unfoldable pub apply : MaintenanceWindow → Occurrence → Option Occurrence
unfolding apply_overrides
apply w o = finished w.ended_at (apply_overrides w.overrides o)

abbrev pub touching : ℕ → ℕ → Option Occurrence → List Occurrence
touching from to none = []
touching from to (some o) = if ltb o.start to && ltb from o.end then o ∷ [] else []

abbrev pub both : MaintenanceWindow → Option ℕ → Option ℕ → Option Occurrence
both w (some s) (some e) = some (record { window_id = w.id; start = s; end = e })
both w _ _ = none

abbrev pub applied : MaintenanceWindow → Option Occurrence → Option Occurrence
applied w none = none
applied w (some o) = apply w o

-- `Occurrences` of a window that does not recur.
unfoldable pub once_occurrences : MaintenanceWindow → ℕ → ℕ → List Occurrence
unfolding apply
once_occurrences w from to =
    if ltb from to then touching from to (applied w (both w w.starts_at w.ends_at)) else []

-- `horizon`
abbrev pub horizon : ℕ
horizon = 32 * (24 * (3600 * 1_000_000_000))

abbrev pub covers : ℕ → Occurrence → Bool
covers t o = leb o.start t && ltb t o.end

abbrev pub later_end : ℕ → Occurrence → Option ℕ → Option ℕ
later_end t o none = if covers t o then some o.end else none
later_end t o (some u) = if covers t o && ltb u o.end then some o.end else some u

-- The first loop of `ActiveAt`: the latest end of the occurrences that cover `t`.
unfoldable pub latest_end : ℕ → List Occurrence → Option ℕ → Option ℕ
latest_end t [] u = u
latest_end t (o ∷ os) u = latest_end t os (later_end t o u)

-- The second loop: the chain of occurrences that touch.
unfoldable pub extend : ℕ → List Occurrence → ℕ
extend u [] = u
extend u (o ∷ os) = let rest = extend (max u o.end) os in if ltb u o.start then u else rest

abbrev pub by_start : Occurrence → Occurrence → Bool
by_start a b = leb a.start b.start

abbrev pub all_occurrences :
    (MaintenanceWindow → List Occurrence) → List MaintenanceWindow → List Occurrence
all_occurrences occurrences [] = []
all_occurrences occurrences (w ∷ ws) = occurrences w ++ all_occurrences occurrences ws

abbrev pub bounded : ℕ → List Occurrence → Option ℕ → Option ℕ
bounded t os none = none
bounded t os (some u) = some (min (extend u os) (t + horizon))

-- `ActiveAt`; `occurrences` gives those of a window that touch the time from `t` to the horizon.
unfoldable pub active_at :
    (MaintenanceWindow → List Occurrence) → List MaintenanceWindow → ℕ → Option ℕ
unfolding latest_end extend
active_at occurrences ws t =
    let all = sort by_start (all_occurrences occurrences ws) in
    bounded t all (latest_end t all none)
