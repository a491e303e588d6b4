-- ===== src/Maintenance/Validate.antt =====
-- maintenance/validate.go: which windows are accepted. A refusal is the field that the error names;
-- its text for the client is left out.
use Prim.Native.String.{count}
use health_beat.Prelude.{
  ℕ, Bool, true, false, not, ◌&&◌, ◌||◌, String, List, [], ◌∷◌, Option, none, some, ltb, ◌==◌,
  string_eq, if◌then◌else◌,
}
use health_beat.Prelude.Int.{ℤ, pos, negsuc, leb_ℤ, ltb_ℤ, same_ℤ}
use health_beat.Ingest.Text.{trim_left, trim_right, is_empty}
use health_beat.Maintenance.Window.{MaintenanceWindow}

-- The first refusal, or none.
abbrev pub Verdict : Type 0
Verdict = Option String

abbrev pub missing : {A : Type 0} → Option A → Bool
missing none = true
missing (some a) = false

abbrev pub given : {A : Type 0} → Option A → Bool
given o = not (missing o)

-- The number is there and in the range.
abbrev pub within : ℤ → ℤ → Option ℤ → Bool
within lo hi none = false
within lo hi (some x) = leb_ℤ lo x && leb_ℤ x hi

abbrev pub nobody : List ℕ → Bool
nobody [] = true
nobody (x ∷ xs) = false

abbrev pub month_last : ℤ
month_last = negsuc 0

abbrev pub ordered : Option ℕ → Option ℕ → Bool
ordered (some s) (some e) = ltb s e
ordered _ _ = false

abbrev pub uses_recurrence : MaintenanceWindow → Bool
uses_recurrence w =
    given w.start_minute
    || given w.duration_minutes
    || given w.valid_from
    || given w.valid_until
    || given w.weekdays
    || given w.month_day
    || given w.month_week
    || given w.month_weekday
    || ltb_ℤ (pos 1) w.repeat_every

-- `validateOnce`
unfoldable pub validate_once : MaintenanceWindow → Verdict
validate_once w =
    if missing w.starts_at
    then some "starts_at"
    else if missing w.ends_at
    then some "ends_at"
    else if not (ordered w.starts_at w.ends_at)
    then some "ends_at"
    else if uses_recurrence w
    then some "recurrence"
    else none

abbrev pub max_minutes : MaintenanceWindow → ℤ
max_minutes w = if w.recurrence == "daily" then pos 1440 else pos 10080

abbrev pub max_repeat : MaintenanceWindow → ℤ
max_repeat w = if w.recurrence == "daily" then pos 30 else pos 12

-- The day of `valid_until` is before that of `valid_from`.
abbrev pub ends_before : Option ℕ → Option ℕ → Bool
ends_before (some until) (some from) = ltb until from
ends_before _ _ = false

abbrev pub is_last : Option ℤ → Bool
is_last none = false
is_last (some x) = same_ℤ x month_last

-- The last switch of `validateRecurring`, for a monthly window.
unfoldable pub validate_month : MaintenanceWindow → Verdict
validate_month w =
    if given w.month_day && (given w.month_week || given w.month_weekday)
    then some "month_day"
    else if given w.month_day
    then if is_last w.month_day || within (pos 1) (pos 28) w.month_day
      then none
      else some "month_day"
    else if missing w.month_week || missing w.month_weekday
    then some "month_day"
    else if not (is_last w.month_week) && not (within (pos 1) (pos 4) w.month_week)
    then some "month_week"
    else if not (within (pos 1) (pos 7) w.month_weekday)
    then some "month_weekday"
    else none

-- The days of a recurring window.
unfoldable pub validate_days : MaintenanceWindow → Verdict
unfolding validate_month
validate_days w =
    let weekly = w.recurrence == "weekly" in
    let monthly = w.recurrence == "monthly" in
    if weekly && not (within (pos 1) (pos 127) w.weekdays)
    then some "weekdays"
    else if not weekly && given w.weekdays
    then some "weekdays"
    else if not monthly && (given w.month_day || given w.month_week || given w.month_weekday)
    then some "month_day"
    else if not monthly
    then none
    else validate_month w

-- `validateRecurring`
unfoldable pub validate_recurring : MaintenanceWindow → Verdict
unfolding validate_days
validate_recurring w =
    if given w.starts_at || given w.ends_at
    then some "recurrence"
    else if not (within (pos 0) (pos 1439) w.start_minute)
    then some "start_minute"
    else if not (within (pos 1) (max_minutes w) w.duration_minutes)
    then some "duration_minutes"
    else if not (leb_ℤ (pos 1) w.repeat_every && leb_ℤ w.repeat_every (max_repeat w))
    then some "repeat_every"
    else if missing w.valid_from
    then some "valid_from"
    else if ends_before w.valid_until w.valid_from
    then some "valid_until"
    else validate_days w

abbrev pub trimmed : String → String
trimmed s = trim_right (trim_left s)

-- `Validate`
unfoldable pub validate : MaintenanceWindow → Verdict
unfolding trim_left trim_right validate_once validate_recurring
validate w =
    if is_empty (trimmed w.title)
    then some "title"
    else if ltb 200 (count (trimmed w.title))
    then some "title"
    else if nobody w.host_ids && nobody w.org_ids
    then some "scope"
    else if w.recurrence == "once"
    then validate_once w
    else if w.recurrence == "daily" || w.recurrence == "weekly" || w.recurrence == "monthly"
    then validate_recurring w
    else some "recurrence"
