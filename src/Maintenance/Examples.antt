-- ===== src/Maintenance/Examples.antt =====
-- Windows at concrete inputs: tests, and instances of the theorems.
use health_beat.Prelude.{ℕ, List, [], ◌∷◌, none, some, map, ◌≡◌, refl, inr, arith}
use health_beat.Prelude.Int.{pos, negsuc}
use health_beat.Ingest.Text.{trim_left, trim_right, is_space}
use health_beat.Maintenance.Window.{
  MaintenanceOverride, MaintenanceWindow, Occurrence, apply, apply_overrides, once_occurrences,
  active_at, latest_end, extend, all_occurrences,
}
use health_beat.Maintenance.Validate.{validate, validate_recurring, validate_days}
use health_beat.Maintenance.Calendar.{
  iso_weekday, first_of_month, month_from, month_of, month_day, aligned, has_day, scan_week,
  next_weekly, next_monthly, next_from, next_start_date,
}
use health_beat.Maintenance.Next.{NextDay, next_start_date-NextDay}
use health_beat.Maintenance.Coverage.{Answers, active_at-Answers}
use health_beat.Maintenance.Fields.{Complete}
use health_beat.Maintenance.Accepted.{validate-Complete}
use health_beat.Maintenance.Exceptions.{TakesPlace, apply-TakesPlace}

abbrev once : ℕ → ℕ → ℕ → List MaintenanceOverride → MaintenanceWindow
once id from to overrides = record {
  id = id;
  title = "disk change";
  recurrence = "once";
  starts_at = some from;
  ends_at = some to;
  start_minute = none;
  duration_minutes = none;
  repeat_every = pos 1;
  weekdays = none;
  month_day = none;
  month_week = none;
  month_weekday = none;
  valid_from = none;
  valid_until = none;
  ended_at = none;
  host_ids = 7 ∷ [];
  org_ids = [];
  overrides = overrides;
}

abbrev nightly : MaintenanceWindow
nightly = record (once 4 0 0 []) {
  recurrence = "weekly";
  starts_at = none;
  ends_at = none;
  start_minute = some (pos 150);
  duration_minutes = some (pos 60);
  weekdays = some (pos 3);
  valid_from = some 20000;
}

abbrev windows : List MaintenanceWindow
windows = once 1 100 200 [] ∷ once 2 200 300 [] ∷ once 3 400 500 [] ∷ []

abbrev occurrences : MaintenanceWindow → List Occurrence
occurrences w = once_occurrences w 150 10000

-- The first two windows follow each other.
two_joined : active_at occurrences windows 150 ≡ some 300
unfolding active_at once_occurrences apply apply_overrides latest_end extend
two_joined = refl

active_at-Answers_example :
    Answers (all_occurrences occurrences windows) 150 (active_at occurrences windows 150)
active_at-Answers_example = active_at-Answers occurrences windows 150

validate-Complete_example : Complete nightly
unfolding validate validate_recurring validate_days trim_left trim_right is_space
validate-Complete_example = validate-Complete nightly refl

abbrev cut : MaintenanceWindow
cut = once 5 100 200 (record { occurrence_start = 100; ended_at = some 130 } ∷ [])

apply-TakesPlace_example :
    TakesPlace cut
      (record { window_id = 5; start = 100; end = 200 })
      (apply cut (record { window_id = 5; start = 100; end = 200 }))
apply-TakesPlace_example = apply-TakesPlace cut (record { window_id = 5; start = 100; end = 200 })

-- Monday, Wednesday and Friday of every second week, from Thursday, January 1, 2026 on.
abbrev fortnightly : MaintenanceWindow
fortnightly = record nightly {
  repeat_every = pos 2;
  weekdays = some (pos 21);
  valid_from = some 20454;
}

-- The last Friday of every third month, from January 2026 on.
abbrev last_friday : MaintenanceWindow
last_friday = record nightly {
  recurrence = "monthly";
  repeat_every = pos 3;
  weekdays = none;
  month_week = some (negsuc 0);
  month_weekday = some (pos 5);
  valid_from = some 20454;
}

january_2026 : first_of_month 672 ≡ 20454
unfolding first_of_month
january_2026 = refl

march_2024 : first_of_month 650 ≡ 19783
unfolding first_of_month
march_2024 = refl

-- Friday of the first week; from Saturday on, the Monday after next.
weeks_apart :
    map (next_start_date 3 fortnightly) (20000 ∷ 20455 ∷ 20456 ∷ [])
    ≡ some 20455 ∷ some 20455 ∷ some 20465 ∷ []
unfolding next_start_date next_from next_weekly scan_week has_day iso_weekday
weeks_apart = refl

-- January 30 and April 24, 2026.
months_apart :
    map (next_start_date 3 last_friday) (20454 ∷ 20484 ∷ []) ≡ some 20483 ∷ some 20567 ∷ []
unfolding next_start_date next_from next_monthly month_day month_of month_from first_of_month
    aligned iso_weekday
months_apart = refl

next_start_date-NextDay_example :
    NextDay fortnightly 20454 20456 (next_start_date 3 fortnightly 20456)
next_start_date-NextDay_example =
    next_start_date-NextDay 3 fortnightly 20454 20456 (omega arith) refl (omega arith)
      (inr (refl, omega arith))
