-- ===== src/Maintenance/Calendar.antt =====
-- maintenance/maintenance.go (`nextStartDate`, `monthDay`): the days on which a recurring window starts.
-- A date is the number of days since Thursday, January 1, 1970; dates before Monday, January 5, 1970
-- are not modelled, nor numbers of a window that the validation refuses (a negative mask, or a day or
-- week of the month below 1 that does not stand for the last). Go's dates of the calendar are written
-- out.
use health_beat.Prelude.{
  ℕ, zero, suc, ◌+◌, ◌-◌, ◌*◌, ◌/◌, ◌%◌, ◌^◌, max, Bool, true, false, not, ◌&&◌, ◌||◌, Option, none,
  some, ltb, leb, eqb, ◌==◌, string_eq, if◌then◌else◌,
}
use health_beat.Prelude.Int.{ℤ, pos_part, negsuc, same_ℤ}
use health_beat.Maintenance.Window.{MaintenanceWindow}

-- `isoWeekday`: 1 is Monday, 7 is Sunday.
unfoldable pub iso_weekday : ℕ → ℕ
iso_weekday d = (d + 3) % 7 + 1

-- The number of leap years up to a year, from year 1 on.
abbrev pub leap_years : ℕ → ℕ
leap_years y = y / 4 - y / 100 + y / 400

abbrev pub is_leap : ℕ → Bool
is_leap y = eqb (y % 4) 0 && (not (eqb (y % 100) 0) || eqb (y % 400) 0)

abbrev pub new_year : ℕ → ℕ
new_year y = 365 * (y - 1970) + leap_years (y - 1) - leap_years 1969

-- The days of a year before its month `m`, from 0 on.
abbrev pub days_before : Bool → ℕ → ℕ
days_before leap m =
    if eqb m 0
    then 0
    else (if eqb m 1 then 31 else (if leap then 1 else 0) + (367 * (m + 1) - 362) / 12 - 2)

-- The first day of a month, which is counted from January 1970 on.
unfoldable pub first_of_month : ℕ → ℕ
first_of_month i = let y = 1970 + i / 12 in new_year y + days_before (is_leap y) (i % 12)

-- The month of a day: the last one, not after a first guess, that begins by that day.
unfoldable pub month_from : ℕ → ℕ → ℕ
unfolding first_of_month
month_from zero d = 0
month_from (suc i) d =
    let rest = month_from i d in if leb (first_of_month (suc i)) d then suc i else rest

unfoldable pub month_of : ℕ → ℕ
unfolding month_from
month_of d = month_from (d / 28) d

abbrev pub or_one : Option ℤ → ℕ
or_one none = 1
or_one (some n) = pos_part n

abbrev pub is_last : Option ℤ → Bool
is_last none = false
is_last (some n) = same_ℤ n (negsuc 0)

abbrev pub has_value : Option ℤ → Bool
has_value none = false
has_value (some n) = true

-- `monthDay` for the month `i`.
unfoldable pub month_day : MaintenanceWindow → ℕ → ℕ
unfolding first_of_month iso_weekday
month_day w i =
    let first = first_of_month i in
    let last = first_of_month (suc i) - 1 in
    let weekday = or_one w.month_weekday in
    if has_value w.month_day
    then if is_last w.month_day then last else first + (or_one w.month_day - 1)
    else if is_last w.month_week
    then last - (iso_weekday last + 7 - weekday) % 7
    else first + (weekday + 7 - iso_weekday first) % 7 + (or_one w.month_week - 1) * 7

-- `RepeatEvery`, at least 1.
abbrev pub every : MaintenanceWindow → ℕ
every w = max (pos_part w.repeat_every) 1

-- The next multiple of `n` from `k` on.
unfoldable pub aligned : ℕ → ℕ → ℕ
aligned n k = if eqb (k % n) 0 then k else k + (n - k % n)

-- The days of the week as a mask: bit 0 is Monday.
abbrev pub mask_of : MaintenanceWindow → ℕ
mask_of w = elim w.weekdays as (λ o. ℕ) [ none ↦ 0 | some m ↦ pos_part m % 128 ]

unfoldable pub has_day : ℕ → ℕ → Bool
unfolding iso_weekday
has_day mask d = eqb (mask / 2 ^ (iso_weekday d - 1) % 2) 1

-- The inner loop of the weekly case: the days of a week from `d` on, `k` of them.
unfoldable pub scan_week : ℕ → ℕ → ℕ → Option ℕ
unfolding has_day
scan_week zero mask d = none
scan_week (suc k) mask d =
    let rest = scan_week k mask (suc d) in if has_day mask d then some d else rest

abbrev pub or_later : Option ℕ → Option ℕ → Option ℕ
or_later (some d) later = some d
or_later none later = later

-- The weekly case; weeks are counted from `monday` on.
unfoldable pub next_weekly : ℕ → ℕ → ℕ → ℕ → ℕ → Option ℕ
unfolding scan_week
next_weekly zero n mask monday d = none
next_weekly (suc fuel) n mask monday d =
    let week = (d - monday) / 7 in
    let skipped = next_weekly fuel n mask monday (monday + (week + n - week % n) * 7) in
    let following = next_weekly fuel n mask monday (monday + (week + 1) * 7) in
    if eqb (week % n) 0
    then or_later (scan_week (7 - (d - monday) % 7) mask d) following
    else skipped

-- The monthly case; months are counted from that of `anchor` on.
unfoldable pub next_monthly : ℕ → MaintenanceWindow → ℕ → ℕ → ℕ → Option ℕ
unfolding month_day month_of
next_monthly zero w anchor months d = none
next_monthly (suc fuel) w anchor months d =
    let c = month_day w (month_of anchor + months) in
    let rest = next_monthly fuel w anchor (months + every w) d in if leb d c then some c else rest

abbrev pub until : Option ℕ → Option ℕ → Option ℕ
until last none = none
until none (some out) = some out
until (some last) (some out) = if ltb last out then none else some out

-- `nextStartDate` of a window with a first day.
unfoldable pub next_from : ℕ → MaintenanceWindow → ℕ → ℕ → Option ℕ
unfolding aligned next_weekly next_monthly month_of iso_weekday
next_from fuel w anchor d =
    if w.recurrence == "daily"
    then some (anchor + aligned (every w) (d - anchor))
    else if w.recurrence == "weekly"
    then if eqb (mask_of w) 0
      then none
      else next_weekly fuel (every w) (mask_of w) (anchor + 1 - iso_weekday anchor) d
    else if w.recurrence == "monthly"
    then next_monthly fuel w anchor (aligned (every w) (month_of d - month_of anchor)) d
    else none

-- `nextStartDate`
unfoldable pub next_start_date : ℕ → MaintenanceWindow → ℕ → Option ℕ
unfolding next_from
next_start_date fuel w d = elim w.valid_from as (λ o. Option ℕ) [
  | none ↦ none
  | some anchor ↦ until w.valid_until (next_from fuel w anchor (max d anchor))
]
