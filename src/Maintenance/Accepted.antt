-- ===== src/Maintenance/Accepted.antt =====
-- maintenance/validate.go: a window that is accepted has what its kind needs.
use Prim.Native.String.{count}
use health_beat.Prelude.{
  Bool, true, false, not, ◌&&◌, ◌||◌, String, none, some, ltb, ◌==◌, string_eq, if◌then◌else◌, ◌≡◌,
  refl, subst, ap, arith, inl, inr,
}
use health_beat.Prelude.Int.{ℤ, pos, leb_ℤ, ◌≤ℤ◌}
use health_beat.Ingest.Text.{is_empty}
use health_beat.Maintenance.Window.{MaintenanceWindow}
use health_beat.Maintenance.Validate.{
  missing, given, within, ordered, uses_recurrence, validate_once, max_minutes, max_repeat,
  ends_before, validate_days, validate_month, validate_recurring, validate, trimmed, nobody,
}
use health_beat.Maintenance.Fields.{
  Absent, Bounded, NoMonth, Once, Recurring, MonthDays, Complete, refused, Absent-given,
  Given-missing, within-Bounded, within-BoundedOrLast, ordered-Ordered, ends_before-NotBefore,
}

NoMonth-given :
    (w : MaintenanceWindow)
    → (given w.month_day || given w.month_week || given w.month_weekday) ≡ false
    → NoMonth w
NoMonth-given w h = (
  Absent-given _ (ground (arith, h)),
  (Absent-given _ (ground (arith, h)), Absent-given _ (ground (arith, h))),
)

validate_once-Once : (w : MaintenanceWindow) → validate_once w ≡ none → Once w
unfolding validate_once
validate_once-Once w h =
    let a = refused (missing w.starts_at) _ _ h in
    let b = refused (missing w.ends_at) _ _ a.1 in
    let c = refused (not (ordered w.starts_at w.ends_at)) _ _ b.1 in
    let d = refused (uses_recurrence w) _ _ c.1 in
    record {
      span = ordered-Ordered _ _ c.0;
      no_start = Absent-given _ (ground (arith, d.0));
      no_duration = Absent-given _ (ground (arith, d.0));
      no_from = Absent-given _ (ground (arith, d.0));
      no_until = Absent-given _ (ground (arith, d.0));
      no_weekdays = Absent-given _ (ground (arith, d.0));
      no_month = NoMonth-given w (ground (arith, d.0));
      no_repeat = ground (arith, d.0);
    }

validate_month-MonthDays : (w : MaintenanceWindow) → validate_month w ≡ none → MonthDays w
unfolding validate_month
validate_month-MonthDays w h = by_day (given w.month_day) refl
  where
    by_day : (b : Bool) → given w.month_day ≡ b → MonthDays w
    by_day true e = inl (
      within-BoundedOrLast (pos 1) (pos 28) w.month_day (ground (arith, e, h)),
      (Absent-given _ (ground (arith, e, h)), Absent-given _ (ground (arith, e, h))),
    )
    by_day false e = inr (
      Absent-given _ e,
      (
        within-BoundedOrLast (pos 1) (pos 4) w.month_week (ground (arith, e, h)),
        within-Bounded (pos 1) (pos 7) w.month_weekday (ground (arith, e, h)),
      ),
    )

-- What a recurring window has besides its days; the days are checked last.
validate_recurring-Recurring :
    (w : MaintenanceWindow) (minutes interval : ℤ) (Days : Type 0)
    → max_minutes w ≡ minutes
    → max_repeat w ≡ interval
    → (validate_days w ≡ none → Days)
    → validate_recurring w ≡ none
    → Recurring w minutes interval Days
unfolding validate_recurring
validate_recurring-Recurring w minutes interval Days most often days h =
    let a = refused (given w.starts_at || given w.ends_at) _ _ h in
    let b = refused (not (within (pos 0) (pos 1439) w.start_minute)) _ _ a.1 in
    let c = refused (not (within (pos 1) (max_minutes w) w.duration_minutes)) _ _ b.1 in
    let d =
      refused (not (leb_ℤ (pos 1) w.repeat_every && leb_ℤ w.repeat_every (max_repeat w))) _ _ c.1 in
    let e = refused (missing w.valid_from) _ _ d.1 in
    let f = refused (ends_before w.valid_until w.valid_from) _ _ e.1 in
    record {
      no_instants = (Absent-given _ (ground (arith, a.0)), Absent-given _ (ground (arith, a.0)));
      start = within-Bounded (pos 0) (pos 1439) w.start_minute b.0;
      duration =
          subst (λ m. Bounded (pos 1) m w.duration_minutes) most
            (within-Bounded (pos 1) (max_minutes w) w.duration_minutes c.0);
      repeats =
          subst (λ (m : ℤ). (pos 1 ≤ℤ w.repeat_every) × (w.repeat_every ≤ℤ m)) often
            (ground (arith, d.0), ground (arith, d.0));
      from = Given-missing _ e.0;
      until = ends_before-NotBefore _ _ f.0;
      days = days f.1;
    }

abbrev Days : MaintenanceWindow → Bool → Bool → Type 0
Days w weekly monthly =
    (if weekly then Bounded (pos 1) (pos 127) w.weekdays else Absent w.weekdays)
    × (if monthly then MonthDays w else NoMonth w)

chain-Days :
    (w : MaintenanceWindow) (weekly monthly : Bool)
    → (if weekly && not (within (pos 1) (pos 127) w.weekdays)
        then some "weekdays"
        else if not weekly && given w.weekdays
        then some "weekdays"
        else if not monthly && (given w.month_day || given w.month_week || given w.month_weekday)
        then some "month_day"
        else if not monthly
        then none
        else validate_month w)
      ≡ none
    → Days w weekly monthly
chain-Days w weekly monthly h =
    let a = refused (weekly && not (within (pos 1) (pos 127) w.weekdays)) _ _ h in
    let b = refused (not weekly && given w.weekdays) _ _ a.1 in
    let c =
      refused (not monthly && (given w.month_day || given w.month_week || given w.month_weekday)) _
        _ b.1 in
    (by_weekly weekly a.0 b.0, by_monthly monthly c.0 c.1)
  where
    by_weekly :
        (b : Bool)
        → (b && not (within (pos 1) (pos 127) w.weekdays)) ≡ false
        → (not b && given w.weekdays) ≡ false
        → (if b then Bounded (pos 1) (pos 127) w.weekdays else Absent w.weekdays)
    by_weekly true h k = within-Bounded (pos 1) (pos 127) w.weekdays h
    by_weekly false h k = Absent-given w.weekdays k

    by_monthly :
        (b : Bool)
        → (not b && (given w.month_day || given w.month_week || given w.month_weekday)) ≡ false
        → (if not b then none else validate_month w) ≡ none
        → (if b then MonthDays w else NoMonth w)
    by_monthly true h k = validate_month-MonthDays w k
    by_monthly false h k = NoMonth-given w h

validate_days-Days :
    (w : MaintenanceWindow) (kind : String)
    → w.recurrence ≡ kind
    → validate_days w ≡ none
    → Days w (kind == "weekly") (kind == "monthly")
unfolding validate_days
validate_days-Days w kind is h =
    subst (λ (k : String). Days w (k == "weekly") (k == "monthly")) is
      (chain-Days w (w.recurrence == "weekly") (w.recurrence == "monthly") h)

-- What an accepted recurring window of a kind has.
recurring-Recurring :
    (w : MaintenanceWindow) (kind : String)
    → w.recurrence ≡ kind
    → validate_recurring w ≡ none
    → Recurring w
        (if kind == "daily" then pos 1440 else pos 10080)
        (if kind == "daily" then pos 30 else pos 12)
        (Days w (kind == "weekly") (kind == "monthly"))
recurring-Recurring w kind is h =
    validate_recurring-Recurring w _ _ _
      (ap (λ (k : String). if k == "daily" then pos 1440 else pos 10080) is)
      (ap (λ (k : String). if k == "daily" then pos 30 else pos 12) is)
      (validate_days-Days w kind is) h

-- An accepted window is of one of four kinds. One that happens once has a start, an end after it,
-- and no field of a recurrence (its interval is at most 1). A daily, weekly or monthly one has
-- neither of these instants; it has a start within the day (minute 0 to 1439), a duration of 1
-- minute to 24 hours, or to 7 days if weekly or monthly, an interval of 1 to 30, or to 12 if weekly
-- or monthly, a first day, and no last day before that. A daily one names no day; a weekly one has a
-- mask of its days (1 to 127) and no day of the month; a monthly one has no days of the week, and
-- either a day of the month (1 to 28, or the last) alone, or a week of the month (1 to 4, or the
-- last) with a day of the week (1 to 7).
pub validate-Complete : (w : MaintenanceWindow) → validate w ≡ none → Complete w
unfolding validate
validate-Complete w h =
    let a = refused (is_empty (trimmed w.title)) _ _ h in
    let b = refused (ltb 200 (count (trimmed w.title))) _ _ a.1 in
    let c = refused (nobody w.host_ids && nobody w.org_ids) _ _ b.1 in
    by_kind (w.recurrence == "once") (w.recurrence == "daily") (w.recurrence == "weekly")
      (w.recurrence == "monthly") refl refl refl refl c.1
  where
    by_kind :
        (once daily weekly monthly : Bool)
        → (w.recurrence == "once") ≡ once
        → (w.recurrence == "daily") ≡ daily
        → (w.recurrence == "weekly") ≡ weekly
        → (w.recurrence == "monthly") ≡ monthly
        → (if once
            then validate_once w
            else if daily || weekly || monthly
            then validate_recurring w
            else some "recurrence")
          ≡ none
        → Complete w
    by_kind true d k m e0 e1 e2 e3 h = inl ((string_eq.same_iff _ _).0 e0, validate_once-Once w h)
    by_kind false true k m e0 e1 e2 e3 h =
        let is = (string_eq.same_iff w.recurrence "daily").0 e1 in
        inr (inl (is, recurring-Recurring w "daily" is h))
    by_kind false false true m e0 e1 e2 e3 h =
        let is = (string_eq.same_iff w.recurrence "weekly").0 e2 in
        inr (inr (inl (is, recurring-Recurring w "weekly" is h)))
    by_kind false false false true e0 e1 e2 e3 h =
        let is = (string_eq.same_iff w.recurrence "monthly").0 e3 in
        inr (inr (inr (is, recurring-Recurring w "monthly" is h)))
    by_kind false false false false e0 e1 e2 e3 h =
        let absurd : ⊥ = ground (arith, h) in elim absurd [ ]
