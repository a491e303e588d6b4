-- ===== src/Maintenance/Next.antt =====
-- maintenance/maintenance.go (`nextStartDate`): the next day of a daily or weekly window.
use health_beat.Prelude.{
  ℕ, suc, ◌+◌, ◌-◌, ◌/◌, ◌%◌, ◌≤◌, ◌<◌, max, true, false, String, Option, none, some, eqb, if-true,
  if-false, ◌==◌, string_eq, ◌≡◌, refl, sym, subst, ap, ◌∙◌, arith, ◌⊎◌, inl, inr,
}
use health_beat.Prelude.Int.{ℤ, pos_part}
use health_beat.Maintenance.Window.{MaintenanceWindow}
use health_beat.Maintenance.Calendar.{
  iso_weekday, every, aligned, mask_of, has_day, next_weekly, until, next_from, next_start_date,
}
use health_beat.Maintenance.Days.{aligned_lem, Weekly, next_weekly-Weekly}
use health_beat.Maintenance.Weeks.{Found, next_weekly-Found}
use health_beat.Maintenance.Earliest.{not_both, Free, aligned-least, next_weekly-Free}

-- A day of a window, by its interval: a multiple of it in days from the first day on; or a day of the
-- week that it names, in a week that is a multiple of it from the week of the first day on.
abbrev pub StartDay : MaintenanceWindow → ℕ → ℕ → Type 0
StartDay w anchor out =
    (w.recurrence ≡ "daily") × ((out - anchor) % every w ≡ 0)
    ⊎ (w.recurrence ≡ "weekly")
      × ((has_day (mask_of w) out ≡ true)
          × ((out - (anchor + 1 - iso_weekday anchor)) / 7 % every w ≡ 0))

-- The first day of the window from `d` on is given, unless it is after the last day.
abbrev pub NextDay : MaintenanceWindow → ℕ → ℕ → Option ℕ → Type 0
NextDay w anchor d r =
    (out : ℕ) × (((max d anchor ≤ out) × StartDay w anchor out)
      × (((x : ℕ) → max d anchor ≤ x → x < out → ¬ StartDay w anchor x)
          × (r ≡ until w.valid_until (some out))))

abbrev pub Repeats : MaintenanceWindow → Type 0
Repeats w = (w.recurrence ≡ "daily") ⊎ (w.recurrence ≡ "weekly") × (1 ≤ mask_of w)

positive : (x : ℕ) → 1 ≤ x → eqb x 0 ≡ false
positive x h = ground arith

mask_of-few : (w : MaintenanceWindow) → mask_of w < 128
mask_of-few w = by_weekdays w.weekdays
  where
    by_weekdays :
        (o : Option ℤ) → (elim o as (λ o. ℕ) [ none ↦ 0 | some m ↦ pos_part m % 128 ]) < 128
    by_weekdays none = omega arith
    by_weekdays (some m) = omega arith

distinct : (r : String) → r ≡ "daily" → r ≡ "weekly" → ⊥
distinct r daily weekly =
    not_both (r == "daily") (ap (λ s. s == "daily") daily) (ap (λ s. s == "daily") weekly)

until-NextDay :
    (w : MaintenanceWindow) (anchor d : ℕ) (r : Option ℕ)
    → w.recurrence ≡ "weekly"
    → Weekly (every w) (mask_of w) (anchor + 1 - iso_weekday anchor) (max d anchor) r
    → ((out : ℕ)
        → r ≡ some out
        → Free (every w) (mask_of w) (anchor + 1 - iso_weekday anchor) (max d anchor) out)
    → Found r
    → NextDay w anchor d (until w.valid_until r)
until-NextDay w anchor d none kind h free is = absurd is
until-NextDay w anchor d (some out) kind h free is =
    (out, ((h.0, inr (kind, h.1)), (no_earlier, refl)))
  where
    no_earlier : (x : ℕ) → max d anchor ≤ x → x < out → ¬ StartDay w anchor x
    no_earlier x le lt (inl (daily, fits)) = distinct w.recurrence daily kind
    no_earlier x le lt (inr (weekly, (day, fits))) = free out refl x le lt day fits

next_from-NextDay :
    (fuel : ℕ) (w : MaintenanceWindow) (anchor d : ℕ)
    → 4 ≤ anchor
    → Repeats w
    → NextDay w anchor d
        (until w.valid_until (next_from (suc (suc (suc fuel))) w anchor (max d anchor)))
unfolding next_from iso_weekday
next_from-NextDay fuel w anchor d late (inl kind) = (
  anchor + rounded,
  (
    (
      omega (arith, (aligned_lem (every w) (max d anchor - anchor) (omega arith)).1),
      inl (
        kind,
        ap (λ k. k % every w) {x = anchor + rounded - anchor} {y = rounded} (omega arith)
            ∙ (aligned_lem (every w) (max d anchor - anchor) (omega arith)).0,
      ),
    ),
    (
      no_earlier,
      ap (until w.valid_until)
          (if-true (w.recurrence == "daily") _ _ (ap (λ r. r == "daily") kind)),
    ),
  ),
)
  where
    rounded : ℕ
    rounded = aligned (every w) (max d anchor - anchor)

    no_earlier : (x : ℕ) → max d anchor ≤ x → x < anchor + rounded → ¬ StartDay w anchor x
    no_earlier x le lt (inl (daily, fits)) =
        aligned-least (every w) (max d anchor - anchor) (x - anchor) (omega (arith, le))
          (omega (arith, le, lt)) fits
    no_earlier x le lt (inr (weekly, on_day)) = distinct w.recurrence kind weekly
next_from-NextDay fuel w anchor d late (inr (kind, some_day)) =
    subst (λ r. NextDay w anchor d (until w.valid_until r))
      (sym (
        if-false (w.recurrence == "daily") _ _ (ap (λ r. r == "daily") kind)
        ∙ (if-true (w.recurrence == "weekly") _ _ (ap (λ r. r == "weekly") kind)
            ∙ if-false (eqb (mask_of w) 0) _ _ (positive (mask_of w) some_day))))
      (until-NextDay w anchor d
        (next_weekly (suc (suc (suc fuel))) (every w) (mask_of w) (anchor + 1 - iso_weekday anchor)
          (max d anchor))
        kind
        (next_weekly-Weekly (suc (suc (suc fuel))) (every w) (mask_of w)
          (anchor + 1 - iso_weekday anchor) (max d anchor) (omega arith) (omega arith))
        (λ out.
          next_weekly-Free (suc (suc (suc fuel))) (every w) (mask_of w)
            (anchor + 1 - iso_weekday anchor) (max d anchor) out (omega arith))
        (next_weekly-Found (every w) (mask_of w) (anchor + 1 - iso_weekday anchor) (omega arith)
          (omega (arith, late)) some_day (mask_of-few w) fuel (max d anchor)))

-- For a daily window, or a weekly one that names a day of the week, whose first day is Monday, January
-- 5, 1970 or later: `nextStartDate` finds, within three rounds of its weekly loop, the first day that
-- is neither before `d` nor before the window's first day and that is of the window, that is, a
-- multiple of the interval after the first day, or a day of the week that the window names, in a week
-- that is a multiple of the interval after that of the first day. It gives that day, unless it is
-- after the last day of the window.
pub next_start_date-NextDay :
    (fuel : ℕ) (w : MaintenanceWindow) (anchor d : ℕ)
    → 3 ≤ fuel
    → w.valid_from ≡ some anchor
    → 4 ≤ anchor
    → Repeats w
    → NextDay w anchor d (next_start_date fuel w d)
unfolding next_start_date
next_start_date-NextDay fuel w anchor d enough from late kind =
    subst
      (λ o. NextDay w anchor d (elim o as (λ o. Option ℕ) [
        | none ↦ none
        | some anchor ↦ until w.valid_until (next_from fuel w anchor (max d anchor))
      ]))
      (sym from)
      (subst (λ k. NextDay w anchor d (until w.valid_until (next_from k w anchor (max d anchor))))
        {x = suc (suc (suc (fuel - 3)))} {y = fuel} (omega (arith, enough))
        (next_from-NextDay (fuel - 3) w anchor d late kind))
