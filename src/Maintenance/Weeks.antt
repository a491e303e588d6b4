-- ===== src/Maintenance/Weeks.antt =====
-- maintenance/maintenance.go (`nextStartDate`): three rounds of the weekly loop find a day.
use native.Mathlib.Nat.{mod-lt}
use health_beat.Prelude.{
  ℕ, zero, suc, ◌+◌, ◌-◌, ◌*◌, ◌/◌, ◌%◌, ◌^◌, ◌≤◌, ◌<◌, Bool, true, false, Option, none, some, eqb,
  eqb_iff, if-true, if-false, string_eq, if◌then◌else◌, ◌≡◌, refl, sym, subst, ap, ◌∙◌, arith,
}
use health_beat.Maintenance.Calendar.{iso_weekday, has_day, scan_week, or_later, next_weekly}
use health_beat.Maintenance.Days.{rounded_up}

-- A scan of `k` days that finds none.
pub scan_week-none :
    (k mask d : ℕ) → scan_week k mask d ≡ none → (i : ℕ) → i < k → has_day mask (d + i) ≡ false
unfolding scan_week
scan_week-none zero mask d e i lt = ground arith
scan_week-none (suc k) mask d e i lt =
    by_day (scan_week-none k mask (suc d)) (has_day mask d) refl e i lt
  where
    by_day :
        (scan_week k mask (suc d) ≡ none → (i : ℕ) → i < k → has_day mask (suc d + i) ≡ false)
        → (b : Bool) → has_day mask d ≡ b
        → (if b then some d else scan_week k mask (suc d)) ≡ none
        → (i : ℕ) → i < suc k
        → has_day mask (d + i) ≡ false
    by_day free true is e i lt = cc
    by_day free false is e zero lt = ap (has_day mask) {x = d + 0} {y = d} (omega arith) ∙ is
    by_day free false is e (suc i) lt =
        ap (has_day mask) {x = d + suc i} {y = suc d + i} (omega arith)
        ∙ free e i (omega (arith, lt))

-- The bit of a day of the week that begins on Monday `m`.
has_day-bit : (mask m i : ℕ) → m % 7 ≡ 4 → i < 7 → has_day mask (m + i) ≡ eqb (mask / 2 ^ i % 2) 1
unfolding has_day iso_weekday
has_day-bit mask m i monday lt =
    ap (λ k. eqb (mask / 2 ^ k % 2) 1) {x = (m + i + 3) % 7 + 1 - 1} {y = i}
      (omega (arith, monday, lt))

even : (x : ℕ) → eqb (x % 2) 1 ≡ false → x % 2 ≡ 0
even x e = ground arith

-- A whole week has a day of a mask that has one.
scan_week-whole : (mask m : ℕ) → m % 7 ≡ 4 → 1 ≤ mask → mask < 128 → ¬ (scan_week 7 mask m ≡ none)
scan_week-whole mask m monday some_day few none_found = omega (
  arith,
  some_day,
  few,
  bit 0 (omega arith),
  bit 1 (omega arith),
  bit 2 (omega arith),
  bit 3 (omega arith),
  bit 4 (omega arith),
  bit 5 (omega arith),
  bit 6 (omega arith),
)
  where
    clear : (i : ℕ) → i < 7 → eqb (mask / 2 ^ i % 2) 1 ≡ false
    clear i lt = sym (has_day-bit mask m i monday lt) ∙ scan_week-none 7 mask m none_found i lt

    bit : (i : ℕ) → i < 7 → mask / 2 ^ i % 2 ≡ 0
    bit i lt = even (mask / 2 ^ i) (clear i lt)

abbrev pub Found : Option ℕ → Type 0
Found none = ⊥
Found (some d) = Unit

found : (o : Option ℕ) → ¬ (o ≡ none) → Found o
found none h = h refl
found (some d) h = tt

or_later-Found : (r later : Option ℕ) → (r ≡ none → Found later) → Found (or_later r later)
or_later-Found none later h = h refl
or_later-Found (some d) later h = tt

module _ (n mask monday : ℕ) where
  -- A round of the loop in a week that the window repeats in, and in another.
  pub next_weekly-scan :
      (fuel d : ℕ)
      → (d - monday) / 7 % n ≡ 0
      → next_weekly (suc fuel) n mask monday d
        ≡ or_later
            (scan_week (7 - (d - monday) % 7) mask d)
            (next_weekly fuel n mask monday (monday + ((d - monday) / 7 + 1) * 7))
  unfolding next_weekly
  next_weekly-scan fuel d fits =
      if-true (eqb ((d - monday) / 7 % n) 0) _ _ ((eqb_iff ((d - monday) / 7 % n) 0).1 fits)

  pub next_weekly-skip :
      (fuel d : ℕ)
      → eqb ((d - monday) / 7 % n) 0 ≡ false
      → next_weekly (suc fuel) n mask monday d
        ≡ next_weekly fuel n mask monday
            (monday + ((d - monday) / 7 + n - (d - monday) / 7 % n) * 7)
  unfolding next_weekly
  next_weekly-skip fuel d off = if-false (eqb ((d - monday) / 7 % n) 0) _ _ off

module _ (n mask monday : ℕ) (some_n : 1 ≤ n) (week_start : monday % 7 ≡ 4) (some_day : 1 ≤ mask)
    (few : mask < 128) where
  aligned-Found :
      (fuel week : ℕ)
      → week % n ≡ 0
      → Found (next_weekly (suc fuel) n mask monday (monday + week * 7))
  aligned-Found fuel week fits =
      subst Found (sym (next_weekly-scan n mask monday fuel start same_week)) (
        or_later-Found (scan_week (7 - (start - monday) % 7) mask start) _ (λ e. absurd (
          scan_week-whole mask start (omega (arith, week_start)) some_day few (
            ap (λ k. scan_week k mask start) {x = 7} {y = 7 - (start - monday) % 7} (omega arith)
            ∙ e))))
    where
      start : ℕ
      start = monday + week * 7

      same_week : (start - monday) / 7 % n ≡ 0
      same_week = ap (λ k. k % n) {x = (start - monday) / 7} {y = week} (omega arith) ∙ fits

  -- After a jump to the next week that the window repeats in.
  skipped-Found :
      (fuel d : ℕ)
      → eqb ((d - monday) / 7 % n) 0 ≡ false
      → Found (next_weekly (suc (suc fuel)) n mask monday d)
  skipped-Found fuel d off = subst Found (sym (next_weekly-skip n mask monday (suc fuel) d off)) (
      aligned-Found fuel ((d - monday) / 7 + n - (d - monday) / 7 % n)
        (rounded_week ((d - monday) / 7)))
    where
      rounded_week : (week : ℕ) → (week + n - week % n) % n ≡ 0
      rounded_week week =
          ap (λ k. k % n) {x = week + n - week % n} {y = week + (n - week % n)}
            (omega (arith, mod-lt week {m = n} (omega (arith, some_n))))
          ∙ rounded_up n week some_n

  start-Found :
      (fuel week : ℕ) → Found (next_weekly (suc (suc fuel)) n mask monday (monday + week * 7))
  start-Found fuel week = by_week (eqb ((monday + week * 7 - monday) / 7 % n) 0) refl
    where
      by_week :
          (b : Bool)
          → eqb ((monday + week * 7 - monday) / 7 % n) 0 ≡ b
          → Found (next_weekly (suc (suc fuel)) n mask monday (monday + week * 7))
      by_week true e = aligned-Found (suc fuel) week (
          ap (λ k. k % n) {x = week} {y = (monday + week * 7 - monday) / 7} (omega arith)
          ∙ (eqb_iff ((monday + week * 7 - monday) / 7 % n) 0).0 e)
      by_week false e = skipped-Found fuel (monday + week * 7) e

  pub next_weekly-Found : (fuel d : ℕ) → Found (next_weekly (suc (suc (suc fuel))) n mask monday d)
  next_weekly-Found fuel d = by_week (eqb ((d - monday) / 7 % n) 0) refl
    where
      by_week :
          (b : Bool)
          → eqb ((d - monday) / 7 % n) 0 ≡ b
          → Found (next_weekly (suc (suc (suc fuel))) n mask monday d)
      by_week true e =
          subst Found (sym (next_weekly-scan n mask monday (suc (suc fuel)) d ((eqb_iff _ 0).0 e)))
            (or_later-Found (scan_week (7 - (d - monday) % 7) mask d) _
              (λ none_found. start-Found fuel ((d - monday) / 7 + 1)))
      by_week false e = skipped-Found (suc fuel) d e
