-- ===== src/Maintenance/Days.antt =====
-- maintenance/maintenance.go (`nextStartDate`): the day that it gives is one of the window.
use native.Mathlib.Nat.{mod-add-mod, mod_self, mod-lt}
use health_beat.Prelude.{
  ℕ, zero, suc, ◌+◌, ◌-◌, ◌*◌, ◌/◌, ◌%◌, ◌≤◌, ◌<◌, Bool, true, false, Option, none, some, eqb,
  eqb_iff, string_eq, if◌then◌else◌, ◌≡◌, refl, sym, ap, ◌∙◌, arith,
}
use health_beat.Maintenance.Window.{MaintenanceWindow}
use health_beat.Maintenance.Calendar.{every, aligned, has_day, scan_week, or_later, next_weekly}

pub rounded_up : (n k : ℕ) → 1 ≤ n → (k + (n - k % n)) % n ≡ 0
rounded_up n k some_n =
    sym (mod-add-mod k n (n - k % n))
    ∙ (ap (λ m. m % n) (omega (arith, mod-lt k {m = n} (omega (arith, some_n)))) ∙ mod_self n)

pub aligned_lem : (n k : ℕ) → 1 ≤ n → (aligned n k % n ≡ 0) × (k ≤ aligned n k)
unfolding aligned
aligned_lem n k some_n = by_rest (eqb (k % n) 0) refl
  where
    by_rest :
        (b : Bool)
        → eqb (k % n) 0 ≡ b
        → ((if b then k else k + (n - k % n)) % n ≡ 0) × (k ≤ (if b then k else k + (n - k % n)))
    by_rest true e = ((eqb_iff (k % n) 0).0 e, omega arith)
    by_rest false e = (rounded_up n k some_n, omega arith)

every-positive : (w : MaintenanceWindow) → 1 ≤ every w
every-positive w = omega arith

-- Not before `d`, and on a day of the mask in a week that is a multiple of `n` after that of `monday`.
abbrev pub Weekly : ℕ → ℕ → ℕ → ℕ → Option ℕ → Type 0
Weekly n mask monday d none = Unit
Weekly n mask monday d (some out) =
    (d ≤ out) × ((has_day mask out ≡ true) × ((out - monday) / 7 % n ≡ 0))

-- A day that a scan of `k` days from `d` on finds.
abbrev Scanned : ℕ → ℕ → ℕ → Option ℕ → Type 0
Scanned k mask d none = Unit
Scanned k mask d (some out) = ((d ≤ out) × (out < d + k)) × (has_day mask out ≡ true)

scan_week-Scanned : (k mask d : ℕ) → Scanned k mask d (scan_week k mask d)
unfolding scan_week
scan_week-Scanned zero mask d = tt
scan_week-Scanned (suc k) mask d =
    by_day (has_day mask d) refl (scan_week k mask (suc d)) (scan_week-Scanned k mask (suc d))
  where
    by_day :
        (b : Bool)
        → has_day mask d ≡ b
        → (r : Option ℕ) → Scanned k mask (suc d) r
        → Scanned (suc k) mask d (if b then some d else r)
    by_day true e r h = ((omega arith, omega arith), e)
    by_day false e none h = tt
    by_day false e (some out) h = ((omega (arith, h.0.0), omega (arith, h.0.1)), h.1)

Weekly-later :
    (n mask monday d e : ℕ) (r : Option ℕ)
    → d ≤ e
    → Weekly n mask monday e r
    → Weekly n mask monday d r
Weekly-later n mask monday d e none le h = tt
Weekly-later n mask monday d e (some out) le h = (omega (arith, le, h.0), h.1)

or_later-Weekly :
    (n mask monday d : ℕ) (r later : Option ℕ)
    → monday ≤ d
    → (d - monday) / 7 % n ≡ 0
    → Scanned (7 - (d - monday) % 7) mask d r
    → Weekly n mask monday d later
    → Weekly n mask monday d (or_later r later)
or_later-Weekly n mask monday d none later from fits h rest = rest
or_later-Weekly n mask monday d (some out) later from fits h rest = (
  h.0.0,
  (
    h.1,
    ap (λ week. week % n) {x = (out - monday) / 7} {y = (d - monday) / 7}
          (omega (arith, h.0.0, h.0.1, from))
        ∙ fits,
  ),
)

pub next_weekly-Weekly :
    (fuel n mask monday d : ℕ)
    → 1 ≤ n
    → monday ≤ d
    → Weekly n mask monday d (next_weekly fuel n mask monday d)
unfolding next_weekly
next_weekly-Weekly zero n mask monday d some_n from = tt
next_weekly-Weekly (suc fuel) n mask monday d some_n from =
    by_week (λ e from_e. next_weekly-Weekly fuel n mask monday e some_n from_e)
      (eqb ((d - monday) / 7 % n) 0) refl
  where
    week : ℕ
    week = (d - monday) / 7

    later : ℕ → Option ℕ
    later e = next_weekly fuel n mask monday e

    go_on :
        ((e : ℕ) → monday ≤ e → Weekly n mask monday e (later e))
        → (e : ℕ) → monday ≤ e
        → d ≤ e
        → Weekly n mask monday d (later e)
    go_on weekly e from_e le = Weekly-later n mask monday d e (later e) le (weekly e from_e)

    by_week :
        ((e : ℕ) → monday ≤ e → Weekly n mask monday e (later e))
        → (b : Bool) → eqb (week % n) 0 ≡ b
        → Weekly n mask monday d (
            if b
            then or_later
                (scan_week (7 - (d - monday) % 7) mask d)
                (later (monday + (week + 1) * 7))
            else later (monday + (week + n - week % n) * 7))
    by_week weekly true e =
        or_later-Weekly n mask monday d (scan_week (7 - (d - monday) % 7) mask d)
          (later (monday + (week + 1) * 7)) from ((eqb_iff (week % n) 0).0 e)
          (scan_week-Scanned (7 - (d - monday) % 7) mask d)
          (go_on weekly (monday + (week + 1) * 7) (omega arith) (omega (arith, from)))
    by_week weekly false e =
        go_on weekly (monday + (week + n - week % n) * 7) (omega arith)
          (omega (arith, from, mod-lt week {m = n} (omega (arith, some_n))))
