-- ===== src/Maintenance/Fields.antt =====
-- maintenance/validate.go: what an accepted window has.
use health_beat.Prelude.{
  ℕ, ◌<◌, ◌≤◌, Bool, true, false, not, ◌||◌, String, Option, none, some, string_eq, if◌then◌else◌,
  ◌≡◌, refl, ap, arith, ◌⊎◌, inl, inr,
}
use health_beat.Prelude.Int.{ℤ, pos, negsuc, ◌≤ℤ◌, same_ℤ}
use health_beat.Maintenance.Window.{MaintenanceWindow}
use health_beat.Maintenance.Validate.{
  missing, given, within, ordered, ends_before, is_last, month_last,
}

-- A field that is there, and one that is not.
abbrev pub Given : {A : Type 0} → Option A → Type 0
Given none = ⊥
Given (some x) = Unit

abbrev pub Absent : {A : Type 0} → Option A → Type 0
Absent none = Unit
Absent (some x) = ⊥

-- A number that is there, from `lo` to `hi`, or that stands for the last.
abbrev pub Bounded : ℤ → ℤ → Option ℤ → Type 0
Bounded lo hi none = ⊥
Bounded lo hi (some x) = (lo ≤ℤ x) × (x ≤ℤ hi)

abbrev pub BoundedOrLast : ℤ → ℤ → Option ℤ → Type 0
BoundedOrLast lo hi none = ⊥
BoundedOrLast lo hi (some x) = (x ≡ negsuc 0) ⊎ (lo ≤ℤ x) × (x ≤ℤ hi)

-- Two times that are there, the first before the second; a last day that is not before the first.
abbrev pub Ordered : Option ℕ → Option ℕ → Type 0
Ordered (some s) (some e) = s < e
Ordered none e = ⊥
Ordered (some s) none = ⊥

abbrev pub NotBefore : Option ℕ → Option ℕ → Type 0
NotBefore none from = Unit
NotBefore (some until) none = Unit
NotBefore (some until) (some from) = from ≤ until

abbrev pub NoMonth : MaintenanceWindow → Type 0
NoMonth w = Absent w.month_day × (Absent w.month_week × Absent w.month_weekday)

-- A window that happens once.
pub record Once (w : MaintenanceWindow) : Type 0 where
  pub span : Ordered w.starts_at w.ends_at
  pub no_start : Absent w.start_minute
  pub no_duration : Absent w.duration_minutes
  pub no_from : Absent w.valid_from
  pub no_until : Absent w.valid_until
  pub no_weekdays : Absent w.weekdays
  pub no_month : NoMonth w
  pub no_repeat : w.repeat_every ≤ℤ pos 1

-- A window that recurs, with the limits of its kind and the days that it needs.
pub record Recurring (w : MaintenanceWindow) (minutes interval : ℤ) (Days : Type 0) : Type 0 where
  pub no_instants : Absent w.starts_at × Absent w.ends_at
  pub start : Bounded (pos 0) (pos 1439) w.start_minute
  pub duration : Bounded (pos 1) minutes w.duration_minutes
  pub repeats : (pos 1 ≤ℤ w.repeat_every) × (w.repeat_every ≤ℤ interval)
  pub from : Given w.valid_from
  pub until : NotBefore w.valid_until w.valid_from
  pub days : Days

abbrev pub MonthDays : MaintenanceWindow → Type 0
MonthDays w =
    BoundedOrLast (pos 1) (pos 28) w.month_day × (Absent w.month_week × Absent w.month_weekday)
    ⊎ Absent w.month_day
      × (BoundedOrLast (pos 1) (pos 4) w.month_week × Bounded (pos 1) (pos 7) w.month_weekday)

abbrev pub Complete : MaintenanceWindow → Type 0
Complete w =
    (w.recurrence ≡ "once") × Once w
    ⊎ ((w.recurrence ≡ "daily") × Recurring w (pos 1440) (pos 30) (Absent w.weekdays × NoMonth w)
        ⊎ ((w.recurrence ≡ "weekly")
              × Recurring w (pos 10080) (pos 12) (Bounded (pos 1) (pos 127) w.weekdays × NoMonth w)
            ⊎ (w.recurrence ≡ "monthly")
              × Recurring w (pos 10080) (pos 12) (Absent w.weekdays × MonthDays w)))

-- A chain of refusals accepts only where each test fails.
pub refused :
    (b : Bool) (field : String) (rest : Option String)
    → (if b then some field else rest) ≡ none
    → (b ≡ false) × (rest ≡ none)
refused true field rest h = let absurd : ⊥ = ground (arith, h) in elim absurd [ ]
refused false field rest h = (refl, h)

pub Absent-given : {A : Type 0} (o : Option A) → given o ≡ false → Absent o
Absent-given none h = tt
Absent-given (some x) h = ground (arith, h)

pub Given-missing : {A : Type 0} (o : Option A) → missing o ≡ false → Given o
Given-missing none h = ground (arith, h)
Given-missing (some x) h = tt

pub within-Bounded : (lo hi : ℤ) (o : Option ℤ) → not (within lo hi o) ≡ false → Bounded lo hi o
within-Bounded lo hi none h = ground (arith, h)
within-Bounded lo hi (some x) h = (ground (arith, h), ground (arith, h))

last_lem : (x : ℤ) → same_ℤ x month_last ≡ true → x ≡ negsuc 0
last_lem (pos n) h = ground (arith, h)
last_lem (negsuc n) h = ap negsuc (ground (arith, h))

pub within-BoundedOrLast :
    (lo hi : ℤ) (o : Option ℤ) → (is_last o || within lo hi o) ≡ true → BoundedOrLast lo hi o
within-BoundedOrLast lo hi none h = ground (arith, h)
within-BoundedOrLast lo hi (some x) h = by_last (same_ℤ x month_last) refl
  where
    by_last : (b : Bool) → same_ℤ x month_last ≡ b → BoundedOrLast lo hi (some x)
    by_last true e = inl (last_lem x e)
    by_last false e = inr (ground (arith, h, e), ground (arith, h, e))

pub ordered-Ordered : (s e : Option ℕ) → not (ordered s e) ≡ false → Ordered s e
ordered-Ordered (some s) (some e) h = ground (arith, h)
ordered-Ordered none e h = ground (arith, h)
ordered-Ordered (some s) none h = ground (arith, h)

pub ends_before-NotBefore : (u f : Option ℕ) → ends_before u f ≡ false → NotBefore u f
ends_before-NotBefore none f h = tt
ends_before-NotBefore (some u) none h = tt
ends_before-NotBefore (some u) (some f) h = ground (arith, h)
