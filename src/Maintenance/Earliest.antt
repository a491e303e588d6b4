-- ===== src/Maintenance/Earliest.antt =====
-- maintenance/maintenance.go (`nextStartDate`): no day of the window is before the day that it gives.
use native.Mathlib.Nat.{mod-add-mod, mod-eq_of_lt}
use health_beat.Prelude.{
  ℕ, zero, suc, ◌+◌, ◌-◌, ◌*◌, ◌/◌, ◌%◌, ◌≤◌, ◌<◌, Bool, true, false, Option, none, some,
  some-injective, eqb, if◌then◌else◌, ◌≡◌, refl, sym, ap, ◌∙◌, arith, ◌⊎◌, inl, inr,
}
use health_beat.Maintenance.Calendar.{aligned, has_day, scan_week, or_later, next_weekly}
use health_beat.Maintenance.Weeks.{scan_week-none}

-- Between a number and the next multiple of `n` there is no multiple.
gap_lem : (n k x : ℕ) → ¬ (k % n ≡ 0) → k ≤ x → x < k + n - k % n → ¬ (x % n ≡ 0)
gap_lem n k x off from lt fits = off (omega (arith, small ∙ wrapped))
  where
    small : k % n + (x - k) ≡ (k % n + (x - k)) % n
    small = sym (mod-eq_of_lt {n = k % n + (x - k)} {m = n} (omega (arith, from, lt)))

    wrapped : (k % n + (x - k)) % n ≡ 0
    wrapped =
        mod-add-mod k n (x - k)
        ∙ (ap (λ m. m % n) {x = k + (x - k)} {y = x} (omega (arith, from)) ∙ fits)

pub aligned-least : (n k x : ℕ) → k ≤ x → x < aligned n k → ¬ (x % n ≡ 0)
unfolding aligned
aligned-least n k x from = by_rest (eqb (k % n) 0) refl
  where
    by_rest :
        (b : Bool) → eqb (k % n) 0 ≡ b → x < (if b then k else k + (n - k % n)) → ¬ (x % n ≡ 0)
    by_rest true e lt = absurd (omega (arith, from, lt))
    by_rest false e lt = gap_lem n k x (λ z. ground arith) from (omega (arith, lt))

-- No day from `d` on before `out` is a day of the mask in a week of the window.
abbrev pub Free : ℕ → ℕ → ℕ → ℕ → ℕ → Type 0
Free n mask monday d out =
    (x : ℕ) → d ≤ x → x < out → has_day mask x ≡ true → ¬ ((x - monday) / 7 % n ≡ 0)

split_le : (a b : ℕ) → a ≤ b → (a ≡ b) ⊎ (a < b)
split_le a b h = ground arith

split_lt : (a b : ℕ) → (a < b) ⊎ (b ≤ a)
split_lt a b = ground arith

or_else {ℓ} : {A B : Type 0} {C : Type ℓ} → A ⊎ B → (A → C) → (B → C) → C
or_else (inl a) f g = f a
or_else (inr b) f g = g b

pub not_both : (b : Bool) → b ≡ true → b ≡ false → ⊥
not_both b h e = cc

scan_week-first :
    (k mask d out : ℕ)
    → scan_week k mask d ≡ some out
    → (x : ℕ) → d ≤ x
    → x < out
    → has_day mask x ≡ false
unfolding scan_week
scan_week-first zero mask d out e x from lt = cc
scan_week-first (suc k) mask d out e x from lt =
    by_day (scan_week-first k mask (suc d) out) (has_day mask d) refl e
  where
    by_day :
        (scan_week k mask (suc d) ≡ some out
          → (x : ℕ) → suc d ≤ x
          → x < out
          → has_day mask x ≡ false)
        → (b : Bool) → has_day mask d ≡ b
        → (if b then some d else scan_week k mask (suc d)) ≡ some out
        → has_day mask x ≡ false
    by_day first true is e = absurd (omega (arith, some-injective d out e, from, lt))
    by_day first false is e =
        or_else (split_le d x from) (λ same. ap (has_day mask) (sym same) ∙ is)
          (λ after. first e x after lt)

pub next_weekly-Free :
    (fuel n mask monday d out : ℕ)
    → monday ≤ d
    → next_weekly fuel n mask monday d ≡ some out
    → Free n mask monday d out
unfolding next_weekly
next_weekly-Free zero n mask monday d out from e = cc
next_weekly-Free (suc fuel) n mask monday d out from e =
    by_week (λ next. next_weekly-Free fuel n mask monday next out) (eqb ((d - monday) / 7 % n) 0)
      refl e
  where
    week : ℕ
    week = (d - monday) / 7

    following : ℕ
    following = monday + (week + 1) * 7

    skipped : ℕ
    skipped = monday + (week + n - week % n) * 7

    later : ℕ → Option ℕ
    later next = next_weekly fuel n mask monday next

    scanned :
        (r : Option ℕ)
        → scan_week (7 - (d - monday) % 7) mask d ≡ r
        → (monday ≤ following → later following ≡ some out → Free n mask monday following out)
        → or_later r (later following) ≡ some out
        → Free n mask monday d out
    scanned (some first) is free rest x le lt day fits =
        not_both (has_day mask x) day
          (scan_week-first (7 - (d - monday) % 7) mask d out (is ∙ rest) x le lt)
    scanned none is free rest x le lt day fits =
        or_else (split_lt x following)
          (λ before. not_both (has_day mask x) day (
            ap (has_day mask) {x = x} {y = d + (x - d)} (omega (arith, le))
            ∙ scan_week-none (7 - (d - monday) % 7) mask d is (x - d)
                (omega (arith, le, before, from))))
          (λ after. free (omega arith) rest x after lt day fits)

    by_week :
        ((next : ℕ) → monday ≤ next → later next ≡ some out → Free n mask monday next out)
        → (b : Bool) → eqb (week % n) 0 ≡ b
        → (if b
            then or_later (scan_week (7 - (d - monday) % 7) mask d) (later following)
            else later skipped)
          ≡ some out
        → Free n mask monday d out
    by_week free true is e x le lt day fits =
        scanned (scan_week (7 - (d - monday) % 7) mask d) refl (free following) e x le lt day fits
    by_week free false is e x le lt day fits =
        or_else (split_lt x skipped)
          (λ before.
            gap_lem n week ((x - monday) / 7) (λ z. ground arith) (omega (arith, le, from))
              (omega (arith, le, before, from)) fits)
          (λ after. free skipped (omega arith) e x after lt day fits)
