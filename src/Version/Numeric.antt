-- ===== src/Version/Numeric.antt =====
-- version/version.go of the server (`compareNumeric`): the comparison of digits is that of numbers.
use native.Mathlib.Nat.{mul-le-mul_right, suc-mul}
use health_beat.Prelude.{
  ℕ, ◌+◌, ◌-◌, ◌*◌, ◌≤◌, ◌<◌, Bool, true, false, List, [], ◌∷◌, length, All, eqb, if◌then◌else◌,
  ◌≡◌, refl, sym, subst, ap, ◌∙◌, arith, ◌⊎◌, inl, inr,
}
use health_beat.Version.Compare.{
  before, same, after, or_then, compare_int, compare_text, trim_zeros, compare_numeric, weight,
  value,
}

abbrev pub Digit : ℕ → Type 0
Digit c = (48 ≤ c) × (c ≤ 57)

mul-lt_step : (u v p : ℕ) → u < v → u * p + p ≤ v * p
mul-lt_step u v p lt = subst (λ m. m ≤ v * p) (suc-mul u p) (mul-le-mul_right p (omega (arith, lt)))

value-lt : (s : List ℕ) → All Digit s → value s < weight s
value-lt [] h = omega arith
value-lt (c ∷ s) h =
    omega (arith, mul-lt_step (c - 48) 10 (weight s) (omega (arith, h.0.1)), value-lt s h.1)

weight-le : (s t : List ℕ) → length s ≤ length t → weight s ≤ weight t
weight-le [] [] le = omega arith
weight-le [] (d ∷ t) le = omega (arith, weight-le [] t (omega arith))
weight-le (c ∷ s) [] le = absurd (omega (arith, le))
weight-le (c ∷ s) (d ∷ t) le = omega (arith, weight-le s t (omega (arith, le)))

before_lem : (a b : ℕ) → a < b → compare_int a b ≡ before
unfolding compare_int
before_lem a b lt = ground arith

after_lem : (a b : ℕ) → b < a → compare_int a b ≡ after
unfolding compare_int
after_lem a b lt = ground arith

same_lem : (a b : ℕ) → a ≡ b → compare_int a b ≡ same
unfolding compare_int
same_lem a b e = ground arith

compare_int-add : (k a b : ℕ) → compare_int (k + a) (k + b) ≡ compare_int a b
unfolding compare_int
compare_int-add k a b = ground arith

order : (a b : ℕ) → (a < b) ⊎ ((a ≡ b) ⊎ (b < a))
order a b = ground arith

same_weight : (s t : List ℕ) → length s ≡ length t → weight s ≡ weight t
same_weight s t e =
    omega (arith, weight-le s t (omega (arith, e)), weight-le t s (omega (arith, e)))

-- Digits of the same weight before others: the larger one decides.
leads :
    (x y : ℕ) (s t : List ℕ)
    → 48 ≤ x
    → x < y
    → All Digit s
    → length s ≡ length t
    → value (x ∷ s) < value (y ∷ t)
leads x y s t digit lt h e = omega (
  arith,
  value-lt s h,
  mul-lt_step (x - 48) (y - 48) (weight s) (omega (arith, digit, lt)),
  ap (λ p. (y - 48) * p) (same_weight s t e),
)

compare_text-value :
    (s t : List ℕ)
    → All Digit s
    → All Digit t
    → length s ≡ length t
    → compare_text s t ≡ compare_int (value s) (value t)
unfolding compare_text
compare_text-value [] [] h k e = sym (same_lem 0 0 refl)
compare_text-value [] (y ∷ t) h k e = absurd (omega (arith, e))
compare_text-value (x ∷ s) [] h k e = absurd (omega (arith, e))
compare_text-value (x ∷ s) (y ∷ t) h k e =
    by_first (order x y) (compare_text-value s t h.1 k.1 (omega (arith, e)))
  where
    by_first :
        (x < y) ⊎ ((x ≡ y) ⊎ (y < x))
        → compare_text s t ≡ compare_int (value s) (value t)
        → or_then (compare_int x y) (compare_text s t) ≡ compare_int (value (x ∷ s)) (value (y ∷ t))
    by_first (inl lt) rest =
        ap (λ c. or_then c (compare_text s t)) (before_lem x y lt)
        ∙ sym (
            before_lem (value (x ∷ s)) (value (y ∷ t))
              (leads x y s t h.0.0 lt h.1 (omega (arith, e))))
    by_first (inr (inl is)) rest =
        ap (λ c. or_then c (compare_text s t)) (same_lem x y is)
        ∙ (rest
            ∙ (sym (compare_int-add ((x - 48) * weight s) (value s) (value t))
                ∙ ap (λ m. compare_int ((x - 48) * weight s + value s) (m + value t)) lead))
      where
        lead : (x - 48) * weight s ≡ (y - 48) * weight t
        lead =
            ap (λ c. (c - 48) * weight s) is
            ∙ ap (λ p. (y - 48) * p) (same_weight s t (omega (arith, e)))
    by_first (inr (inr gt)) rest =
        ap (λ c. or_then c (compare_text s t)) (after_lem x y gt)
        ∙ sym (
            after_lem (value (x ∷ s)) (value (y ∷ t))
              (leads y x t s k.0.0 gt k.1 (omega (arith, e))))

-- No zero leads.
abbrev Leading : List ℕ → Type 0
Leading [] = Unit
Leading (c ∷ s) = weight s ≤ value (c ∷ s)

abbrev Trims : List ℕ → List ℕ → Type 0
Trims s t = (All Digit t × Leading t) × (value t ≡ value s)

trim_zeros-Trims : (s : List ℕ) → All Digit s → Trims s (trim_zeros s)
trim_zeros-Trims [] h = ((tt, tt), refl)
trim_zeros-Trims (c ∷ s) h = by_zero (eqb c 48) refl (trim_zeros-Trims s h.1)
  where
    by_zero :
        (b : Bool)
        → eqb c 48 ≡ b
        → Trims s (trim_zeros s)
        → Trims (c ∷ s) (if b then trim_zeros s else c ∷ s)
    by_zero true e rest =
        (rest.0, rest.1 ∙ omega (arith, ap (λ d. d * weight s) {x = 0} {y = c - 48} (ground arith)))
    by_zero false e rest =
        ((h, omega (arith, mul-lt_step 0 (c - 48) (weight s) (ground (arith, h.0.0)))), refl)

longer : (s t : List ℕ) → All Digit s → Leading t → length s < length t → value s < value t
longer s [] h lead lt = absurd (omega (arith, lt))
longer s (c ∷ t) h lead lt = omega (arith, value-lt s h, weight-le s t (omega (arith, lt)), lead)

trimmed-value :
    (s t : List ℕ)
    → (All Digit s × Leading s)
    → (All Digit t × Leading t)
    → or_then (compare_int (length s) (length t)) (compare_text s t)
      ≡ compare_int (value s) (value t)
trimmed-value s t h k = by_length (order (length s) (length t))
  where
    by_length :
        (length s < length t) ⊎ ((length s ≡ length t) ⊎ (length t < length s))
        → or_then (compare_int (length s) (length t)) (compare_text s t)
          ≡ compare_int (value s) (value t)
    by_length (inl lt) =
        ap (λ c. or_then c (compare_text s t)) (before_lem (length s) (length t) lt)
        ∙ sym (before_lem (value s) (value t) (longer s t h.0 k.1 lt))
    by_length (inr (inl e)) =
        ap (λ c. or_then c (compare_text s t)) (same_lem (length s) (length t) e)
        ∙ compare_text-value s t h.0 k.0 e
    by_length (inr (inr gt)) =
        ap (λ c. or_then c (compare_text s t)) (after_lem (length s) (length t) gt)
        ∙ sym (after_lem (value s) (value t) (longer t s k.0 h.1 gt))

-- Of digits of any length, with any zeros in front, `compareNumeric` gives the order of the numbers
-- that they stand for.
pub compare_numeric-value :
    (a b : List ℕ)
    → All Digit a
    → All Digit b
    → compare_numeric a b ≡ compare_int (value a) (value b)
unfolding compare_numeric
compare_numeric-value a b h k =
    trimmed-value (trim_zeros a) (trim_zeros b) (trim_zeros-Trims a h).0 (trim_zeros-Trims b k).0
    ∙ (ap (λ v. compare_int v (value (trim_zeros b))) (trim_zeros-Trims a h).1
        ∙ ap (compare_int (value a)) (trim_zeros-Trims b k).1)
