-- ===== src/Ingest/Ranges.antt =====
-- model/ingest_v4.go: the tests on single values. A bound is a whole number.
use health_beat.Prelude.{
  ℕ, ◌*◌, ◌+◌, Bool, true, false, ◌&&◌, String, List, Option, none, some, any, ◌==◌, string_eq,
  if◌then◌else◌, ◌≡◌, refl, arith,
}
use health_beat.Prelude.Int.{ℤ, pos, negsuc, leb_ℤ, ◌≤ℤ◌}
use health_beat.Ingest.Types.{Float64, nan, infinite, finite}

-- A whole number as thousandths.
abbrev pub thousandths : ℤ → ℤ
thousandths (pos n) = pos (1000 * n)
thousandths (negsuc n) = negsuc (1000 * n + 999)

-- `inRange`
unfoldable pub in_range : Float64 → ℤ → ℤ → Bool
in_range nan lo hi = false
in_range infinite lo hi = false
in_range (finite x) lo hi = leb_ℤ (thousandths lo) x && leb_ℤ x (thousandths hi)

-- `floatIn`
unfoldable pub float_in : Option Float64 → ℤ → ℤ → Option Float64
unfolding in_range
float_in none lo hi = none
float_in (some x) lo hi = if in_range x lo hi then some x else none

-- `intIn`
unfoldable pub int_in : Option ℤ → ℤ → ℤ → Option ℤ
int_in none lo hi = none
int_in (some x) lo hi = if leb_ℤ lo x && leb_ℤ x hi then some x else none

-- `int64NonNeg`
unfoldable pub int64_non_neg : Option ℤ → Option ℤ
int64_non_neg none = none
int64_non_neg (some x) = if leb_ℤ (pos 0) x then some x else none

abbrev pub int_between : ℤ → ℤ → ℤ → Bool
int_between x lo hi = leb_ℤ lo x && leb_ℤ x hi

abbrev pub one_of : List String → String → Bool
one_of texts s = any (λ t. t == s) texts

-- The value of a map of accepted texts, or the empty text.
abbrev pub accepted : List String → String → String
accepted texts s = if one_of texts s then s else ""

-- The bounds of ingest_v4.go and host_info.go.
abbrev pub max_v4_entries : ℕ
max_v4_entries = 64

abbrev pub max_count : ℤ
max_count = pos 1_000_000_000

abbrev pub max_rate : ℤ
max_rate = pos 1_000_000_000_000_000

abbrev pub max_iops : ℤ
max_iops = pos 1_000_000_000

abbrev pub max_millis : ℤ
max_millis = pos 1_000_000_000

abbrev pub min_celsius : ℤ
min_celsius = negsuc 99

abbrev pub max_celsius : ℤ
max_celsius = pos 500

abbrev pub max_swap_mb : ℤ
max_swap_mb = pos 1_099_511_627_776

abbrev pub percent : ℤ
percent = pos 100

abbrev pub zero_ℤ : ℤ
zero_ℤ = pos 0

-- A whole number, and a finite reading, from `lo` to `hi`.
abbrev pub Amid : ℤ → ℤ → ℤ → Type 0
Amid lo hi x = (lo ≤ℤ x) × (x ≤ℤ hi)

abbrev pub Inside : ℤ → ℤ → Float64 → Type 0
Inside lo hi nan = ⊥
Inside lo hi infinite = ⊥
Inside lo hi (finite x) = Amid (thousandths lo) (thousandths hi) x

pub int_between-Amid : (x lo hi : ℤ) → int_between x lo hi ≡ true → Amid lo hi x
int_between-Amid x lo hi h = (ground (arith, h), ground (arith, h))

pub in_range-Inside : (x : Float64) (lo hi : ℤ) → in_range x lo hi ≡ true → Inside lo hi x
unfolding in_range
in_range-Inside nan lo hi h = ground (arith, h)
in_range-Inside infinite lo hi h = ground (arith, h)
in_range-Inside (finite x) lo hi h = int_between-Amid x (thousandths lo) (thousandths hi) h

-- What `floatIn` lets through.
abbrev pub InRange : ℤ → ℤ → Option Float64 → Type 0
InRange lo hi none = Unit
InRange lo hi (some x) = Inside lo hi x

pub float_in-InRange : (o : Option Float64) (lo hi : ℤ) → InRange lo hi (float_in o lo hi)
unfolding float_in
float_in-InRange none lo hi = tt
float_in-InRange (some x) lo hi = by_test (in_range x lo hi) refl
  where
    by_test : (b : Bool) → in_range x lo hi ≡ b → InRange lo hi (if b then some x else none)
    by_test true e = in_range-Inside x lo hi e
    by_test false e = tt

-- What `intIn` lets through.
abbrev pub Between : ℤ → ℤ → Option ℤ → Type 0
Between lo hi none = Unit
Between lo hi (some x) = Amid lo hi x

pub int_in-Between : (o : Option ℤ) (lo hi : ℤ) → Between lo hi (int_in o lo hi)
unfolding int_in
int_in-Between none lo hi = tt
int_in-Between (some x) lo hi = by_test (int_between x lo hi) refl
  where
    by_test : (b : Bool) → int_between x lo hi ≡ b → Between lo hi (if b then some x else none)
    by_test true e = int_between-Amid x lo hi e
    by_test false e = tt

-- What `int64NonNeg` lets through.
abbrev pub NonNegative : Option ℤ → Type 0
NonNegative none = Unit
NonNegative (some x) = pos 0 ≤ℤ x

pub int64_non_neg-NonNegative : (o : Option ℤ) → NonNegative (int64_non_neg o)
unfolding int64_non_neg
int64_non_neg-NonNegative none = tt
int64_non_neg-NonNegative (some x) = by_test (leb_ℤ (pos 0) x) refl
  where
    by_test : (b : Bool) → leb_ℤ (pos 0) x ≡ b → NonNegative (if b then some x else none)
    by_test true e = ground (arith, e)
    by_test false e = tt
