-- ===== src/Version/Reversed.antt =====
-- version/version.go of the server: the comparison is the same from both sides.
use health_beat.Prelude.{
  ℕ, Bool, true, false, ◌&&◌, List, [], ◌∷◌, length, if◌then◌else◌, ◌≡◌, refl, ap, ◌∙◌, arith,
}
use health_beat.Version.Compare.{
  Comparison, before, same, after, or_then, compare_int, compare_text, trim_zeros, compare_numeric,
  is_uint, is_empty, split, split_semver, compare_prerelease, compare_ids, compare_pre, compare,
}

abbrev pub opposite : Comparison → Comparison
opposite before = after
opposite same = same
opposite after = before

or_then-opposite :
    (a c : Comparison) {b d : Comparison}
    → b ≡ opposite a
    → d ≡ opposite c
    → or_then b d ≡ opposite (or_then a c)
or_then-opposite a c {b = b} {d = d} first next =
    ap (λ x. or_then x d) first ∙ (ap (or_then (opposite a)) next ∙ by_first a)
  where
    by_first : (a : Comparison) → or_then (opposite a) (opposite c) ≡ opposite (or_then a c)
    by_first before = refl
    by_first same = refl
    by_first after = refl

compare_int-opposite : (a b : ℕ) → compare_int b a ≡ opposite (compare_int a b)
unfolding compare_int
compare_int-opposite a b = ground arith

compare_text-opposite : (a b : List ℕ) → compare_text b a ≡ opposite (compare_text a b)
unfolding compare_text
compare_text-opposite [] [] = refl
compare_text-opposite [] (y ∷ ys) = refl
compare_text-opposite (x ∷ xs) [] = refl
compare_text-opposite (x ∷ xs) (y ∷ ys) =
    or_then-opposite _ _ (compare_int-opposite x y) (compare_text-opposite xs ys)

compare_numeric-opposite : (a b : List ℕ) → compare_numeric b a ≡ opposite (compare_numeric a b)
unfolding compare_numeric
compare_numeric-opposite a b =
    or_then-opposite _ _ (compare_int-opposite (length (trim_zeros a)) (length (trim_zeros b)))
      (compare_text-opposite (trim_zeros a) (trim_zeros b))

-- A choice by a test on each of both sides.
by_kinds :
    (p q : Bool) (m k : Comparison) {n l : Comparison} (alone : Comparison)
    → n ≡ opposite m
    → l ≡ opposite k
    → (if q && p then n else if q then alone else if p then opposite alone else l)
      ≡ opposite (if p && q then m else if p then alone else if q then opposite alone else k)
by_kinds true true m k alone h e = h
by_kinds true false m k before h e = refl
by_kinds true false m k same h e = refl
by_kinds true false m k after h e = refl
by_kinds false true m k before h e = refl
by_kinds false true m k same h e = refl
by_kinds false true m k after h e = refl
by_kinds false false m k alone h e = e

compare_prerelease-opposite :
    (a b : List ℕ) → compare_prerelease b a ≡ opposite (compare_prerelease a b)
unfolding compare_prerelease
compare_prerelease-opposite a b =
    by_kinds (is_uint a) (is_uint b) _ _ before (compare_numeric-opposite a b)
      (compare_text-opposite a b)

compare_ids-opposite : (a b : List (List ℕ)) → compare_ids b a ≡ opposite (compare_ids a b)
unfolding compare_ids
compare_ids-opposite [] [] = refl
compare_ids-opposite [] (y ∷ ys) = refl
compare_ids-opposite (x ∷ xs) [] = refl
compare_ids-opposite (x ∷ xs) (y ∷ ys) =
    or_then-opposite _ _ (compare_prerelease-opposite x y) (compare_ids-opposite xs ys)

compare_pre-opposite : (a b : List ℕ) → compare_pre b a ≡ opposite (compare_pre a b)
unfolding compare_pre
compare_pre-opposite a b =
    by_kinds (is_empty a) (is_empty b) same _ after refl
      (compare_ids-opposite (split 46 a) (split 46 b))

-- `Compare` of any two texts, with the arguments swapped, gives the opposite result: what is before
-- becomes after, and equal versions stay equal.
pub compare-opposite : (a b : List ℕ) → compare b a ≡ opposite (compare a b)
unfolding compare
compare-opposite a b =
    or_then-opposite _ _ (compare_numeric-opposite (split_semver a).major (split_semver b).major) (
      or_then-opposite _ _ (compare_numeric-opposite (split_semver a).minor (split_semver b).minor)
        (or_then-opposite _ _
          (compare_numeric-opposite (split_semver a).patch (split_semver b).patch)
          (compare_pre-opposite (split_semver a).pre (split_semver b).pre)))
