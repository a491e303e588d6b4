-- ===== src/Version/Compare.antt =====
-- version/version.go of the server: the comparison of two semantic versions. A text is the list of its
-- bytes.
use health_beat.Prelude.{
  ℕ, ◌+◌, ◌-◌, ◌*◌, ◌^◌, Bool, true, false, not, ◌&&◌, List, [], ◌∷◌, length, ltb, leb, eqb,
  if◌then◌else◌,
}

-- The results -1, 0 and 1.
pub data Comparison : Type 0 where
  before same after : Comparison

-- The second test decides where the first finds no difference.
abbrev pub or_then : Comparison → Comparison → Comparison
or_then before next = before
or_then same next = next
or_then after next = after

unfoldable pub compare_int : ℕ → ℕ → Comparison
compare_int a b = if ltb a b then before else (if ltb b a then after else same)

-- strings.Compare
unfoldable pub compare_text : List ℕ → List ℕ → Comparison
unfolding compare_int
compare_text [] [] = same
compare_text [] (y ∷ ys) = before
compare_text (x ∷ xs) [] = after
compare_text (x ∷ xs) (y ∷ ys) = or_then (compare_int x y) (compare_text xs ys)

-- strings.TrimLeft(s, "0")
abbrev pub trim_zeros : List ℕ → List ℕ
trim_zeros [] = []
trim_zeros (c ∷ s) = let rest = trim_zeros s in if eqb c 48 then rest else c ∷ s

-- `compareNumeric`
unfoldable pub compare_numeric : List ℕ → List ℕ → Comparison
unfolding compare_int compare_text
compare_numeric a b =
    or_then (compare_int (length (trim_zeros a)) (length (trim_zeros b)))
      (compare_text (trim_zeros a) (trim_zeros b))

abbrev pub is_digit : ℕ → Bool
is_digit c = leb 48 c && leb c 57

abbrev pub all_digits : List ℕ → Bool
all_digits [] = true
all_digits (c ∷ s) = is_digit c && all_digits s

-- The weight of a digit before the digits `s`, and the number that digits stand for.
abbrev pub weight : List ℕ → ℕ
weight [] = 1
weight (c ∷ s) = 10 * weight s

abbrev pub value : List ℕ → ℕ
value [] = 0
value (c ∷ s) = (c - 48) * weight s + value s

abbrev pub is_empty : List ℕ → Bool
is_empty [] = true
is_empty (c ∷ s) = false

-- strconv.ParseUint(s, 10, 64) has no error.
abbrev pub is_uint : List ℕ → Bool
is_uint s = not (is_empty s) && (all_digits s && ltb (value s) (2 ^ 64))

-- `comparePrerelease`
unfoldable pub compare_prerelease : List ℕ → List ℕ → Comparison
unfolding compare_numeric compare_text
compare_prerelease a b =
    if is_uint a && is_uint b
    then compare_numeric a b
    else if is_uint a
    then before
    else if is_uint b
    then after
    else compare_text a b

-- The text before the first `sep`, and that after it; strings.Cut.
abbrev pub cut_before : ℕ → List ℕ → List ℕ
cut_before sep [] = []
cut_before sep (c ∷ s) = let rest = cut_before sep s in if eqb c sep then [] else c ∷ rest

abbrev pub cut_after : ℕ → List ℕ → List ℕ
cut_after sep [] = []
cut_after sep (c ∷ s) = let rest = cut_after sep s in if eqb c sep then s else rest

abbrev pub put_first : ℕ → List (List ℕ) → List (List ℕ)
put_first c [] = (c ∷ []) ∷ []
put_first c (s ∷ more) = (c ∷ s) ∷ more

-- strings.Split
abbrev pub split : ℕ → List ℕ → List (List ℕ)
split sep [] = [] ∷ []
split sep (c ∷ s) = let rest = split sep s in if eqb c sep then [] ∷ rest else put_first c rest

-- `splitSemver`: the three numbers and the prerelease, which is the empty text where there is none.
pub record Semver : Type 0 where
  pub major : List ℕ
  pub minor : List ℕ
  pub patch : List ℕ
  pub pre : List ℕ

unfoldable pub split_semver : List ℕ → Semver
split_semver v =
    let release = cut_before 43 v in
    let core = cut_before 45 release in
    record {
      major = cut_before 46 core;
      minor = cut_before 46 (cut_after 46 core);
      patch = cut_after 46 (cut_after 46 core);
      pre = cut_after 45 release;
    }

-- The loop over the identifiers of both prereleases.
unfoldable pub compare_ids : List (List ℕ) → List (List ℕ) → Comparison
unfolding compare_prerelease
compare_ids [] [] = same
compare_ids [] (b ∷ bs) = before
compare_ids (a ∷ as_left) [] = after
compare_ids (a ∷ as_left) (b ∷ bs) = or_then (compare_prerelease a b) (compare_ids as_left bs)

unfoldable pub compare_pre : List ℕ → List ℕ → Comparison
unfolding compare_ids
compare_pre a b =
    if is_empty a && is_empty b
    then same
    else if is_empty a
    then after
    else if is_empty b
    then before
    else compare_ids (split 46 a) (split 46 b)

-- `Compare`
unfoldable pub compare : List ℕ → List ℕ → Comparison
unfolding split_semver compare_numeric compare_pre
compare a b =
    let x = split_semver a in
    let y = split_semver b in
    or_then (compare_numeric x.major y.major) (
      or_then (compare_numeric x.minor y.minor)
        (or_then (compare_numeric x.patch y.patch) (compare_pre x.pre y.pre)))
