-- ===== src/Version/Examples.antt =====
-- Versions at concrete inputs: tests, and instances of the theorems.
use Prim.Native.Char.{code}
use Prim.Native.String.{String}
use health_beat.Prelude.{ℕ, List, [], ◌∷◌, ◌≡◌, refl, arith}
use health_beat.Version.Compare.{
  before, same, after, compare_int, compare_text, compare_numeric, compare_prerelease, compare_ids,
  compare_pre, compare, split_semver, value,
}
use health_beat.Version.Numeric.{compare_numeric-value}
use health_beat.Version.Reversed.{opposite, compare-opposite}

abbrev bytes : String → List ℕ
bytes String.[] = []
bytes (String.◌∷◌ c s) = code c ∷ bytes s

number_in_prerelease : compare (bytes "1.0.0-beta.2") (bytes "1.0.0-beta.11") ≡ before
unfolding compare split_semver compare_pre compare_ids compare_prerelease compare_numeric
    compare_text compare_int
number_in_prerelease = refl

release_last : compare (bytes "1.0.0") (bytes "1.0.0-rc.1") ≡ after
unfolding compare split_semver compare_pre compare_ids compare_prerelease compare_numeric
    compare_text compare_int
release_last = refl

build_ignored : compare (bytes "1.10.0+build.5") (bytes "1.10.0") ≡ same
unfolding compare split_semver compare_pre compare_ids compare_prerelease compare_numeric
    compare_text compare_int
build_ignored = refl

compare_numeric-value_example :
    compare_numeric (bytes "0042") (bytes "137")
    ≡ compare_int (value (bytes "0042")) (value (bytes "137"))
compare_numeric-value_example =
    compare_numeric-value (bytes "0042") (bytes "137")
      (
        (omega arith, omega arith),
        (
          (omega arith, omega arith),
          ((omega arith, omega arith), ((omega arith, omega arith), tt)),
        ),
      )
      ((omega arith, omega arith), ((omega arith, omega arith), ((omega arith, omega arith), tt)))

compare-opposite_example :
    compare (bytes "2.0.0") (bytes "1.10.0") ≡ opposite (compare (bytes "1.10.0") (bytes "2.0.0"))
compare-opposite_example = compare-opposite (bytes "1.10.0") (bytes "2.0.0")
