-- ===== src/Prelude/Counting.antt =====
-- How many elements of a list pass a Boolean test, and whether one has a property.
use Prim.Native.Nat.{ℕ, ◌+◌, ◌≤◌}
use mathlib.Core.Path.{◌≡◌, refl}
use mathlib.Core.Logic.{◌⊎◌, inl, inr}
use mathlib.Core.Bool.{Bool, true}
use mathlib.Core.List.{List, [], ◌∷◌, map}
use mathlib.Core.Option.{none}
use native.Mathlib.Omega.{arith}
use health_beat.Prelude.Tests.{if◌then◌else◌}
use health_beat.Prelude.Lists.{keep, find?, All}

module _ {ℓ} {A : Type ℓ} where
  unfoldable pub count : (A → Bool) → List A → ℕ
  count p [] = 0
  count p (x ∷ xs) = (if p x then 1 else 0) + count p xs

  pub count-map :
      (p : A → Bool) (f : A → A) (xs : List A)
      → ((x : A) → p (f x) ≡ p x)
      → count p (map f xs) ≡ count p xs
  unfolding count
  count-map p f [] h = refl
  count-map p f (x ∷ xs) h = ground (arith, h x, count-map p f xs h)

  pub count-map_le :
      (p : A → Bool) (f : A → A) (xs : List A)
      → ((x : A) → p (f x) ≡ true → p x ≡ true)
      → count p (map f xs) ≤ count p xs
  unfolding count
  count-map_le p f [] h = omega arith
  count-map_le p f (x ∷ xs) h = ground (arith, h x, count-map_le p f xs h)

  pub count-keep : (p q : A → Bool) (xs : List A) → count p (keep q xs) ≤ count p xs
  unfolding count
  count-keep p q [] = omega arith
  count-keep p q (x ∷ xs) = ground (arith, count-keep p q xs)

  pub count-find_none : (p : A → Bool) (xs : List A) → find? p xs ≡ none → count p xs ≡ 0
  unfolding count
  count-find_none p [] h = refl
  count-find_none p (x ∷ xs) h = ground (arith, count-find_none p xs)

  pub find?-count-none : (p : A → Bool) (xs : List A) → count p xs ≡ 0 → find? p xs ≡ none
  unfolding count
  find?-count-none p [] h = refl
  find?-count-none p (x ∷ xs) h = ground (arith, find?-count-none p xs)

  abbrev pub Some : (A → Type 0) → List A → Type 0
  Some P [] = ⊥
  Some P (x ∷ xs) = P x ⊎ Some P xs

  pub Some-map :
      (P : A → Type 0) (f : A → A) (xs : List A)
      → ((x : A) → P x → P (f x))
      → Some P xs
      → Some P (map f xs)
  Some-map P f [] h absurd = elim absurd [ ]
  Some-map P f (x ∷ xs) h (inl px) = inl (h x px)
  Some-map P f (x ∷ xs) h (inr s) = inr (Some-map P f xs h s)

  pub All-map {κ} :
      (P : A → Type κ) (f : A → A) (xs : List A)
      → ((x : A) → P x → P (f x))
      → All P xs
      → All P (map f xs)
  All-map P f [] h tt = tt
  All-map P f (x ∷ xs) h a = (h x a.0, All-map P f xs h a.1)

  pub All-weaken : (P Q : A → Type 0) (xs : List A) → ((x : A) → P x → Q x) → All P xs → All Q xs
  All-weaken P Q [] f h = tt
  All-weaken P Q (x ∷ xs) f h = (f x h.0, All-weaken P Q xs f h.1)
