-- ===== src/Prelude/Lists.antt =====
-- Lists: search by a Boolean test, predicates by recursion, insertion sort.
use Prim.Native.Nat.{ℕ, zero, suc, ◌+◌}
use mathlib.Core.Path.{◌≡◌, refl, sym, ap, subst, ◌∙◌}
use mathlib.Core.Logic.{◌⊎◌, inl, inr}
use mathlib.Core.Bool.{Bool, true, false, ◌||◌}
use mathlib.Core.List.{List, [], ◌∷◌, ◌++◌, map}
use mathlib.Core.Option
use mathlib.Core.Option.{Option, none, some}
use native.Mathlib.Omega.{arith}
use health_beat.Prelude.Tests.{if◌then◌else◌, if-holds}

module _ {ℓ} {A : Type ℓ} where
  abbrev pub length : List A → ℕ
  length [] = 0
  length (x ∷ xs) = suc (length xs)

  pub length-append : (xs ys : List A) → length (xs ++ ys) ≡ length xs + length ys
  length-append [] ys = omega arith
  length-append (x ∷ xs) ys = omega (arith, length-append xs ys)

  abbrev pub take : ℕ → List A → List A
  take zero xs = []
  take (suc n) [] = []
  take (suc n) (x ∷ xs) = x ∷ take n xs

  -- The first element that passes the test.
  abbrev pub find? : (A → Bool) → List A → Option A
  find? p [] = none
  find? p (x ∷ xs) = if p x then some x else find? p xs

  abbrev pub keep : (A → Bool) → List A → List A
  keep p [] = []
  keep p (x ∷ xs) = let rest = keep p xs in if p x then x ∷ rest else rest

  abbrev pub any : (A → Bool) → List A → Bool
  any p [] = false
  any p (x ∷ xs) = p x || any p xs

  abbrev pub All {κ} : (A → Type κ) → List A → Type κ
  All P [] = Unit
  All P (x ∷ xs) = P x × All P xs

  -- `f` keeps the test, so it commutes with the search.
  pub find?-map :
      (p : A → Bool) (f : A → A) (xs : List A)
      → ((x : A) → p (f x) ≡ p x)
      → find? p (map f xs) ≡ Option.map f (find? p xs)
  find?-map p f [] same = refl
  find?-map p f (x ∷ xs) same = ground (arith, same x, find?-map p f xs same)

module _ {ℓ} {A : Type ℓ} (le : A → A → Bool) where
  abbrev pub insert_sorted : A → List A → List A
  insert_sorted a [] = a ∷ []
  insert_sorted a (x ∷ xs) =
      let rest = insert_sorted a xs in if le a x then a ∷ x ∷ xs else x ∷ rest

  abbrev pub sort : List A → List A
  sort [] = []
  sort (x ∷ xs) = insert_sorted x (sort xs)

  pub insert_sorted-All {κ} :
      (P : A → Type κ) (a : A) (xs : List A) → P a → All P xs → All P (insert_sorted a xs)
  insert_sorted-All P a [] pa h = (pa, tt)
  insert_sorted-All P a (x ∷ xs) pa h = ground (arith, insert_sorted-All P a xs pa h.1)

  pub sort-All {κ} : (P : A → Type κ) (xs : List A) → All P xs → All P (sort xs)
  sort-All P [] h = tt
  sort-All P (x ∷ xs) h = insert_sorted-All P x (sort xs) h.0 (sort-All P xs h.1)

module _ {A : Type 0} where
  pub All-keep :
      (P : A → Type 0) (p : A → Bool) (xs : List A)
      → All P xs
      → All (λ x. P x × (p x ≡ true)) (keep p xs)
  All-keep P p [] h = tt
  All-keep P p (x ∷ xs) h = kept (p x) refl (All-keep P p xs h.1)
    where
      kept :
          (b : Bool)
          → p x ≡ b
          → All (λ x. P x × (p x ≡ true)) (keep p xs)
          → All (λ x. P x × (p x ≡ true)) (if b then x ∷ keep p xs else keep p xs)
      kept true e rest = ((h.0, e), rest)
      kept false e rest = rest

  pub All-take : (P : A → Type 0) (n : ℕ) (xs : List A) → All P xs → All P (take n xs)
  All-take P zero xs h = tt
  All-take P (suc n) [] h = tt
  All-take P (suc n) (x ∷ xs) h = (h.0, All-take P n xs h.1)

  -- Membership.
  abbrev pub In : A → List A → Type 0
  In x [] = ⊥
  In x (y ∷ ys) = (x ≡ y) ⊎ In x ys

  pub All-In : (P : A → Type 0) (x : A) (ys : List A) → All P ys → In x ys → P x
  All-In P x [] h absurd = elim absurd [ ]
  All-In P x (y ∷ ys) h (inl e) = subst P (sym e) h.0
  All-In P x (y ∷ ys) h (inr i) = All-In P x ys h.1 i

  pub All-self : (P : A → Type 0) (xs : List A) → ((x : A) → In x xs → P x) → All P xs
  All-self P [] f = tt
  All-self P (x ∷ xs) f = (f x (inl refl), All-self P xs (λ y i. f y (inr i)))

  pub In-any : (p : A → Bool) (x : A) (xs : List A) → In x xs → p x ≡ true → any p xs ≡ true
  In-any p x [] absurd h = elim absurd [ ]
  In-any p x (y ∷ ys) (inl e) h = ap (λ b. b || any p ys) (ap p (sym e) ∙ h)
  In-any p x (y ∷ ys) (inr i) h = ap (λ b. p y || b) (In-any p x ys i h) ∙ ground arith

  pub In-map : (f : A → A) {y : A} (x : A) (xs : List A) → y ≡ f x → In x xs → In y (map f xs)
  In-map f x [] e absurd = elim absurd [ ]
  In-map f x (z ∷ xs) e (inl h) = inl (e ∙ ap f h)
  In-map f x (z ∷ xs) e (inr i) = inr (In-map f x xs e i)

  pub In-keep : (p : A → Bool) (x : A) (xs : List A) → p x ≡ true → In x xs → In x (keep p xs)
  In-keep p x [] h absurd = elim absurd [ ]
  In-keep p x (y ∷ ys) h (inl e) =
      subst (λ b. In x (if b then y ∷ keep p ys else keep p ys)) (sym (ap p (sym e) ∙ h)) (inl e)
  In-keep p x (y ∷ ys) h (inr i) =
      if-holds (In x) (p y) _ _ (inr (In-keep p x ys h i)) (In-keep p x ys h i)

module _ {A : Type 0} (le : A → A → Bool) where
  insert_sorted-here : (x : A) (ys : List A) → In x (insert_sorted le x ys)
  insert_sorted-here x [] = inl refl
  insert_sorted-here x (y ∷ ys) =
      if-holds (In x) (le x y) _ _ (inl refl) (inr (insert_sorted-here x ys))

  insert_sorted-there : (x a : A) (ys : List A) → In x ys → In x (insert_sorted le a ys)
  insert_sorted-there x a [] absurd = elim absurd [ ]
  insert_sorted-there x a (y ∷ ys) (inl e) = if-holds (In x) (le a y) _ _ (inr (inl e)) (inl e)
  insert_sorted-there x a (y ∷ ys) (inr i) =
      if-holds (In x) (le a y) _ _ (inr (inr i)) (inr (insert_sorted-there x a ys i))

  pub sort-In : (x : A) (xs : List A) → In x xs → In x (sort le xs)
  sort-In x [] absurd = elim absurd [ ]
  sort-In x (y ∷ ys) (inl e) =
      subst (λ z. In z (insert_sorted le y (sort le ys))) (sym e)
        (insert_sorted-here y (sort le ys))
  sort-In x (y ∷ ys) (inr i) = insert_sorted-there x y (sort le ys) (sort-In x ys i)
