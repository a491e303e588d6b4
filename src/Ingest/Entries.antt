-- ===== src/Ingest/Entries.antt =====
-- model/ingest_v4.go: the loop that the lists of a report share, as one function, with the rules of
-- a list as its parameter; what such a list keeps to.
use health_beat.Prelude.{
  ℕ, zero, suc, ◌≤◌, Bool, true, false, ◌||◌, String, List, [], ◌∷◌, Option, none, some,
  some-injective, any, All, length, ◌==◌, string_eq, if◌then◌else◌, ◌≡◌, refl, sym, subst, arith,
}
use health_beat.Ingest.Text.{clean_text, Clean, clean_text-Clean, is_empty}

-- The rules of a list whose entries have a name.
pub record Rules (A : Type 0) : Type 0 where
  pub name : A → String
  pub rename : String → A → A
  pub max_bytes : ℕ
  pub admits : A → Option A  -- the entry with its other fields cleaned, if it is kept

-- `uniqueName`; the set afterwards is the name in front of `seen`.
unfoldable pub unique_name : List String → String → ℕ → Option String
unfolding clean_text
unique_name seen name max =
    let cleaned = clean_text name max in
    if is_empty cleaned || any (λ s. s == cleaned) seen then none else some cleaned

module _ {A : Type 0} (rules : Rules A) where
  abbrev pub named : Option String → A → Option A
  named none x = none
  named (some n) x = some (rules.rename n x)

  abbrev pub with_name : List String → A → Option A → Option A
  with_name seen x none = none
  with_name seen x (some y) = named (unique_name seen (rules.name x) rules.max_bytes) y

  -- One turn of the loop: the entry to append.
  unfoldable pub accept : List String → A → Option A
  unfolding unique_name
  accept seen x = with_name seen x (rules.admits x)

  -- The loop, with `n` places left.
  unfoldable pub sanitize_list : ℕ → List String → List A → List A
  unfolding accept
  sanitize_list zero seen xs = []
  sanitize_list (suc n) seen [] = []
  sanitize_list (suc n) seen (x ∷ xs) = elim (accept seen x) [
    | none ↦ sanitize_list (suc n) seen xs
    | some y ↦ y ∷ sanitize_list n (rules.name y ∷ seen) xs
  ]

-- The loop of lists whose entries may repeat.
unfoldable pub sanitize_each : {A : Type 0} → (A → Option A) → ℕ → List A → List A
sanitize_each admits zero xs = []
sanitize_each admits (suc n) [] = []
sanitize_each admits (suc n) (x ∷ xs) = elim (admits x) [
  | none ↦ sanitize_each admits (suc n) xs
  | some y ↦ y ∷ sanitize_each admits n xs
]

-- A name that is stored: clean, not empty, and not among those before it.
abbrev pub FreshName : ℕ → List String → String → Type 0
FreshName max seen name =
    Clean max name × ((is_empty name ≡ false) × (any (λ s. s == name) seen ≡ false))

unique_name-FreshName :
    (seen : List String) (name : String) (max : ℕ) (n : String)
    → unique_name seen name max ≡ some n
    → FreshName max seen n
unfolding unique_name
unique_name-FreshName seen name max n h =
    by_test (is_empty cleaned || any (λ s. s == cleaned) seen) refl h
  where
    cleaned : String
    cleaned = clean_text name max

    by_test :
        (b : Bool)
        → (is_empty cleaned || any (λ s. s == cleaned) seen) ≡ b
        → (if b then none else some cleaned) ≡ some n
        → FreshName max seen n
    by_test true e f = let absurd : ⊥ = ground (arith, f) in elim absurd [ ]
    by_test false e f =
        subst (FreshName max seen) (some-injective _ _ f)
          (clean_text-Clean name max, (ground (arith, e), ground (arith, e)))

module _ {A : Type 0} (rules : Rules A) (P : A → Type 0) where
  -- The entries have fresh names, and the property.
  abbrev pub Stored : List String → List A → Type 0
  Stored seen [] = Unit
  Stored seen (y ∷ ys) =
      (FreshName rules.max_bytes seen (rules.name y) × P y) × Stored (rules.name y ∷ seen) ys

  -- What an entry keeps to when it gets a name, and that it has that name.
  pub record Laws : Type 0 where
    pub renamed : (n : String) (x : A) → rules.name (rules.rename n x) ≡ n
    pub admitted : (n : String) (x y : A) → rules.admits x ≡ some y → P (rules.rename n y)

  module _ (laws : Laws) where
    named-Stored :
        (seen : List String) (x y z : A) (o : Option String)
        → unique_name seen (rules.name x) rules.max_bytes ≡ o
        → rules.admits x ≡ some y
        → named rules o y ≡ some z
        → FreshName rules.max_bytes seen (rules.name z) × P z
    named-Stored seen x y z none e g h = let absurd : ⊥ = ground (arith, h) in elim absurd [ ]
    named-Stored seen x y z (some n) e g h =
        subst (λ v. FreshName rules.max_bytes seen (rules.name v) × P v) (some-injective _ _ h)
          (
            subst (FreshName rules.max_bytes seen) (sym (laws.renamed n y))
                (unique_name-FreshName seen (rules.name x) rules.max_bytes n e),
            laws.admitted n x y g,
          )

    accept-Stored :
        (seen : List String) (x z : A) (o : Option A)
        → rules.admits x ≡ o
        → with_name rules seen x o ≡ some z
        → FreshName rules.max_bytes seen (rules.name z) × P z
    accept-Stored seen x z none e h = let absurd : ⊥ = ground (arith, h) in elim absurd [ ]
    accept-Stored seen x z (some y) e h =
        named-Stored seen x y z (unique_name seen (rules.name x) rules.max_bytes) refl e h

    -- A list comes out with at most its number of entries, each with a fresh name and the property.
    pub sanitize_list-Stored :
        (n : ℕ) (seen : List String) (xs : List A)
        → (length (sanitize_list rules n seen xs) ≤ n) × Stored seen (sanitize_list rules n seen xs)
    unfolding sanitize_list accept
    sanitize_list-Stored zero seen xs = (omega arith, tt)
    sanitize_list-Stored (suc n) seen [] = (omega arith, tt)
    sanitize_list-Stored (suc n) seen (x ∷ xs) =
        by_entry (accept rules seen x) (λ z h. accept-Stored seen x z (rules.admits x) refl h)
          (sanitize_list-Stored (suc n) seen xs)
          (λ y. sanitize_list-Stored n (rules.name y ∷ seen) xs)
      where
        Ok : ℕ → List String → List A → Type 0
        Ok k s ys = (length ys ≤ k) × Stored s ys

        by_entry :
            (o : Option A)
            → ((z : A) → o ≡ some z → FreshName rules.max_bytes seen (rules.name z) × P z)
            → Ok (suc n) seen (sanitize_list rules (suc n) seen xs)
            → ((y : A)
                → Ok n (rules.name y ∷ seen) (sanitize_list rules n (rules.name y ∷ seen) xs))
            → Ok (suc n) seen (elim o [
              | none ↦ sanitize_list rules (suc n) seen xs
              | some y ↦ y ∷ sanitize_list rules n (rules.name y ∷ seen) xs
            ])
        by_entry none f skip next = skip
        by_entry (some y) f skip next = (omega (arith, (next y).0), (f y refl, (next y).1))

module _ {A : Type 0} (P : A → Type 0) (admits : A → Option A) where
  pub sanitize_each-All :
      (n : ℕ) (xs : List A)
      → ((x y : A) → admits x ≡ some y → P y)
      → (length (sanitize_each admits n xs) ≤ n) × All P (sanitize_each admits n xs)
  unfolding sanitize_each
  sanitize_each-All zero xs f = (omega arith, tt)
  sanitize_each-All (suc n) [] f = (omega arith, tt)
  sanitize_each-All (suc n) (x ∷ xs) f =
      by_entry (admits x) (f x) (sanitize_each-All (suc n) xs f) (sanitize_each-All n xs f)
    where
      Ok : ℕ → List A → Type 0
      Ok k ys = (length ys ≤ k) × All P ys

      by_entry :
          (o : Option A)
          → ((y : A) → o ≡ some y → P y)
          → Ok (suc n) (sanitize_each admits (suc n) xs)
          → Ok n (sanitize_each admits n xs)
          → Ok (suc n) (elim o [
            | none ↦ sanitize_each admits (suc n) xs
            | some y ↦ y ∷ sanitize_each admits n xs
          ])
      by_entry none g skip next = skip
      by_entry (some y) g skip next = (omega (arith, next.0), (g y refl, next.1))
