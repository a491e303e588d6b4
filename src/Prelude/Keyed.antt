-- ===== src/Prelude/Keyed.antt =====
-- Equality as an interface, its instances, and finite maps over it (Go's `map`), as association
-- lists with one entry for a key. Go iterates over a map in an unspecified order: here it is the
-- order of the list.
use Prim.Native.Nat.{ℕ}
use Prim.Native.String.{String}
use mathlib.Core.Path.{◌≡◌, refl, ap, ap₂}
use mathlib.Core.Logic.{◌↔◌}
use mathlib.Core.Bool.{Bool, true, false, ◌&&◌}
use mathlib.Core.List.{List, [], ◌∷◌}
use mathlib.Core.Option.{Option, none, some}
use native.Mathlib.Omega.{arith}
use text.Mathlib.Text.{◌==◌ as str_eq}
use text.Mathlib.TextEquality.{eq_iff}
use health_beat.Prelude.Tests.{eqb, eqb_iff, if◌then◌else◌, &&-eq-true}

pub record Equality {ℓ} (A : Type ℓ) : Type ℓ where
  pub same : A → A → Bool
  pub same_iff : (a b : A) → (same a b ≡ true) ↔ (a ≡ b)

instance abbrev pub string_eq : Equality String
string_eq = record { same = str_eq; same_iff = eq_iff }

instance abbrev pub nat_eq : Equality ℕ
nat_eq = record { same = eqb; same_iff = eqb_iff }

module _ {ℓ κ} {A : Type ℓ} {B : Type κ} ⦃e : Equality A⦄ ⦃f : Equality B⦄ where
  abbrev pub pair_beq : A × B → A × B → Bool
  pair_beq p q = e.same p.0 q.0 && f.same p.1 q.1

  pub pair_beq_iff : (p q : A × B) → (pair_beq p q ≡ true) ↔ (p ≡ q)
  pair_beq_iff p q = (
    λ h.
        let k = &&-eq-true (e.same p.0 q.0) (f.same p.1 q.1) h in
        ap₂ (λ a b. (a, b)) ((e.same_iff p.0 q.0).0 k.0) ((f.same_iff p.1 q.1).0 k.1),
    λ h.
        ground (
          arith,
          (e.same_iff p.0 q.0).1 (ap (λ r. r.0) h),
          (f.same_iff p.1 q.1).1 (ap (λ r. r.1) h),
        ),
  )

  instance abbrev pub pair_eq : Equality (A × B)
  pair_eq = record { same = pair_beq; same_iff = pair_beq_iff }

infix 50 ◌==◌
abbrev pub ◌==◌ {ℓ} : {A : Type ℓ} ⦃e : Equality A⦄ → A → A → Bool
◌==◌ ⦃e⦄ = e.same

abbrev pub Map {ℓ κ} : Type ℓ → Type κ → Type (ℓ ⊔ κ)
Map K V = List (K × V)

module _ {ℓ κ} {K : Type ℓ} {V : Type κ} where
  abbrev pub keys : Map K V → List K
  keys [] = []
  keys ((k, v) ∷ m) = k ∷ keys m

  abbrev pub values : Map K V → List V
  values [] = []
  values ((k, v) ∷ m) = v ∷ values m

module _ {ℓ κ} {K : Type ℓ} {V : Type κ} ⦃e : Equality K⦄ where
  unfoldable pub get : K → Map K V → Option V
  get k [] = none
  get k ((j, v) ∷ m) = if e.same j k then some v else get k m

  unfoldable pub remove : K → Map K V → Map K V
  remove k [] = []
  remove k ((j, v) ∷ m) = let rest = remove k m in if e.same j k then rest else (j, v) ∷ rest

  unfoldable pub put : K → V → Map K V → Map K V
  unfolding remove
  put k v m = (k, v) ∷ remove k m

  unfoldable pub has : K → Map K V → Bool
  unfolding get
  has k m = elim (get k m) [ none ↦ false | some v ↦ true ]

  pub get-remove :
      (k j : K) (m : Map K V) → get j (remove k m) ≡ (if e.same k j then none else get j m)
  unfolding get remove
  get-remove k j [] = ground arith
  get-remove k j ((i, v) ∷ m) =
      ground (arith, get-remove k j m, e.same_iff i k, e.same_iff i j, e.same_iff k j)

  pub get-put :
      (k j : K) (v : V) (m : Map K V) → get j (put k v m) ≡ (if e.same k j then some v else get j m)
  unfolding get put
  get-put k j v m = ground (arith, get-remove k j m)

pub same_refl {ℓ} : {K : Type ℓ} ⦃e : Equality K⦄ (k : K) → e.same k k ≡ true
same_refl ⦃e⦄ k = (e.same_iff k k).1 refl

pub ruleset map_laws = (get-remove, get-put)
