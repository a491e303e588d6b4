-- ===== src/Maintenance/Exceptions.antt =====
-- maintenance/maintenance.go (`apply`): what the exceptions leave of an occurrence.
use health_beat.Prelude.{
  ℕ, ◌≤◌, ◌<◌, Bool, true, false, List, [], ◌∷◌, Option, none, some, All, All-weaken, ltb, eqb,
  if◌then◌else◌, ◌≡◌, refl, subst, ◌∙◌, arith,
}
use health_beat.Maintenance.Window.{
  MaintenanceOverride, MaintenanceWindow, Occurrence, ends_by, apply_overrides, finished, apply,
}

-- The time is not after `t`, if there is one.
abbrev pub By : Option ℕ → ℕ → Type 0
By none e = Unit
By (some t) e = e ≤ t

-- An exception of this occurrence cuts it, and does not skip it.
abbrev pub CutBy : Occurrence → MaintenanceOverride → Type 0
CutBy o ov =
    eqb ov.occurrence_start o.start ≡ true → (t : ℕ) × ((ov.ended_at ≡ some t) × (o.end ≤ t))

-- What is left starts as planned, and ends as planned at the latest.
abbrev pub Within : Occurrence → Occurrence → Type 0
Within o p = (p.start ≡ o.start) × ((p.window_id ≡ o.window_id) × (p.end ≤ o.end))

abbrev Left : Occurrence → List MaintenanceOverride → Option Occurrence → Type 0
Left o ovs none = Unit
Left o ovs (some p) = Within o p × All (CutBy p) ovs

ends_by-Within : (e : Option ℕ) (o : Occurrence) → Within o (ends_by e o) × By e (ends_by e o).end
ends_by-Within none o = ((refl, (refl, omega arith)), tt)
ends_by-Within (some t) o = by_test (ltb t o.end) refl
  where
    by_test :
        (b : Bool)
        → ltb t o.end ≡ b
        → Within o (if b then record o { end = t } else o)
          × ((if b then record o { end = t } else o).end ≤ t)
    by_test true e = ((refl, (refl, ground (arith, e))), omega arith)
    by_test false e = ((refl, (refl, omega arith)), ground (arith, e))

Within-trans : (a b c : Occurrence) → Within a b → Within b c → Within a c
Within-trans a b c h k = (k.0 ∙ h.0, (k.1.0 ∙ h.1.0, omega (arith, h.1.1, k.1.1)))

cut-Left :
    (o : Occurrence) (ov : MaintenanceOverride) (ovs : List MaintenanceOverride) (t : ℕ)
    (r : Option Occurrence)
    → ov.ended_at ≡ some t
    → Left (ends_by (some t) o) ovs r
    → Left o (ov ∷ ovs) r
cut-Left o ov ovs t none e h = tt
cut-Left o ov ovs t (some p) e h =
    let cut = ends_by-Within (some t) o in
    (
      Within-trans o (ends_by (some t) o) p cut.0 h.0,
      (λ same. (t, (e, omega (arith, cut.1, h.0.1.1))), h.1),
    )

other-Left :
    (o : Occurrence) (ov : MaintenanceOverride) (ovs : List MaintenanceOverride)
    (r : Option Occurrence)
    → eqb ov.occurrence_start o.start ≡ false
    → Left o ovs r
    → Left o (ov ∷ ovs) r
other-Left o ov ovs none e h = tt
other-Left o ov ovs (some p) e h =
    (h.0, (λ same. let absurd : ⊥ = ground (arith, same, e, h.0.0) in elim absurd [ ], h.1))

apply_overrides-Left :
    (ovs : List MaintenanceOverride) (o : Occurrence) → Left o ovs (apply_overrides ovs o)
unfolding apply_overrides
apply_overrides-Left [] o = ((refl, (refl, omega arith)), tt)
apply_overrides-Left (ov ∷ ovs) o =
    by_start_of (eqb ov.occurrence_start o.start) refl ov.ended_at refl
      (λ t. apply_overrides-Left ovs (ends_by (some t) o)) (apply_overrides-Left ovs o)
  where
    by_start_of :
        (b : Bool)
        → eqb ov.occurrence_start o.start ≡ b
        → (e : Option ℕ) → ov.ended_at ≡ e
        → ((t : ℕ) → Left (ends_by (some t) o) ovs (apply_overrides ovs (ends_by (some t) o)))
        → Left o ovs (apply_overrides ovs o)
        → Left o (ov ∷ ovs) (
            if b
            then elim e as (λ e. Option Occurrence) [
              | none ↦ none
              | some t ↦ apply_overrides ovs (ends_by (some t) o)
            ]
            else apply_overrides ovs o)
    by_start_of true f none g cut rest = tt
    by_start_of true f (some t) g cut rest =
        cut-Left o ov ovs t (apply_overrides ovs (ends_by (some t) o)) g (cut t)
    by_start_of false f e g cut rest = other-Left o ov ovs (apply_overrides ovs o) f rest

CutBy-shorter :
    (p q : Occurrence) (ovs : List MaintenanceOverride)
    → Within p q
    → All (CutBy p) ovs
    → All (CutBy q) ovs
CutBy-shorter p q ovs w h =
    All-weaken (CutBy p) (CutBy q) ovs
      (λ ov cut same.
        let c = cut (subst (λ s. eqb ov.occurrence_start s ≡ true) w.0 same) in
        (c.0, (c.1.0, omega (arith, c.1.1, w.1.1))))
      h

-- An occurrence that takes place.
abbrev pub TakesPlace : MaintenanceWindow → Occurrence → Option Occurrence → Type 0
TakesPlace w o none = Unit
TakesPlace w o (some p) =
    (Within o p × (p.start < p.end)) × (By w.ended_at p.end × All (CutBy p) w.overrides)

finished-TakesPlace :
    (w : MaintenanceWindow) (o : Occurrence) (r : Option Occurrence)
    → Left o w.overrides r
    → TakesPlace w o (finished w.ended_at r)
finished-TakesPlace w o none h = tt
finished-TakesPlace w o (some p) h = by_test (ltb q.start q.end) refl
  where
    q : Occurrence
    q = ends_by w.ended_at p

    by_test : (b : Bool) → ltb q.start q.end ≡ b → TakesPlace w o (if b then some q else none)
    by_test true e =
        let cut = ends_by-Within w.ended_at p in
        (
          (Within-trans o p q h.0 cut.0, ground (arith, e)),
          (cut.1, CutBy-shorter p q w.overrides cut.0 h.1),
        )
    by_test false e = tt

-- An occurrence that takes place starts as planned and ends later than it starts, at its planned end
-- at the latest and not after its window was ended; no exception skips it, and it ends by each
-- exception that ends it early.
pub apply-TakesPlace : (w : MaintenanceWindow) (o : Occurrence) → TakesPlace w o (apply w o)
unfolding apply
apply-TakesPlace w o =
    finished-TakesPlace w o (apply_overrides w.overrides o) (apply_overrides-Left w.overrides o)
