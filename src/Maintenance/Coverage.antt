-- ===== src/Maintenance/Coverage.antt =====
-- maintenance/maintenance.go (`ActiveAt`): the end that it gives is the end of unbroken maintenance.
use health_beat.Prelude.{
  ℕ, ◌+◌, ◌≤◌, ◌<◌, max, Bool, true, false, ◌&&◌, List, [], ◌∷◌, Option, none, some, any, All, In,
  All-In, sort, insert_sorted, insert_sorted-All, sort-In, sort-All, ltb, if◌then◌else◌, ◌≡◌, refl,
  subst, arith, All-self, In-any,
}
use health_beat.Maintenance.Window.{
  MaintenanceWindow, Occurrence, covers, later_end, latest_end, extend, by_start, all_occurrences,
  bounded, active_at, horizon,
}

-- Some occurrence covers the time.
abbrev pub covered : ℕ → List Occurrence → Bool
covered s os = any (covers s) os

-- Every time from `t` to `u` is covered.
abbrev pub Unbroken : ℕ → ℕ → List Occurrence → Type 0
Unbroken t u os = (s : ℕ) → t ≤ s → s < u → covered s os ≡ true

-- All occurrences are among `all`.
abbrev Among : List Occurrence → List Occurrence → Type 0
Among all os = All (λ o. In o all) os

-- `u` is an end to which `t` is covered.
abbrev Reached : List Occurrence → ℕ → Option ℕ → Type 0
Reached all t none = Unit
Reached all t (some u) = (t < u) × Unbroken t u all

later_end-Reached :
    (all : List Occurrence) (t : ℕ) (o : Occurrence) (u : Option ℕ)
    → In o all
    → Reached all t u
    → Reached all t (later_end t o u)
later_end-Reached all t o none i h = by_cover (covers t o) refl
  where
    by_cover : (b : Bool) → covers t o ≡ b → Reached all t (if b then some o.end else none)
    by_cover true e = (
      ground (arith, e),
      λ s after before. In-any (covers s) o all i (ground (arith, e, after, before)),
    )
    by_cover false e = tt
later_end-Reached all t o (some u) i h = by_cover (covers t o && ltb u o.end) refl
  where
    by_cover :
        (b : Bool)
        → (covers t o && ltb u o.end) ≡ b
        → Reached all t (if b then some o.end else some u)
    by_cover true e = (
      ground (arith, e),
      λ s after before. In-any (covers s) o all i (ground (arith, e, after, before)),
    )
    by_cover false e = h

latest_end-Reached :
    (all os : List Occurrence) (t : ℕ) (u : Option ℕ)
    → Among all os
    → Reached all t u
    → Reached all t (latest_end t os u)
unfolding latest_end
latest_end-Reached all [] t u among h = h
latest_end-Reached all (o ∷ os) t u among h =
    latest_end-Reached all os t (later_end t o u) among.1 (later_end-Reached all t o u among.0 h)

extend-Unbroken :
    (all os : List Occurrence) (t u : ℕ)
    → Among all os
    → t < u
    → Unbroken t u all
    → Unbroken t (extend u os) all
unfolding extend
extend-Unbroken all [] t u among lt h = h
extend-Unbroken all (o ∷ os) t u among lt h =
    by_start_of (ltb u o.start) refl
      (λ h'. extend-Unbroken all os t (max u o.end) among.1 (omega (arith, lt)) h')
  where
    by_start_of :
        (b : Bool)
        → ltb u o.start ≡ b
        → (Unbroken t (max u o.end) all → Unbroken t (extend (max u o.end) os) all)
        → Unbroken t (if b then u else extend (max u o.end) os) all
    by_start_of true e rest = h
    by_start_of false e rest = rest (λ s after before. earlier_or_in s (ltb s u) refl after before)
      where
        earlier_or_in :
            (s : ℕ) (b : Bool) → ltb s u ≡ b → t ≤ s → s < max u o.end → covered s all ≡ true
        earlier_or_in s true f after before = h s after (ground (arith, f))
        earlier_or_in s false f after before =
            In-any (covers s) o all among.0 (ground (arith, e, f, before))

-- The occurrences are in the order of their starts.
abbrev pub Ordered : List Occurrence → Type 0
Ordered [] = Unit
Ordered (o ∷ os) = All (λ (p : Occurrence). o.start ≤ p.start) os × Ordered os

All-later :
    (a b : ℕ) (os : List Occurrence)
    → a ≤ b
    → All (λ (p : Occurrence). b ≤ p.start) os
    → All (λ (p : Occurrence). a ≤ p.start) os
All-later a b [] le h = tt
All-later a b (o ∷ os) le h = (omega (arith, le, h.0), All-later a b os le h.1)

insert_sorted-Ordered :
    (a : Occurrence) (os : List Occurrence) → Ordered os → Ordered (insert_sorted by_start a os)
insert_sorted-Ordered a [] h = (tt, tt)
insert_sorted-Ordered a (o ∷ os) h = by_first (by_start a o) refl (insert_sorted-Ordered a os h.1)
  where
    by_first :
        (b : Bool)
        → by_start a o ≡ b
        → Ordered (insert_sorted by_start a os)
        → Ordered (if b then a ∷ o ∷ os else o ∷ insert_sorted by_start a os)
    by_first true e rest =
        ((ground (arith, e), All-later a.start o.start os (ground (arith, e)) h.0), h)
    by_first false e rest = (
      insert_sorted-All by_start (λ (p : Occurrence). o.start ≤ p.start) a os (ground (arith, e))
          h.0,
      rest,
    )

sort-Ordered : (os : List Occurrence) → Ordered (sort by_start os)
sort-Ordered [] = tt
sort-Ordered (o ∷ os) = insert_sorted-Ordered o (sort by_start os) (sort-Ordered os)

extend-le : (u : ℕ) (os : List Occurrence) → u ≤ extend u os
unfolding extend
extend-le u [] = omega arith
extend-le u (o ∷ os) = ground (arith, extend-le (max u o.end) os)

-- No occurrence covers the time.
abbrev Free : ℕ → List Occurrence → Type 0
Free t os = All (λ o. covers t o ≡ false) os

later-Free :
    (u : ℕ) (o : Occurrence) (os : List Occurrence)
    → u < o.start
    → All (λ (p : Occurrence). o.start ≤ p.start) os
    → Free u os
later-Free u o [] lt h = tt
later-Free u o (p ∷ os) lt h = (ground (arith, lt, h.0), later-Free u o os lt h.1)

extend-Free : (u : ℕ) (os : List Occurrence) → Ordered os → Free (extend u os) os
unfolding extend
extend-Free u [] h = tt
extend-Free u (o ∷ os) h =
    by_start_of (ltb u o.start) refl (extend-Free (max u o.end) os h.1) (extend-le (max u o.end) os)
  where
    by_start_of :
        (b : Bool)
        → ltb u o.start ≡ b
        → Free (extend (max u o.end) os) os
        → max u o.end ≤ extend (max u o.end) os
        → Free (if b then u else extend (max u o.end) os) (o ∷ os)
    by_start_of true e rest le = (ground (arith, e), later-Free u o os (ground (arith, e)) h.0)
    by_start_of false e rest le = (ground (arith, le), rest)

latest_end-Free :
    (t : ℕ) (os : List Occurrence) (u : Option ℕ)
    → latest_end t os u ≡ none
    → (u ≡ none) × Free t os
unfolding latest_end
latest_end-Free t [] u h = (h, tt)
latest_end-Free t (o ∷ os) u h =
    let rest = latest_end-Free t os (later_end t o u) h in
    let here = not_covering u rest.0 in (here.0, (here.1, rest.1))
  where
    not_covering : (u : Option ℕ) → later_end t o u ≡ none → (u ≡ none) × (covers t o ≡ false)
    not_covering none e = (refl, ground (arith, e))
    not_covering (some v) e = let absurd : ⊥ = ground (arith, e) in elim absurd [ ]

Free-covered : (t : ℕ) (os : List Occurrence) → Free t os → covered t os ≡ false
Free-covered t [] h = refl
Free-covered t (o ∷ os) h = ground (arith, h.0, Free-covered t os h.1)

-- The answer for `t`: none where nothing covers it; or the end up to which every time is covered,
-- after `t`, at the horizon at most, and not covered itself where it is before the horizon.
abbrev pub Answers : List Occurrence → ℕ → Option ℕ → Type 0
Answers all t none = covered t all ≡ false
Answers all t (some u) =
    ((t < u) × (u ≤ t + horizon)) × (Unbroken t u all × (u < t + horizon → covered u all ≡ false))

bounded-Answers :
    (all os : List Occurrence) (t : ℕ) (u : Option ℕ)
    → Among all os
    → Ordered os
    → ((s : ℕ) → Free s os → covered s all ≡ false)
    → (u ≡ none → Free t os)
    → Reached all t u
    → Answers all t (bounded t os u)
bounded-Answers all os t none among ordered free h r = free t (h refl)
bounded-Answers all os t (some u) among ordered free h r =
    let long = extend-Unbroken all os t u among r.0 r.1 in
    let le = extend-le u os in
    (
      (omega (arith, le, r.0), omega arith),
      (
        λ s after before. long s after (omega (arith, before)),
        λ early.
            subst (λ v. covered v all ≡ false) (omega (arith, early))
              (free (extend u os) (extend-Free u os ordered)),
      ),
    )

-- `ActiveAt` answers that no window is in maintenance at `t` exactly where no occurrence covers `t`;
-- else it gives the end of unbroken maintenance: every time from `t` up to it is covered by some
-- occurrence, and it is not covered itself, unless it is the horizon of 32 days, which cuts it.
pub active_at-Answers :
    (occurrences : MaintenanceWindow → List Occurrence) (ws : List MaintenanceWindow) (t : ℕ)
    → Answers (all_occurrences occurrences ws) t (active_at occurrences ws t)
unfolding active_at
active_at-Answers occurrences ws t =
    let all = all_occurrences occurrences ws in
    let os = sort by_start all in
    let among = sort-All by_start (λ o. In o all) all (All-self (λ o. In o all) all (λ o i. i)) in
    bounded-Answers all os t (latest_end t os none) among (sort-Ordered all)
      (λ s free. Free-covered s all (
        All-self _ all
          (λ o i. All-In (λ p. covers s p ≡ false) o os free (sort-In by_start o all i))))
      (λ e. (latest_end-Free t os none e).1) (latest_end-Reached all os t none among tt)
