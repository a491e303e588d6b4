-- ===== src/RateLimit/Granted.antt =====
-- ratelimit.go: over any sequence of calls, `Allow` grants a key no more than its burst and what
-- its rate brings in.
use native.Mathlib.Nat.{add-mul, mul-le-mul_right}
use health_beat.Prelude.{
  ℕ, ◌+◌, ◌-◌, ◌*◌, ◌/◌, ◌≤◌, Bool, true, false, String, Option, none, some, List, [], ◌∷◌, get,
  string_eq, ltb, ◌≡◌, refl, sym, ap, subst, arith, if-false, if-holds,
}
use health_beat.RateLimit.Limiter.{
  Bucket, Limiter, minute, capacity, disabled, refill_time, sweep, refilled, or_fresh, store,
  take_bucket, take,
}
use health_beat.RateLimit.Tokens.{
  Call, spent, available, WholeRefill, sweep-available, take_bucket-available, available-le,
}

-- The settings of the limiter, which no call changes.
abbrev Set : ℕ → ℕ → Limiter → Type 0
Set per_minute burst l = (l.per_minute ≡ per_minute) × (l.burst ≡ burst)

-- The number of calls that were granted to a key, and the limiter after all calls.
unfoldable pub run_calls : String → List Call → Limiter → ℕ × Limiter
unfolding take
run_calls key [] l = (0, l)
run_calls key (c ∷ cs) l =
    let r = take c.key c.consume c.at l in
    let rest = run_calls key cs r.1 in (spent key c r.0.0 + rest.0, rest.1)

-- The times do not go back, from `t` on.
abbrev pub Ordered : ℕ → List Call → Type 0
Ordered t [] = Unit
Ordered t (c ∷ cs) = (t ≤ c.at) × Ordered c.at cs

abbrev pub end_of : ℕ → List Call → ℕ
end_of t [] = t
end_of t (c ∷ cs) = end_of c.at cs

gap : (t u v : ℕ) → t ≤ u → u ≤ v → (u - t) + (v - u) ≡ v - t
gap t u v a b = omega arith

module _ (pm burst : ℕ) where
  sweep-Set : (now : ℕ) (l : Limiter) → Set pm burst l → Set pm burst (sweep now l)
  unfolding sweep
  sweep-Set now l s = if-holds (Set pm burst) (ltb (now - l.last_sweep) minute) _ _ s s

  store-Set :
      (key : String) (t now : ℕ) (kept : Bool) (l : Limiter)
      → Set pm burst l
      → Set pm burst (store key t now kept l)
  store-Set key t now kept l s = if-holds (Set pm burst) kept _ _ s s

  take_bucket-Set :
      (key : String) (consume : Bool) (now : ℕ) (l : Limiter) (o : Option Bucket)
      → Set pm burst l
      → Set pm burst (take_bucket key consume now l o).1
  unfolding take_bucket
  take_bucket-Set key consume now l o s =
      if-holds (λ (x : (Bool × ℕ) × Limiter). Set pm burst x.1) _ _ _ (store-Set key _ now _ l s)
        (store-Set key _ now _ l s)

  take-Set :
      (key : String) (consume : Bool) (now : ℕ) (l : Limiter)
      → Set pm burst l
      → Set pm burst (take key consume now l).1
  unfolding take
  take-Set key consume now l s =
      let found = get key (sweep now l).buckets in
      if-holds (λ (x : (Bool × ℕ) × Limiter). Set pm burst x.1) (disabled l) ((true, 0), l)
        (take_bucket key consume now (sweep now l) found) s
        (take_bucket-Set key consume now (sweep now l) found (sweep-Set now l s))

  module _ (positive : 1 ≤ pm) (some_burst : 1 ≤ burst)
      (whole : burst * minute / pm * pm ≡ burst * minute) where
    set-enabled : (l : Limiter) → Set pm burst l → disabled l ≡ false
    unfolding disabled
    set-enabled l s = ground (arith, s.0, s.1, positive, some_burst)

    set-WholeRefill : (l : Limiter) → Set pm burst l → WholeRefill l
    unfolding refill_time
    set-WholeRefill l s =
        subst (λ p. l.burst * minute / p * p ≡ l.burst * minute) (sym s.0)
          (subst (λ b. b * minute / pm * pm ≡ b * minute) (sym s.1) whole)

    take-available :
        (l : Limiter) (key : String) (c : Call)
        → Set pm burst l
        → available (take c.key c.consume c.at l).1 key c.at
            + spent key c (take c.key c.consume c.at l).0.0 * minute
          ≤ available l key c.at
    unfolding take
    take-available l key c s =
        subst
          (λ (x : (Bool × ℕ) × Limiter).
            available x.1 key c.at + spent key c x.0.0 * minute ≤ available l key c.at)
          (sym (if-false (disabled l) _ _ (set-enabled l s)))
          (omega (
            arith,
            sweep-available l key c.at (set-WholeRefill l s),
            take_bucket-available (sweep c.at l) key c _ refl,
          ))

    refill-later : (last t u k : ℕ) → t ≤ u → (u - last) * k ≤ (t - last) * k + (u - t) * k
    refill-later last t u k le =
        subst (λ n. (u - last) * k ≤ n) (add-mul (t - last) (u - t) k)
          (mul-le-mul_right k (omega arith))

    bucket-later :
        (l : Limiter) (t u : ℕ) (o : Option Bucket)
        → t ≤ u
        → refilled l u (or_fresh l u o) ≤ refilled l t (or_fresh l t o) + (u - t) * l.per_minute
    unfolding refilled
    bucket-later l t u none le = omega arith
    bucket-later l t u (some b) le = omega (arith, refill-later b.last t u l.per_minute le)

    later-available :
        (l : Limiter) (key : String) (t u : ℕ)
        → t ≤ u
        → available l key u ≤ available l key t + (u - t) * l.per_minute
    unfolding available
    later-available l key t u le = bucket-later l t u (get key l.buckets) le

    end_of-le : (t : ℕ) (cs : List Call) → Ordered t cs → t ≤ end_of t cs
    end_of-le t [] o = omega arith
    end_of-le t (c ∷ cs) o = omega (arith, o.0, end_of-le c.at cs o.1)

    run_calls-available :
        (key : String) (t : ℕ) (cs : List Call) (l : Limiter)
        → Set pm burst l
        → Ordered t cs
        → (run_calls key cs l).0 * minute + available (run_calls key cs l).1 key (end_of t cs)
          ≤ available l key t + (end_of t cs - t) * pm
    unfolding run_calls
    run_calls-available key t [] l s o = omega arith
    run_calls-available key t (c ∷ cs) l s o =
        let r = take c.key c.consume c.at l in
        omega (
          arith,
          run_calls-available key c.at cs r.1 (take-Set c.key c.consume c.at l s) o.1,
          take-available l key c s,
          later-available l key t c.at o.0,
          ap (λ p. (c.at - t) * p) s.0,
          add-mul (c.at - t) (end_of c.at cs - c.at) pm,
          ap (λ d. d * pm) (gap t c.at (end_of c.at cs) o.0 (end_of-le c.at cs o.1)),
        )

-- From any state of a limiter whose rate and burst are positive and whose full bucket takes a whole
-- number of nanoseconds to fill, over any sequence of calls of `Allow` and `Check` for any keys at
-- times that do not go back, the calls of `Allow` that are granted to one key are at most the burst
-- and what the rate brings in between the first time and the last: granted tokens, in units of 1 /
-- (nanoseconds of a minute), against the capacity and the time times the rate.
pub run_calls-le :
    (key : String) (t : ℕ) (cs : List Call) (l : Limiter)
    → 1 ≤ l.per_minute
    → 1 ≤ l.burst
    → WholeRefill l
    → Ordered t cs
    → (run_calls key cs l).0 * minute ≤ capacity l + (end_of t cs - t) * l.per_minute
unfolding refill_time
run_calls-le key t cs l positive some_burst whole o = omega (
  arith,
  run_calls-available l.per_minute l.burst positive some_burst whole key t cs l (refl, refl) o,
  available-le l key t,
)
