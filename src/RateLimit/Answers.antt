-- ===== src/RateLimit/Answers.antt =====
-- ratelimit.go: what `Check` tells, and the time to wait that a refused call is given.
use native.Mathlib.Nat.{div-lt_iff_lt-mul}
use health_beat.Prelude.{
  ℕ, ◌+◌, ◌-◌, ◌*◌, ◌/◌, ◌≤◌, min, Bool, true, false, String, Option, none, some, get, string_eq,
  ltb, same_refl, if◌then◌else◌, ◌≡◌, refl, sym, ap, ◌∙◌, subst, get-put, arith, if-holds,
}
use health_beat.RateLimit.Limiter.{
  Bucket, Limiter, minute, capacity, disabled, sweep, refilled, or_fresh, store, take_bucket, take,
  allow, check, keeps_bucket,
}
use health_beat.RateLimit.Tokens.{available}

abbrev pub Taken : Type 0
Taken = (Bool × ℕ) × Limiter

abbrev answer : Taken → Bool × ℕ
answer r = r.0

same_answer :
    (b : Bool) (x y : Bool × ℕ) (l m l' m' : Limiter)
    → answer (if b then (x, l) else (y, m)) ≡ answer (if b then (x, l') else (y, m'))
same_answer true x y l m l' m' = refl
same_answer false x y l m l' m' = refl

take_bucket-answer :
    (key : String) (now : ℕ) (l : Limiter) (found : Option Bucket)
    → answer (take_bucket key false now l found) ≡ answer (take_bucket key true now l found)
unfolding take_bucket
take_bucket-answer key now l found =
    let tokens = refilled l now (or_fresh l now found) in
    same_answer (ltb tokens minute) (false, (minute - tokens) / l.per_minute) (true, 0) _ _ _ _

-- At the same time and from the same limiter, `Check` answers as `Allow` does, with the same time to
-- wait.
pub check-allow : (key : String) (now : ℕ) (l : Limiter) → (check key now l).0 ≡ (allow key now l).0
unfolding check allow take
check-allow key now l = by_settings (disabled l)
  where
    by_settings :
        (off : Bool)
        → answer (
            if off
            then ((true, 0), l)
            else take_bucket key false now (sweep now l) (get key (sweep now l).buckets))
          ≡ answer (
              if off
              then ((true, 0), l)
              else take_bucket key true now (sweep now l) (get key (sweep now l).buckets))
    by_settings true = refl
    by_settings false = take_bucket-answer key now (sweep now l) (get key (sweep now l).buckets)

-- The tokens that are missing come in within the time to wait and one nanosecond.
missing_later : (tokens pm : ℕ) → 1 ≤ pm → minute ≤ tokens + ((minute - tokens) / pm + 1) * pm
missing_later tokens pm positive = omega (
  arith,
  (div-lt_iff_lt-mul {k = pm} {x = minute - tokens} {y = (minute - tokens) / pm + 1} positive).0
      (omega arith),
)

stored-later :
    (l : Limiter) (key : String) (tokens now d : ℕ)
    → available (store key tokens now true l) key (now + d)
      ≡ min (capacity l) (tokens + d * l.per_minute)
unfolding available refilled
stored-later l key tokens now d =
    ap (λ o. refilled l (now + d) (or_fresh l (now + d) o))
      (get-put key key (record { tokens = tokens; last = now }) l.buckets
        ∙ ap (λ b. if b then some (record { tokens = tokens; last = now }) else get key l.buckets)
            (same_refl key))
    ∙ ap (λ n. min (capacity l) (tokens + n * l.per_minute)) (ground arith)

-- What a refusal promises.
abbrev Later : String → ℕ → Taken → Type 0
Later key now r = r.0.0 ≡ false → minute ≤ available r.1 key (now + (r.0.1 + 1))

consumed-kept : (found : Option Bucket) → keeps_bucket found true ≡ true
consumed-kept none = refl
consumed-kept (some b) = refl

take_bucket-Later :
    (key : String) (now : ℕ) (l : Limiter) (found : Option Bucket)
    → 1 ≤ l.per_minute
    → 1 ≤ l.burst
    → Later key now (take_bucket key true now l found)
unfolding take_bucket
take_bucket-Later key now l found positive some_burst =
    let tokens = refilled l now (or_fresh l now found) in
    let d = (minute - tokens) / l.per_minute in
    if-holds (Later key now) (ltb tokens minute)
      ((false, d), store key tokens now (keeps_bucket found true) l)
      ((true, 0), store key (tokens - minute) now (keeps_bucket found true) l)
      (λ h.
        subst (λ kept. minute ≤ available (store key tokens now kept l) key (now + (d + 1)))
          (sym (consumed-kept found))
          (omega (
            arith,
            stored-later l key tokens now (d + 1),
            missing_later tokens l.per_minute positive,
          )))
      (λ h. ground (arith, h))

sweep-settings :
    (now : ℕ) (l : Limiter)
    → ((sweep now l).per_minute ≡ l.per_minute) × ((sweep now l).burst ≡ l.burst)
unfolding sweep
sweep-settings now l =
    if-holds (λ (m : Limiter). (m.per_minute ≡ l.per_minute) × (m.burst ≡ l.burst))
      (ltb (now - l.last_sweep) minute) _ _ (refl, refl) (refl, refl)

-- A call that is refused is told a time; that time and one nanosecond later the key has a token, if
-- it is not used in between and the rate and the burst are positive.
pub allow-later :
    (key : String) (now : ℕ) (l : Limiter)
    → 1 ≤ l.per_minute
    → 1 ≤ l.burst
    → (allow key now l).0.0 ≡ false
    → minute ≤ available (allow key now l).1 key (now + ((allow key now l).0.1 + 1))
unfolding allow take
allow-later key now l positive some_burst refused =
    let kept = sweep-settings now l in
    if-holds (Later key now) (disabled l) ((true, 0), l)
      (take_bucket key true now (sweep now l) (get key (sweep now l).buckets))
      (λ h. ground (arith, h))
      (take_bucket-Later key now (sweep now l) (get key (sweep now l).buckets)
        (omega (arith, kept.0)) (omega (arith, kept.1)))
      refused
