-- ===== src/RateLimit/Tokens.antt =====
-- ratelimit.go: how many calls `Allow` grants.
use native.Mathlib.Nat.{zero-mul, mul-le-mul_right}
use health_beat.Prelude.{
  ℕ, ◌+◌, ◌-◌, ◌*◌, ◌/◌, ◌≤◌, min, Bool, true, false, String, Option, none, some, [], ◌∷◌, Map, get,
  string_eq, ltb, if◌then◌else◌, ◌≡◌, refl, sym, ap, ◌∙◌, get-remove, get-put, arith, leb→le, ◌==◌,
  ◌&&◌,
}
use health_beat.RateLimit.Limiter.{
  Bucket, Limiter, minute, capacity, refill_time, is_idle, drop_idle, sweep, refilled, or_fresh,
  keeps_bucket, store, take_bucket,
}

abbrev kept_bucket : ℕ → ℕ → Option Bucket → Option Bucket
kept_bucket now refill none = none
kept_bucket now refill (some b) = if is_idle now refill b then none else some b

get-drop_idle :
    (now refill : ℕ) (key : String) (m : Map String Bucket)
    → get key (drop_idle now refill m) ≡ kept_bucket now refill (get key m)
unfolding get drop_idle
get-drop_idle now refill key [] = refl
get-drop_idle now refill key ((k, b) ∷ m) =
    ground (arith, get-drop_idle now refill key m, get-remove k key (drop_idle now refill m))

-- The tokens that a key has at a time.
unfoldable pub available : Limiter → String → ℕ → ℕ
unfolding get
available l key now = refilled l now (or_fresh l now (get key l.buckets))

-- A full bucket takes a whole number of nanoseconds to fill.
abbrev pub WholeRefill : Limiter → Type 0
WholeRefill l = refill_time l * l.per_minute ≡ capacity l

no_time : (now k : ℕ) → (now - now) * k ≡ 0
no_time now k = ap (λ d. d * k) (ground arith) ∙ zero-mul k

refilled-now :
    (l : Limiter) (now t : ℕ)
    → refilled l now (record { tokens = t; last = now }) ≡ min (capacity l) t
unfolding refilled
refilled-now l now t = omega (arith, no_time now l.per_minute)

idle-full :
    (l : Limiter) (now : ℕ) (b : Bucket)
    → WholeRefill l
    → is_idle now (refill_time l) b ≡ true
    → refilled l now b ≡ capacity l
unfolding refilled
idle-full l now b whole idle =
    omega (arith, mul-le-mul_right l.per_minute (leb→le (refill_time l) (now - b.last) idle), whole)

kept-available :
    (l : Limiter) (now : ℕ) (o : Option Bucket)
    → WholeRefill l
    → refilled l now (or_fresh l now (kept_bucket now (refill_time l) o))
      ≡ refilled l now (or_fresh l now o)
kept-available l now none whole = refl
kept-available l now (some b) whole = by_idle (is_idle now (refill_time l) b) refl
  where
    by_idle :
        (idle : Bool)
        → is_idle now (refill_time l) b ≡ idle
        → refilled l now (or_fresh l now (if idle then none else some b)) ≡ refilled l now b
    by_idle true e = refilled-now l now (capacity l) ∙ omega arith ∙ sym (idle-full l now b whole e)
    by_idle false e = refl

pub sweep-available :
    (l : Limiter) (key : String) (now : ℕ)
    → WholeRefill l
    → available (sweep now l) key now ≡ available l key now
unfolding available sweep refilled
sweep-available l key now whole = by_time (ltb (now - l.last_sweep) minute)
  where
    by_time :
        (recent : Bool)
        → available
            (if recent
              then l
              else record l { last_sweep = now; buckets = drop_idle now (refill_time l) l.buckets })
            key
            now
          ≡ available l key now
    by_time true = refl
    by_time false =
        ap (λ o. refilled l now (or_fresh l now o))
          (get-drop_idle now (refill_time l) key l.buckets)
        ∙ kept-available l now (get key l.buckets) whole

-- A call: `Allow` consumes, `Check` does not.
pub record Call : Type 0 where
  pub key : String
  pub consume : Bool
  pub at : ℕ

abbrev pub spent : String → Call → Bool → ℕ
spent key c granted = if (c.key == key) && (c.consume && granted) then 1 else 0

-- What a call leaves to a key, with what it took.
stored-available :
    (l : Limiter) (key other : String) (t now : ℕ) (kept : Bool)
    → available (store other t now kept l) key now
      ≡ (if kept && (other == key) then min (capacity l) t else available l key now)
unfolding available refilled
stored-available l key other t now false = refl
stored-available l key other t now true =
    ap (λ o. refilled l now (or_fresh l now o))
      (get-put other key (record { tokens = t; last = now }) l.buckets)
    ∙ by_key (other == key)
  where
    by_key :
        (same : Bool)
        → refilled l now (
            or_fresh l now
              (if same then some (record { tokens = t; last = now }) else get key l.buckets))
          ≡ (if same
              then min (capacity l) t
              else refilled l now (or_fresh l now (get key l.buckets)))
    by_key true = refilled-now l now t
    by_key false = refl

found-available :
    (l : Limiter) (key other : String) (now : ℕ)
    → (other == key) ≡ true
    → refilled l now (or_fresh l now (get other l.buckets)) ≡ available l key now
unfolding available
found-available l key other now same =
    ap (λ k. refilled l now (or_fresh l now (get k l.buckets)))
      ((string_eq.same_iff other key).0 same)

pub available-le : (l : Limiter) (key : String) (now : ℕ) → available l key now ≤ capacity l
unfolding available refilled
available-le l key now = omega arith

consumed-kept :
    (found : Option Bucket) (consume : Bool) → consume ≡ true → keeps_bucket found consume ≡ true
consumed-kept none consume h = h
consumed-kept (some b) consume h = refl

answered : Bool → Limiter → Call → Bool → ℕ → (Bool × ℕ) × Limiter
answered denied l c kept tokens =
    if denied
    then ((false, (minute - tokens) / l.per_minute), store c.key tokens c.at kept l)
    else ((true, 0), store c.key (if c.consume then tokens - minute else tokens) c.at kept l)

answered-available :
    (denied : Bool) (l : Limiter) (key : String) (c : Call) (kept : Bool) (tokens : ℕ)
    → ltb tokens minute ≡ denied
    → (c.consume ≡ true → kept ≡ true)
    → ((c.key == key) ≡ true → tokens ≡ available l key c.at)
    → available (answered denied l c kept tokens).1 key c.at
        + spent key c (answered denied l c kept tokens).0.0 * minute
      ≤ available l key c.at
unfolding answered
answered-available true l key c kept tokens e keeps same =
    ground (arith, stored-available l key c.key tokens c.at kept, same, available-le l key c.at)
answered-available false l key c kept tokens e keeps same = ground (
  arith,
  stored-available l key c.key (if c.consume then tokens - minute else tokens) c.at kept,
  same,
  keeps,
  e,
  available-le l key c.at,
)

pub take_bucket-available :
    (l : Limiter) (key : String) (c : Call) (found : Option Bucket)
    → get c.key l.buckets ≡ found
    → available (take_bucket c.key c.consume c.at l found).1 key c.at
        + spent key c (take_bucket c.key c.consume c.at l found).0.0 * minute
      ≤ available l key c.at
unfolding take_bucket answered
take_bucket-available l key c found e =
    answered-available (ltb (refilled l c.at (or_fresh l c.at found)) minute) l key c
      (keeps_bucket found c.consume) (refilled l c.at (or_fresh l c.at found)) refl
      (consumed-kept found c.consume)
      (λ same.
        ap (λ o. refilled l c.at (or_fresh l c.at o)) (sym e)
        ∙ found-available l key c.key c.at same)
