-- ===== src/RateLimit/Limiter.antt =====
-- server/internal/ratelimit/ratelimit.go: a token bucket for each key. A token is counted in units
-- of 1 / (nanoseconds of a minute), so that one nanosecond refills `per_minute` units; the source
-- computes in `float64`, whose rounding is not modelled. The rate is a whole number of tokens a
-- minute, and the clock does not go back (Go's monotonic time).
use health_beat.Prelude.{
  ℕ, ◌+◌, ◌-◌, ◌*◌, ◌/◌, min, Bool, true, false, ◌||◌, String, Option, none, some, [], ◌∷◌, Map,
  get, put, remove, string_eq, ltb, leb, eqb, if◌then◌else◌,
}

pub record Bucket : Type 0 where
  pub tokens : ℕ
  pub last : ℕ

pub record Limiter : Type 0 where
  pub per_minute : ℕ
  pub burst : ℕ
  pub buckets : Map String Bucket
  pub last_sweep : ℕ

-- time.Minute, and the units of one token.
abbrev pub minute : ℕ
minute = 60_000_000_000

abbrev pub capacity : Limiter → ℕ
capacity l = l.burst * minute

-- `New`
unfoldable pub new : ℕ → ℕ → Limiter
new per_minute burst = record {
  per_minute = per_minute;
  burst = burst;
  buckets = [];
  last_sweep = 0;
}

unfoldable pub disabled : Limiter → Bool
disabled l = eqb l.per_minute 0 || eqb l.burst 0

-- `SetRate`
unfoldable pub set_rate : ℕ → Limiter → Limiter
unfolding disabled
set_rate per_minute l =
    let l' = record l { per_minute = per_minute } in
    if disabled l' then record l' { buckets = [] } else l'

-- How long an empty bucket takes to fill.
unfoldable pub refill_time : Limiter → ℕ
refill_time l = capacity l / l.per_minute

abbrev pub is_idle : ℕ → ℕ → Bucket → Bool
is_idle now refill b = leb refill (now - b.last)

unfoldable pub drop_idle : ℕ → ℕ → Map String Bucket → Map String Bucket
drop_idle now refill [] = []
drop_idle now refill ((k, b) ∷ m) =
    let rest = drop_idle now refill m in
    if is_idle now refill b then remove k rest else (k, b) ∷ rest

unfoldable pub sweep : ℕ → Limiter → Limiter
unfolding drop_idle refill_time
sweep now l =
    if ltb (now - l.last_sweep) minute
    then l
    else record l { last_sweep = now; buckets = drop_idle now (refill_time l) l.buckets }

-- The tokens of a bucket with what has come in since.
unfoldable pub refilled : Limiter → ℕ → Bucket → ℕ
refilled l now b = min (capacity l) (b.tokens + (now - b.last) * l.per_minute)

abbrev pub fresh : Limiter → ℕ → Bucket
fresh l now = record { tokens = capacity l; last = now }

abbrev pub or_fresh : Limiter → ℕ → Option Bucket → Bucket
or_fresh l now none = fresh l now
or_fresh l now (some b) = b

-- The bucket is kept where it was there, or where the call consumes.
abbrev pub keeps_bucket : Option Bucket → Bool → Bool
keeps_bucket none consume = consume
keeps_bucket (some b) consume = true

abbrev pub store : String → ℕ → ℕ → Bool → Limiter → Limiter
store key tokens now kept l =
    if kept
    then record l { buckets = put key (record { tokens = tokens; last = now }) l.buckets }
    else l

-- `take` after the sweep: the answer, the time to wait, and the limiter.
unfoldable pub take_bucket : String → Bool → ℕ → Limiter → Option Bucket → (Bool × ℕ) × Limiter
take_bucket key consume now l found =
    let tokens = refilled l now (or_fresh l now found) in
    let kept = keeps_bucket found consume in
    if ltb tokens minute
    then ((false, (minute - tokens) / l.per_minute), store key tokens now kept l)
    else ((true, 0), store key (if consume then tokens - minute else tokens) now kept l)

unfoldable pub take : String → Bool → ℕ → Limiter → (Bool × ℕ) × Limiter
unfolding disabled sweep take_bucket get
take key consume now l =
    if disabled l
    then ((true, 0), l)
    else take_bucket key consume now (sweep now l) (get key (sweep now l).buckets)

-- `Allow`
unfoldable pub allow : String → ℕ → Limiter → (Bool × ℕ) × Limiter
unfolding take
allow key now l = take key true now l

-- `Check`
unfoldable pub check : String → ℕ → Limiter → (Bool × ℕ) × Limiter
unfolding take
check key now l = take key false now l
