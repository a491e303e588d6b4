-- ===== src/RateLimit/Snapshot.antt =====
-- ratelimit.go (`Snapshot`): the keys that lack tokens, for the panel.
use Prim.Native.Nat.{Ordering, compare}
use Prim.Native.String.{compare as compare_string}
use health_beat.Prelude.{
  ℕ, ◌<◌, Bool, true, false, String, List, [], ◌∷◌, Option, none, some, Map, get, string_eq, sort,
  take, length, leb, if◌then◌else◌, ◌≡◌, refl, sym, ap, arith, In, subst, sort-In,
}
use health_beat.RateLimit.Limiter.{Bucket, Limiter, capacity, disabled, refilled, or_fresh}
use health_beat.RateLimit.Tokens.{available}

pub record Entry : Type 0 where
  pub key : String
  pub remaining : ℕ
  pub last_used_at : ℕ

pub record Snapshot : Type 0 where
  pub per_minute : ℕ
  pub burst : ℕ
  pub enabled : Bool
  pub keys : ℕ
  pub entries : List Entry

-- The entries of the buckets that are not full.
unfoldable pub lacking : Limiter → ℕ → Map String Bucket → List Entry
unfolding refilled
lacking l now [] = []
lacking l now ((k, b) ∷ m) =
    let rest = lacking l now m in
    let remaining = refilled l now b in
    if leb (capacity l) remaining
    then rest
    else record { key = k; remaining = remaining; last_used_at = b.last } ∷ rest

-- The comparison of `SortFunc` is not positive.
unfoldable pub entry_le : Entry → Entry → Bool
entry_le a b = elim (compare a.remaining b.remaining) [
  | Ordering.lt ↦ true
  | Ordering.gt ↦ false
  | Ordering.eq ↦ elim (compare_string a.key b.key) [ Ordering.gt ↦ false | _ ↦ true ]
]

abbrev pub cut : Option ℕ → List Entry → List Entry
cut none found = found
cut (some n) found = take n found

abbrev pub switched_off : Limiter → Snapshot
switched_off l = record {
  per_minute = l.per_minute;
  burst = l.burst;
  enabled = false;
  keys = 0;
  entries = [];
}

abbrev pub listing : Option ℕ → Limiter → List Entry → Snapshot
listing max_entries l found = record {
  per_minute = l.per_minute;
  burst = l.burst;
  enabled = true;
  keys = length found;
  entries = cut max_entries found;
}

-- `Snapshot`; `max_entries` is none for a negative number.
unfoldable pub snapshot : Option ℕ → ℕ → Limiter → Snapshot
unfolding disabled lacking entry_le
snapshot max_entries now l =
    if disabled l
    then switched_off l
    else listing max_entries l (sort entry_le (lacking l now l.buckets))

-- The bucket of a key that is found is listed where it lacks tokens.
lacking-In :
    (l : Limiter) (now : ℕ) (key : String) (b : Bucket) (m : Map String Bucket)
    → get key m ≡ some b
    → refilled l now b < capacity l
    → In
        (record { key = key; remaining = refilled l now b; last_used_at = b.last })
        (lacking l now m)
unfolding get lacking
lacking-In l now key b [] h lt = ground (arith, h)
lacking-In l now key b ((k, c) ∷ m) h lt =
    ground (arith, h, lt, lacking-In l now key b m, string_eq.same_iff k key)

-- The snapshot has an entry for the key, with the tokens it has at that time.
abbrev pub Listed : ℕ → Limiter → String → Type 0
Listed now l key =
    (e : Entry) × (In e (snapshot none now l).entries
      × ((e.key ≡ key) × (e.remaining ≡ available l key now)))

-- Where limiting is on, an uncut snapshot lists every key that has fewer tokens than a full bucket,
-- with the tokens that a call at that time would find.
pub snapshot-Listed :
    (now : ℕ) (l : Limiter) (key : String)
    → disabled l ≡ false
    → available l key now < capacity l
    → Listed now l key
unfolding snapshot available refilled
snapshot-Listed now l key on lacks = by_bucket (get key l.buckets) refl lacks
  where
    by_bucket :
        (o : Option Bucket)
        → get key l.buckets ≡ o
        → refilled l now (or_fresh l now o) < capacity l
        → Listed now l key
    by_bucket none e h = let absurd : ⊥ = ground (arith, h) in elim absurd [ ]
    by_bucket (some b) e h = (
      record { key = key; remaining = refilled l now b; last_used_at = b.last },
      (
        subst
            (λ off.
              let s : Snapshot =
                if off
                then switched_off l
                else listing none l (sort entry_le (lacking l now l.buckets)) in
              In (record { key = key; remaining = refilled l now b; last_used_at = b.last })
                s.entries)
            (sym on)
            (sort-In entry_le _ (lacking l now l.buckets) (lacking-In l now key b l.buckets e h)),
        (refl, ap (λ p. refilled l now (or_fresh l now p)) (sym e)),
      ),
    )
