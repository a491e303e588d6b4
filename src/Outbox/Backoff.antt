-- ===== src/Outbox/Backoff.antt =====
-- outbox/worker.go: `Backoff` in closed form.
use native.Mathlib.Nat.{
  mul_assoc, mul-le-mul_right, mul_comm, mul-one, pow-zero, pow-succ', pow-le-pow_right,
}
use health_beat.Prelude.{ℕ, zero, suc, ◌*◌, ◌^◌, ◌≤◌, min, ◌≡◌, sym, ap, ◌∙◌, arith}
use health_beat.Outbox.Worker.{base_backoff, max_backoff, doubled, backoff}

-- Doubling a positive number `n` times does not make it smaller.
doubled-le : (n d : ℕ) → d ≤ d * 2 ^ n
doubled-le n d = omega (
  arith,
  mul_comm d (2 ^ n),
  mul-le-mul_right d (pow-le-pow_right {n = 2} (omega arith) {i = 0} {j = n} (omega arith)),
  pow-zero 2,
  ap (λ p. p * d) (pow-zero 2),
)

doubled_once : (n d : ℕ) → d * 2 * 2 ^ n ≡ d * 2 ^ suc n
doubled_once n d = mul_assoc d 2 (2 ^ n) ∙ ap (λ p. d * p) (sym (pow-succ' 2 n))

doubled-min : (n d : ℕ) → min (doubled n d) max_backoff ≡ min (d * 2 ^ n) max_backoff
unfolding doubled
doubled-min zero d = ap (λ k. min k max_backoff) (sym (ap (λ p. d * p) (pow-zero 2) ∙ mul-one d))
doubled-min (suc n) d = ground (
  arith,
  doubled-min n (d * 2),
  ap (λ k. min k max_backoff) (doubled_once n d),
  doubled-le (suc n) d,
)

pub doubled-positive : (n d : ℕ) → 1 ≤ d → 1 ≤ doubled n d
unfolding doubled
doubled-positive zero d h = h
doubled-positive (suc n) d h = ground (arith, h, doubled-positive n (d * 2) (omega (arith, h)))

-- The wait before attempt `attempt + 1` is half a minute, doubled for each attempt after the first
-- one, and one hour at most.
pub backoff-doubles : (n : ℕ) → backoff (suc n) ≡ min (base_backoff * 2 ^ n) max_backoff
unfolding backoff
backoff-doubles n =
    ap (λ k. min (doubled k base_backoff) max_backoff) (ground arith) ∙ doubled-min n base_backoff
