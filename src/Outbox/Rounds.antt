-- ===== src/Outbox/Rounds.antt =====
-- outbox/worker.go (`DeliverDue`): the round that delivers all rows that are due. A round reads the
-- clock again for each claim and each delivery: `clock` gives the readings in their order, and
-- `claims` tells whether the claim at a reading succeeds. The lock that keeps rounds of one process
-- apart is left out: a round is one step.
use health_beat.Prelude.{
  ℕ, zero, suc, ◌+◌, ◌*◌, Bool, true, false, not, List, [], ◌∷◌, if◌then◌else◌,
}
use health_beat.Outbox.Queue.{Row, claim, expire}
use health_beat.Outbox.Worker.{Worker, second, deliver}

abbrev pub batch_size : ℕ
batch_size = 20

abbrev pub lease : ℕ
lease = 120 * second

pub record Session : Type 0 where
  pub clock : ℕ → ℕ
  pub claims : ℕ → Bool
  pub expires : Bool  -- `Expire` succeeds

-- How a round ends: by the fuel of the model, by a failed statement, or with nothing left to claim.
-- It tells how many were sent, the number of the last reading of the clock, and the table.
pub data Round : Type 0 where
  out_of_fuel : Round
  failed : ℕ → List Row → Round
  finished : ℕ → ℕ → List Row → Round

abbrev pub one_if : Bool → ℕ
one_if b = if b then 1 else 0

-- The deliveries of a batch, from reading `i` on: how many were sent, the next reading, the table.
unfoldable pub deliver_batch : Worker → Session → ℕ → List Row → List Row → ℕ × (ℕ × List Row)
unfolding deliver
deliver_batch w s i [] rows = (0, (i, rows))
deliver_batch w s i (it ∷ items) rows =
    let one = deliver w it (s.clock i) rows in
    let rest = deliver_batch w s (suc i) items one.1 in (one_if one.0 + rest.0, rest.1)

abbrev pub is_empty : List Row → Bool
is_empty [] = true
is_empty (r ∷ rows) = false

-- The loop of `DeliverDue`, at reading `i` with `sent` sent so far.
unfoldable pub claim_round : ℕ → Worker → Session → ℕ → ℕ → List Row → Round
unfolding claim deliver_batch
claim_round zero w s i sent rows = out_of_fuel
claim_round (suc fuel) w s i sent rows =
    let picked = claim w.kinds batch_size lease (s.clock i) rows in
    let batch = deliver_batch w s (suc i) picked.0 picked.1 in
    let next = claim_round fuel w s batch.1.0 (sent + batch.0) batch.1.1 in
    if not (s.claims i)
    then failed sent rows
    else if is_empty picked.0
    then finished sent i rows
    else next

-- `DeliverDue`
unfoldable pub deliver_due : ℕ → Worker → Session → List Row → Round
unfolding expire claim_round
deliver_due fuel w s rows =
    if s.expires then claim_round fuel w s 1 0 (expire w.kinds (s.clock 0) rows) else failed 0 rows
