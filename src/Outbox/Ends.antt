-- ===== src/Outbox/Ends.antt =====
-- outbox/worker.go (`DeliverDue`): a round ends, and leaves nothing that is due.
use health_beat.Prelude.{
  ℕ, zero, suc, ◌+◌, ◌≤◌, ◌<◌, Bool, true, false, not, String, List, [], ◌∷◌, map, In, All,
  All-keep, All-take, All-weaken, All-self, sort-All, if◌then◌else◌, if-holds, ◌≡◌, refl, sym, ap,
  arith, nat_eq, same_refl, ltb, ◌||◌, In-map, ltb→lt,
}
use health_beat.Outbox.Queue.{
  Row, is_waiting, leased, update_rows, has_id, claimable, earlier, due, claim, expire,
}
use health_beat.Outbox.Worker.{Worker, deliver, max_attempts}
use health_beat.Outbox.Weight.{
  total, update-total_le, update-total_lt, leased-weight_le, leased-weight_lt, deliver-total_le,
  deliver-total_lt, expire-total_le,
}
use health_beat.Outbox.Rounds.{
  Session, Round, out_of_fuel, failed, finished, deliver_batch, claim_round, deliver_due, is_empty,
  batch_size, lease,
}

-- A round that ends without a failed statement leaves no row to claim at its last reading.
abbrev pub Ends : Worker → Session → Round → Type 0
Ends w s out_of_fuel = ⊥
Ends w s (failed sent rows) = Unit
Ends w s (finished sent i rows) = (claim w.kinds batch_size lease (s.clock i) rows).0 ≡ []

batch-total_le :
    (w : Worker) (s : Session) (i : ℕ) (items rows : List Row)
    → total (deliver_batch w s i items rows).1.1 ≤ total rows
unfolding deliver_batch
batch-total_le w s i [] rows = omega arith
batch-total_le w s i (it ∷ items) rows = omega (
  arith,
  deliver-total_le w it (s.clock i) rows,
  batch-total_le w s (suc i) items (deliver w it (s.clock i) rows).1,
)

-- What is claimed is in the table, and waits.
Claimed : List Row → Row → Type 0
Claimed rows r = In r rows × (is_waiting r ≡ true)

due-Claimed :
    (kinds : List String) (limit now : ℕ) (rows : List Row)
    → All (Claimed rows) (due kinds limit now rows)
unfolding Claimed claimable
due-Claimed kinds limit now rows = All-take _ limit _ (
    sort-All earlier _ _ (
      All-weaken _ _ _ (λ r h. (h.0, ground (arith, h.1)))
        (All-keep (λ r. In r rows) (claimable kinds now) rows (All-self _ rows (λ r i. i)))))

-- Claiming and delivering a batch takes attempts away.
turn-total_lt :
    (w : Worker) (s : Session) (until i : ℕ) (r : Row) (rs rows : List Row)
    → ((it : Row) → w.stored it ≡ true)
    → Claimed rows r
    → total
        (deliver_batch w s i
          (map (leased until) (r ∷ rs))
          (update_rows (has_id (r ∷ rs)) (leased until) rows)).1.1
      < total rows
unfolding deliver_batch Claimed
turn-total_lt w s until i r rs rows stored c = by_attempts (ltb r.attempts max_attempts) refl
  where
    table : List Row
    table = update_rows (has_id (r ∷ rs)) (leased until) rows

    picked : has_id (r ∷ rs) r ≡ true
    picked = ap (λ b. b || has_id rs r) (same_refl r.id)

    by_attempts :
        (b : Bool)
        → ltb r.attempts max_attempts ≡ b
        → total (deliver_batch w s i (map (leased until) (r ∷ rs)) table).1.1 < total rows
    by_attempts true e = omega (
      arith,
      batch-total_le w s i (map (leased until) (r ∷ rs)) table,
      update-total_lt (has_id (r ∷ rs)) (leased until) r rows (leased-weight_le until) picked
          (leased-weight_lt until r c.1 (ltb→lt r.attempts max_attempts e)) c.0,
    )
    by_attempts false e = omega (
      arith,
      update-total_le (has_id (r ∷ rs)) (leased until) rows (leased-weight_le until),
      deliver-total_lt w (leased until r) (leased until r) (s.clock i) table
          (stored (leased until r)) (ground (arith, e))
          (In-map _ r rows (ap (λ b. if b then leased until r else r) (sym picked)) c.0)
          (same_refl r.id) c.1,
      batch-total_le w s (suc i) (map (leased until) rs)
          (deliver w (leased until r) (s.clock i) table).1,
    )

claim_round-Ends :
    (w : Worker) (s : Session) (fuel i sent : ℕ) (rows : List Row)
    → ((it : Row) → w.stored it ≡ true)
    → total rows < fuel
    → Ends w s (claim_round fuel w s i sent rows)
unfolding claim_round
claim_round-Ends w s zero i sent rows stored enough = omega (arith, enough)
claim_round-Ends w s (suc fuel) i sent rows stored enough =
    if-holds (Ends w s) (not (s.claims i)) _ _ tt (
      by_batch (λ j n t lt. claim_round-Ends w s fuel j n t stored lt)
        (due w.kinds batch_size (s.clock i) rows) refl
        (due-Claimed w.kinds batch_size (s.clock i) rows))
  where
    until : ℕ
    until = s.clock i + lease

    after : List Row → Round
    after ps =
        let batch =
          deliver_batch w s (suc i) (map (leased until) ps)
            (update_rows (has_id ps) (leased until) rows) in
        if is_empty (map (leased until) ps)
        then finished sent i rows
        else claim_round fuel w s batch.1.0 (sent + batch.0) batch.1.1

    by_batch :
        ((j n : ℕ) (t : List Row) → total t < fuel → Ends w s (claim_round fuel w s j n t))
        → (ps : List Row) → due w.kinds batch_size (s.clock i) rows ≡ ps
        → All (Claimed rows) ps
        → Ends w s (after ps)
    by_batch rest [] e c = ap (map (leased until)) e
    by_batch rest (r ∷ rs) e c =
        rest _ _ _ (omega (arith, enough, turn-total_lt w s until (suc i) r rs rows stored c.0))

-- A round ends where the outcomes of deliveries are stored, whatever the clock says at each claim and
-- delivery: with more fuel than there are attempts left in the table, it fails at a statement or
-- leaves no row that could be claimed at its last reading of the clock.
pub deliver_due-Ends :
    (w : Worker) (s : Session) (fuel : ℕ) (rows : List Row)
    → ((it : Row) → w.stored it ≡ true)
    → total rows < fuel
    → Ends w s (deliver_due fuel w s rows)
unfolding deliver_due
deliver_due-Ends w s fuel rows stored enough =
    if-holds (Ends w s) s.expires _ _
      (claim_round-Ends w s fuel 1 0 (expire w.kinds (s.clock 0) rows) stored
        (omega (arith, enough, expire-total_le w.kinds (s.clock 0) rows)))
      tt
