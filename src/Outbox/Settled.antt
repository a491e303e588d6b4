-- ===== src/Outbox/Settled.antt =====
-- outbox/worker.go (`deliver`): what becomes of a delivered row.
use health_beat.Prelude.{
  ℕ, suc, ◌+◌, ◌≤◌, Bool, true, false, not, some, List, [], ◌∷◌, any, All, leb, ◌==◌, nat_eq,
  string_eq, if◌then◌else◌, if-holds, ◌≡◌, refl, sym, subst, ◌-◌, ◌⊎◌, inl, inr, arith,
}
use health_beat.Outbox.Queue.{Row, mark_sent, mark_retry, mark_failed, is_row, update_rows}
use health_beat.Outbox.Backoff.{doubled-positive}
use health_beat.Outbox.Worker.{
  Worker, Outcome, sent, given_up, retried, outcome, record_outcome, deliver, backoff, max_attempts,
  base_backoff, send_each,
}

-- The row is sent, or given up, or waits for one of its remaining attempts after `now`.
abbrev pub Settled : ℕ → ℕ → Row → Type 0
Settled attempts now r =
    (r.sent_at ≡ some now)
    ⊎ ((r.failed_at ≡ some now) ⊎ ((suc attempts ≤ max_attempts) × (suc now ≤ r.next_attempt_at)))

-- What is decided of an item: only an item with attempts left is retried, and later.
abbrev Decided : ℕ → ℕ → Outcome → Type 0
Decided attempts now sent = Unit
Decided attempts now given_up = Unit
Decided attempts now (retried next) = (suc attempts ≤ max_attempts) × (suc now ≤ next)

backoff-positive : (n : ℕ) → 1 ≤ backoff n
unfolding backoff
backoff-positive n = omega (arith, doubled-positive (n - 1) base_backoff (omega arith))

outcome-Decided : (w : Worker) (it : Row) (now : ℕ) → Decided it.attempts now (outcome w it now)
unfolding outcome
outcome-Decided w it now =
    let D = Decided it.attempts now in
    if-holds D it.unreadable _ _ tt (
      if-holds D (not (any (λ c. c == it.channel) w.notifiers)) _ _ tt (
        if-holds D (send_each (w.send it) it.recipients) _ _ tt
          (left (leb max_attempts it.attempts) refl)))
  where
    left :
        (b : Bool)
        → leb max_attempts it.attempts ≡ b
        → Decided it.attempts now (if b then given_up else retried (now + backoff it.attempts))
    left true e = tt
    left false e = (ground (arith, e), omega (arith, backoff-positive it.attempts))

-- The rows with the id are settled.
abbrev pub AllSettled : Row → ℕ → List Row → Type 0
AllSettled it now rows = All (λ r. r.id ≡ it.id → Settled it.attempts now r) rows

updated-AllSettled :
    (it : Row) (now : ℕ) (f : Row → Row) (rows : List Row)
    → ((r : Row) → Settled it.attempts now (f r))
    → AllSettled it now (update_rows (is_row it.id) f rows)
updated-AllSettled it now f [] settles = tt
updated-AllSettled it now f (r ∷ rows) settles =
    (by_id (is_row it.id r) refl, updated-AllSettled it now f rows settles)
  where
    by_id :
        (b : Bool)
        → is_row it.id r ≡ b
        → (if b then f r else r).id ≡ it.id
        → Settled it.attempts now (if b then f r else r)
    by_id true e h = settles r
    by_id false e h = ground (arith, e, h)

recorded-AllSettled :
    (it : Row) (now : ℕ) (o : Outcome) (rows : List Row)
    → Decided it.attempts now o
    → AllSettled it now (record_outcome it.id now o rows)
unfolding record_outcome mark_sent mark_failed mark_retry
recorded-AllSettled it now sent rows d = updated-AllSettled it now _ rows (λ r. inl refl)
recorded-AllSettled it now given_up rows d = updated-AllSettled it now _ rows (λ r. inr (inl refl))
recorded-AllSettled it now (retried next) rows d =
    updated-AllSettled it now _ rows (λ r. inr (inr d))

-- After the delivery of a claimed row whose outcome is stored, the row with its id is sent now, or is
-- given up now, or had attempts left (fewer than ten were made) and waits for a time after now.
pub deliver-AllSettled :
    (w : Worker) (it : Row) (now : ℕ) (rows : List Row)
    → w.stored it ≡ true
    → AllSettled it now (deliver w it now rows).1
unfolding deliver
deliver-AllSettled w it now rows stored =
    subst
      (λ b.
        AllSettled it now (if b then record_outcome it.id now (outcome w it now) rows else rows))
      (sym stored) (recorded-AllSettled it now (outcome w it now) rows (outcome-Decided w it now))
