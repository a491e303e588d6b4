-- ===== src/Outbox/Purge.antt =====
-- outbox/worker.go (`purge`): the worker deletes old finished rows, once an hour at most.
use health_beat.Prelude.{
  ℕ, ◌+◌, ◌-◌, ◌*◌, ◌≤◌, Bool, true, false, not, List, In, inl, inr, In-keep, ltb, if◌then◌else◌,
  if-holds, ◌≡◌, ◌⊎◌, arith, ◌==◌, string_eq, nat_eq,
}
use health_beat.Outbox.Queue.{Row, is_waiting, is_missing, is_kind, to_purge, purge_finished}
use health_beat.Outbox.Worker.{Worker, second}

abbrev pub purge_every : ℕ
purge_every = 3600 * second

abbrev pub retain_finished : ℕ
retain_finished = 30 * 24 * 3600 * second

-- `purge`: the time of the last purge, and the table. `deletes` tells whether the statement succeeds.
unfoldable pub purge : Worker → Bool → ℕ → ℕ → List Row → ℕ × List Row
unfolding purge_finished
purge w deletes now last rows =
    if ltb (now - last) purge_every
    then (last, rows)
    else (now, if deletes then purge_finished w.kinds (now - retain_finished) rows else rows)

-- A row that waits, that is not older than thirty days, that is of another worker, or that is the
-- notification of an alert that is still there.
abbrev pub Retained : Worker → ℕ → Row → Type 0
Retained w now r =
    (is_waiting r ≡ true)
    ⊎ ((now ≤ r.created_at + retain_finished)
        ⊎ ((is_kind w.kinds r ≡ false)
            ⊎ (((r.kind == "alert") ≡ true) × (is_missing r.alert_id ≡ false))))

Retained-kept :
    (w : Worker) (now : ℕ) (r : Row)
    → Retained w now r
    → not (to_purge w.kinds (now - retain_finished) r) ≡ true
Retained-kept w now r (inl h) = ground (arith, h)
Retained-kept w now r (inr (inl h)) = ground (arith, h)
Retained-kept w now r (inr (inr (inl h))) = ground (arith, h)
Retained-kept w now r (inr (inr (inr h))) = ground (arith, h.0, h.1)

-- The purge of a worker keeps every row that waits, that was made in the last thirty days, that is of
-- a kind of another worker, or that is the notification of an alert that still exists.
pub purge-keeps :
    (w : Worker) (deletes : Bool) (now last : ℕ) (r : Row) (rows : List Row)
    → Retained w now r
    → In r rows
    → In r (purge w deletes now last rows).1
unfolding purge purge_finished
purge-keeps w deletes now last r rows h i =
    if-holds (λ (p : ℕ × List Row). In r p.1) (ltb (now - last) purge_every) _ _ i
      (if-holds (In r) deletes _ _
        (In-keep (λ s. not (to_purge w.kinds (now - retain_finished) s)) r rows
          (Retained-kept w now r h) i)
        i)
