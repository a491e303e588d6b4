-- ===== src/Outbox/Examples.antt =====
-- Runs of the outbox at concrete inputs: tests, and instances of the theorems.
use health_beat.Prelude.{
  ℕ, ◌+◌, ◌*◌, ◌^◌, true, false, none, some, List, [], ◌∷◌, All, In, inl, inr, min, ◌≡◌, refl,
  arith,
}
use health_beat.Outbox.Queue.{Row, has_id, claim, purge_finished}
use health_beat.Outbox.Worker.{Worker, deliver, backoff, doubled, second, base_backoff, max_backoff}
use health_beat.Outbox.Backoff.{backoff-doubles}
use health_beat.Outbox.Lease.{claim-again}
use health_beat.Outbox.Settled.{AllSettled, deliver-AllSettled}
use health_beat.Outbox.Rounds.{Session, deliver_due}
use health_beat.Outbox.Weight.{weight, total}
use health_beat.Outbox.Ends.{Ends, deliver_due-Ends}
use health_beat.Outbox.Purge.{retain_finished, purge, purge-keeps}

abbrev row : ℕ → ℕ → Row
row id attempts = record {
  id = id;
  kind = "alert";
  channel = "email";
  recipients = "alice@example.com" ∷ [];
  attempts = attempts;
  next_attempt_at = 10;
  expires_at = none;
  sent_at = none;
  failed_at = none;
  unreadable = false;
  alert_id = some 1;
  created_at = 5;
}

abbrev rows : List Row
rows = row 1 0 ∷ row 2 3 ∷ row 3 0 ∷ []

-- Nothing can be sent.
abbrev worker : Worker
worker = record {
  kinds = "alert" ∷ [];
  notifiers = "email" ∷ [];
  send = λ r s. false;
  stored = λ r. true;
}

backoff-doubles_example : backoff 4 ≡ min (base_backoff * 2 ^ 3) max_backoff
backoff-doubles_example = backoff-doubles 3

claim-again_example :
    All
      (λ r. has_id (claim ("alert" ∷ []) 2 120 20 rows).0 r ≡ false)
      (claim ("alert" ∷ []) 5 120 100 (claim ("alert" ∷ []) 2 120 20 rows).1).0
claim-again_example =
    claim-again ("alert" ∷ []) ("alert" ∷ []) 2 5 120 120 20 100 rows (omega arith)

deliver-AllSettled_example : AllSettled (row 2 4) 20 (deliver worker (row 2 4) 20 rows).1
deliver-AllSettled_example = deliver-AllSettled worker (row 2 4) 20 rows refl

-- The nine waits before the tenth and last attempt, together.
waits_before_last :
    backoff 1
      + backoff 2
      + backoff 3
      + backoff 4
      + backoff 5
      + backoff 6
      + backoff 7
      + backoff 8
      + backoff 9
    ≡ 11010 * second
unfolding backoff doubled
waits_before_last = refl

abbrev session : Session
session = record { clock = λ i. 100 + i * second; claims = λ i. true; expires = true }

deliver_due-Ends_example : Ends worker session (deliver_due 60 worker session rows)
unfolding total weight
deliver_due-Ends_example = deliver_due-Ends worker session 60 rows (λ it. refl) (omega arith)

abbrev thirty_one_days : ℕ
thirty_one_days = retain_finished + 24 * 3600 * second

purge-keeps_example : In (row 2 3) (purge worker true (retain_finished + thirty_one_days) 0 rows).1
purge-keeps_example =
    purge-keeps worker true (retain_finished + thirty_one_days) 0 (row 2 3) rows (inl refl)
      (inr (inl refl))

-- A finished row whose alert is gone is deleted.
old_row_goes :
    (purge worker true
      (retain_finished + thirty_one_days)
      0
      ((record (row 1 1) { sent_at = some 20; alert_id = none }) ∷ row 2 0 ∷ [])).1
    ≡ row 2 0 ∷ []
unfolding purge purge_finished
old_row_goes = refl
