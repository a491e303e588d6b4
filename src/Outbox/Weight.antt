-- ===== src/Outbox/Weight.antt =====
-- outbox/worker.go: the attempts that the rows of the queue have left, which each statement of a
-- round lets go down.
use health_beat.Prelude.{
  ℕ, suc, ◌+◌, ◌-◌, ◌≤◌, ◌<◌, String, Bool, true, List, [], ◌∷◌, In, inl, inr, if◌then◌else◌,
  if-holds, ◌≡◌, sym, subst, arith, ◌==◌, nat_eq, le→leb, not, any, string_eq,
}
use health_beat.Outbox.Queue.{
  Row, is_waiting, is_row, leased, update_rows, set_sent, set_failed, set_next, to_expire,
  mark_sent, mark_retry, mark_failed, expire,
}
use health_beat.Outbox.Worker.{
  Worker, Outcome, sent, given_up, retried, outcome, record_outcome, deliver, max_attempts, backoff,
  send_each,
}

unfoldable pub weight : Row → ℕ
weight r = if is_waiting r then suc (max_attempts - r.attempts) else 0

unfoldable pub total : List Row → ℕ
unfolding weight
total [] = 0
total (r ∷ rows) = weight r + total rows

pub update-total_le :
    (p : Row → Bool) (f : Row → Row) (rows : List Row)
    → ((r : Row) → weight (f r) ≤ weight r)
    → total (update_rows p f rows) ≤ total rows
unfolding total
update-total_le p f [] le = omega arith
update-total_le p f (r ∷ rows) le = ground (arith, le r, update-total_le p f rows le)

pub update-total_lt :
    (p : Row → Bool) (f : Row → Row) (x : Row) (rows : List Row)
    → ((r : Row) → weight (f r) ≤ weight r)
    → p x ≡ true
    → weight (f x) < weight x
    → In x rows
    → total (update_rows p f rows) < total rows
unfolding total
update-total_lt p f x [] le h lt absurd = elim absurd [ ]
update-total_lt p f x (r ∷ rows) le h lt (inl e) =
    let here =
      subst (λ y. weight (if p y then f y else y) < weight y) e
        (subst (λ b. weight (if b then f x else x) < weight x) (sym h) lt) in
    omega (arith, here, update-total_le p f rows le)
update-total_lt p f x (r ∷ rows) le h lt (inr i) =
    ground (arith, le r, update-total_lt p f x rows le h lt i)

pub leased-weight_le : (until : ℕ) (r : Row) → weight (leased until r) ≤ weight r
unfolding weight
leased-weight_le until r = ground arith

pub leased-weight_lt :
    (until : ℕ) (r : Row)
    → is_waiting r ≡ true
    → r.attempts < max_attempts
    → weight (leased until r) < weight r
unfolding weight
leased-weight_lt until r waits left = ground (arith, waits, left)

pub waiting-weight : (r : Row) → is_waiting r ≡ true → 0 < weight r
unfolding weight
waiting-weight r waits = ground (arith, waits)

pub expire-total_le :
    (kinds : List String) (now : ℕ) (rows : List Row) → total (expire kinds now rows) ≤ total rows
unfolding expire weight
expire-total_le kinds now rows =
    update-total_le (to_expire kinds now) (set_failed now) rows (λ r. ground arith)

record_outcome-total_le :
    (id now : ℕ) (o : Outcome) (rows : List Row) → total (record_outcome id now o rows) ≤ total rows
unfolding record_outcome mark_sent mark_failed mark_retry weight
record_outcome-total_le id now sent rows =
    update-total_le (is_row id) (set_sent now) rows (λ r. ground arith)
record_outcome-total_le id now given_up rows =
    update-total_le (is_row id) (set_failed now) rows (λ r. ground arith)
record_outcome-total_le id now (retried next) rows =
    update-total_le (is_row id) (set_next next) rows (λ r. omega arith)

pub deliver-total_le :
    (w : Worker) (it : Row) (now : ℕ) (rows : List Row)
    → total (deliver w it now rows).1 ≤ total rows
unfolding deliver
deliver-total_le w it now rows =
    if-holds (λ t. total t ≤ total rows) (w.stored it) _ _
      (record_outcome-total_le it.id now (outcome w it now) rows) (omega arith)

-- Sent or given up.
abbrev Final : Outcome → Type 0
Final sent = Unit
Final given_up = Unit
Final (retried next) = ⊥

outcome-Final :
    (w : Worker) (it : Row) (now : ℕ) → max_attempts ≤ it.attempts → Final (outcome w it now)
unfolding outcome
outcome-Final w it now spent = if-holds Final it.unreadable _ _ tt (
    if-holds Final (not (any (λ c. c == it.channel) w.notifiers)) _ _ tt (
      if-holds Final (send_each (w.send it) it.recipients) _ _ tt (
        subst (λ b. Final (if b then given_up else retried (now + backoff it.attempts)))
          (sym (le→leb max_attempts it.attempts spent)) tt)))

closes-total_lt :
    (id now : ℕ) (o : Outcome) (x : Row) (rows : List Row)
    → Final o
    → In x rows
    → is_row id x ≡ true
    → is_waiting x ≡ true
    → total (record_outcome id now o rows) < total rows
unfolding record_outcome mark_sent mark_failed weight
closes-total_lt id now sent x rows f i same waits =
    update-total_lt (is_row id) (set_sent now) x rows (λ r. ground arith) same
      (ground (arith, waits)) i
closes-total_lt id now given_up x rows f i same waits =
    update-total_lt (is_row id) (set_failed now) x rows (λ r. ground arith) same
      (ground (arith, waits)) i
closes-total_lt id now (retried next) x rows f i same waits = elim f [ ]

-- A delivery after the last attempt closes the row, where the outcome is stored.
pub deliver-total_lt :
    (w : Worker) (it x : Row) (now : ℕ) (rows : List Row)
    → w.stored it ≡ true
    → max_attempts ≤ it.attempts
    → In x rows
    → is_row it.id x ≡ true
    → is_waiting x ≡ true
    → total (deliver w it now rows).1 < total rows
unfolding deliver
deliver-total_lt w it x now rows stored spent i same waits =
    subst
      (λ b.
        total (if b then record_outcome it.id now (outcome w it now) rows else rows) < total rows)
      (sym stored)
      (closes-total_lt it.id now (outcome w it now) x rows (outcome-Final w it now spent) i same
        waits)
