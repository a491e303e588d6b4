-- ===== src/Outbox/Lease.antt =====
-- store/outbox.go (`Claim`): a claimed row is not claimed again while its lease lasts.
use health_beat.Prelude.{
  ℕ, ◌+◌, ◌≤◌, ◌<◌, Bool, true, false, ◌||◌, String, List, [], ◌∷◌, map, keep, sort-All, All,
  All-weaken, All-map, All-keep, All-take, ◌==◌, nat_eq, if◌then◌else◌, ◌≡◌, refl, ap, ◌∙◌, arith,
}
use health_beat.Outbox.Queue.{Row, claimable, earlier, has_id, leased, update_rows, due, claim}

-- The row is under lease until then, if it is one of `picked`.
abbrev Held : List Row → ℕ → Row → Type 0
Held picked until r = has_id picked r ≡ true → r.next_attempt_at ≡ until

updated-Held :
    (picked : List Row) (until : ℕ) (r : Row) (b : Bool)
    → has_id picked r ≡ b
    → Held picked until (if b then leased until r else r)
updated-Held picked until r true e h = refl
updated-Held picked until r false e h = ground (arith, e, h)

All-updated :
    (picked : List Row) (until : ℕ) (rows : List Row)
    → All (Held picked until) (update_rows (has_id picked) (leased until) rows)
All-updated picked until [] = tt
All-updated picked until (r ∷ rows) =
    (updated-Held picked until r (has_id picked r) refl, All-updated picked until rows)

claimable-due :
    (kinds : List String) (now : ℕ) (r : Row)
    → claimable kinds now r ≡ true
    → r.next_attempt_at ≤ now
unfolding claimable
claimable-due kinds now r h = ground arith

not_picked :
    (kinds : List String) (picked : List Row) (until now : ℕ) (r : Row)
    → now < until
    → Held picked until r × (claimable kinds now r ≡ true)
    → has_id picked r ≡ false
not_picked kinds picked until now r early h =
    ground (arith, h.0, claimable-due kinds now r h.1, early)

leased-id :
    (until : ℕ) (picked : List Row) (r : Row)
    → has_id (map (leased until) picked) r ≡ has_id picked r
leased-id until [] r = refl
leased-id until (s ∷ picked) r = ap (λ b. (s.id == r.id) || b) (leased-id until picked r)

-- Until the lease of a claim ends, no claim of this or another worker on the resulting table returns
-- one of its rows, whatever kinds, limit and lease that claim has.
pub claim-again :
    (kinds kinds' : List String) (limit limit' lease lease' now now' : ℕ) (rows : List Row)
    → now' < now + lease
    → All
        (λ r. has_id (claim kinds limit lease now rows).0 r ≡ false)
        (claim kinds' limit' lease' now' (claim kinds limit lease now rows).1).0
unfolding claim
claim-again kinds kinds' limit limit' lease lease' now now' rows early =
    let picked = due kinds limit now rows in
    let until = now + lease in
    let table = update_rows (has_id picked) (leased until) rows in
    All-map _ (leased (now' + lease')) (due kinds' limit' now' table) (λ r h. h)
      (All-take _ limit' _ (
        sort-All earlier _ (keep (claimable kinds' now') table) (
          All-weaken _ _ _
            (λ r h. leased-id until picked r ∙ not_picked kinds' picked until now' r early h)
            (All-keep (Held picked until) (claimable kinds' now') table
              (All-updated picked until rows)))))
