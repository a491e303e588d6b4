-- ===== src/Outbox/Queue.antt =====
-- store/outbox.go: the rows of notification_outbox as a worker sees them, and its statements. A
-- time is in nanoseconds; a row's body and its encryption are left out, but for whether it opens.
use health_beat.Prelude.{
  ℕ, ◌+◌, Bool, true, false, not, ◌&&◌, ◌||◌, String, Option, none, some, List, map, any, keep,
  take, sort, leb, ltb, ◌==◌, nat_eq, string_eq, if◌then◌else◌,
}

pub record Row : Type 0 where
  pub id : ℕ
  pub kind : String
  pub channel : String
  pub recipients : List String
  pub attempts : ℕ
  pub next_attempt_at : ℕ
  pub expires_at : Option ℕ
  pub sent_at : Option ℕ
  pub failed_at : Option ℕ
  pub unreadable : Bool  -- OpenErr
  pub alert_id : Option ℕ
  pub created_at : ℕ

abbrev pub is_missing : Option ℕ → Bool
is_missing none = true
is_missing (some n) = false

-- Neither sent nor given up.
abbrev pub is_waiting : Row → Bool
is_waiting r = is_missing r.sent_at && is_missing r.failed_at

abbrev pub has_expired : Option ℕ → ℕ → Bool
has_expired none now = false
has_expired (some t) now = leb t now

abbrev pub is_kind : List String → Row → Bool
is_kind kinds r = any (λ k. k == r.kind) kinds

unfoldable pub claimable : List String → ℕ → Row → Bool
claimable kinds now r =
    is_waiting r
    && leb r.next_attempt_at now
    && is_kind kinds r
    && not (has_expired r.expires_at now)

abbrev pub earlier : Row → Row → Bool
earlier a b = leb a.next_attempt_at b.next_attempt_at

abbrev pub has_id : List Row → Row → Bool
has_id rows r = any (λ s. s.id == r.id) rows

abbrev pub leased : ℕ → Row → Row
leased until r = record r { attempts = r.attempts + 1; next_attempt_at = until }

abbrev pub update_rows : (Row → Bool) → (Row → Row) → List Row → List Row
update_rows p f = map (λ r. if p r then f r else r)

abbrev pub due : List String → ℕ → ℕ → List Row → List Row
due kinds limit now rows = take limit (sort earlier (keep (claimable kinds now) rows))

-- `Claim`: the rows with their new attempts, and the table.
unfoldable pub claim : List String → ℕ → ℕ → ℕ → List Row → List Row × List Row
unfolding claimable
claim kinds limit lease now rows =
    let picked = due kinds limit now rows in
    (map (leased (now + lease)) picked, update_rows (has_id picked) (leased (now + lease)) rows)

abbrev pub is_row : ℕ → Row → Bool
is_row id r = r.id == id

abbrev pub set_sent : ℕ → Row → Row
set_sent now r = record r { sent_at = some now }

abbrev pub set_failed : ℕ → Row → Row
set_failed now r = record r { failed_at = some now }

abbrev pub set_next : ℕ → Row → Row
set_next next r = record r { next_attempt_at = next }

abbrev pub to_expire : List String → ℕ → Row → Bool
to_expire kinds now r = is_waiting r && has_expired r.expires_at now && is_kind kinds r

-- `MarkSent`
unfoldable pub mark_sent : ℕ → ℕ → List Row → List Row
mark_sent id now = update_rows (is_row id) (set_sent now)

-- `MarkRetry`
unfoldable pub mark_retry : ℕ → ℕ → List Row → List Row
mark_retry id next = update_rows (is_row id) (set_next next)

-- `MarkFailed`
unfoldable pub mark_failed : ℕ → ℕ → List Row → List Row
mark_failed id now = update_rows (is_row id) (set_failed now)

-- `Expire`
unfoldable pub expire : List String → ℕ → List Row → List Row
expire kinds now = update_rows (to_expire kinds now) (set_failed now)

-- `Supersede`
unfoldable pub supersede : String → String → ℕ → List Row → List Row
supersede kind recipient now =
    update_rows (λ r. is_waiting r && r.kind == kind && any (λ s. s == recipient) r.recipients)
      (set_failed now)

-- Old, finished, and not the notification of an alert that is still there.
abbrev pub to_purge : List String → ℕ → Row → Bool
to_purge kinds before r =
    not (is_waiting r)
    && ltb r.created_at before
    && is_kind kinds r
    && (not (r.kind == "alert") || is_missing r.alert_id)

-- `PurgeFinished`
unfoldable pub purge_finished : List String → ℕ → List Row → List Row
purge_finished kinds before = keep (λ r. not (to_purge kinds before r))
