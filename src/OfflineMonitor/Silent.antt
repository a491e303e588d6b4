-- ===== src/OfflineMonitor/Silent.antt =====
-- offlinemonitor/monitor.go: a host that falls silent is told of, once.
use health_beat.Prelude.{
  ℕ, ◌+◌, ◌*◌, ◌<◌, ◌&&◌, some, Bool, true, false, List, [], ◌∷◌, keep, All, All-map, All-weaken,
  In, In-keep, inl, inr, ◌==◌, nat_eq, if◌then◌else◌, if-holds, if-true, ◌≡◌, refl, sym, subst, ap,
  ◌∙◌, arith,
}
use health_beat.OfflineMonitor.Monitor.{
  silent_since, grace_multiplier, second, HostStatus, is_stale, list_stale, offline, marked,
  mark_offline, Checked, check_each, check,
}

-- No row of the host is online, so it is not stale at any time.
abbrev pub Down : ℕ → List HostStatus → Type 0
Down id hosts = All (λ h. h.id ≡ id → h.online ≡ false) hosts

marked-Down : (id : ℕ) (hosts : List HostStatus) → Down id (mark_offline id hosts)
unfolding mark_offline
marked-Down id [] = tt
marked-Down id (h ∷ hosts) = (by_id (h.id == id) refl, marked-Down id hosts)
  where
    by_id :
        (b : Bool)
        → (h.id == id) ≡ b
        → (if b then offline h else h).id ≡ id
        → (if b then offline h else h).online ≡ false
    by_id true e same = refl
    by_id false e same = ground (arith, e, same)

other-Down : (id j : ℕ) (hosts : List HostStatus) → Down id hosts → Down id (mark_offline j hosts)
unfolding mark_offline
other-Down id j hosts h =
    All-map (λ (s : HostStatus). s.id ≡ id → s.online ≡ false) (marked j) hosts
      (λ s down.
        if-holds (λ (t : HostStatus). t.id ≡ id → t.online ≡ false) (s.id == j) _ _ (λ same. refl)
          down)
      h

check_each-stays :
    (marks : ℕ → Bool) (cs hosts : List HostStatus) (id : ℕ)
    → Down id hosts
    → Down id (check_each marks cs hosts).1
unfolding check_each
check_each-stays marks [] hosts id h = h
check_each-stays marks (c ∷ cs) hosts id h =
    if-holds (λ (r : Checked). Down id r.1) (marks c.id) _ _
      (check_each-stays marks cs (mark_offline c.id hosts) id (other-Down id c.id hosts h))
      (check_each-stays marks cs hosts id h)

-- Each host that is told of is down afterwards.
abbrev pub ToldDown : Checked → Type 0
ToldDown r = All (λ (p : ℕ × ℕ). Down p.0 r.1) r.0

check_each-ToldDown :
    (marks : ℕ → Bool) (cs hosts : List HostStatus) → ToldDown (check_each marks cs hosts)
unfolding check_each
check_each-ToldDown marks [] hosts = tt
check_each-ToldDown marks (c ∷ cs) hosts =
    if-holds ToldDown (marks c.id) _ _
      (
        check_each-stays marks cs (mark_offline c.id hosts) c.id (marked-Down c.id hosts),
        check_each-ToldDown marks cs (mark_offline c.id hosts),
      )
      (check_each-ToldDown marks cs hosts)

check_each-In :
    (marks : ℕ → Bool) (h : HostStatus) (cs hosts : List HostStatus)
    → marks h.id ≡ true
    → In h cs
    → In (h.id, h.organization_id) (check_each marks cs hosts).0
unfolding check_each
check_each-In marks h [] hosts m absurd = elim absurd [ ]
check_each-In marks h (c ∷ cs) hosts m (inl e) =
    subst (λ (r : Checked). In (h.id, h.organization_id) r.0)
      (sym (if-true (marks c.id) _ _ (ap (λ (s : HostStatus). marks s.id) (sym e) ∙ m)))
      (inl (ap (λ (s : HostStatus). (s.id, s.organization_id)) e))
check_each-In marks h (c ∷ cs) hosts m (inr i) =
    if-holds (λ (r : Checked). In (h.id, h.organization_id) r.0) (marks c.id) _ _
      (inr (check_each-In marks h cs (mark_offline c.id hosts) m i))
      (check_each-In marks h cs hosts m i)

silent_host :
    (now seen : ℕ) (h : HostStatus)
    → h.online ≡ true
    → h.last_seen ≡ some seen
    → seen + 3 * (h.interval_seconds * 1_000_000_000) < now
    → is_stale now h ≡ true
unfolding is_stale
silent_host now seen h up last late =
    subst
      (λ o.
        (h.online && silent_since o (h.interval_seconds * grace_multiplier * second) now) ≡ true)
      (sym last) (ground (arith, up, late))

-- A host that is marked online, and that was last seen more than three of its intervals (in seconds)
-- ago, is told of by a check whose listing and whose mark of it succeed.
pub check-In :
    (marks : ℕ → Bool) (now seen : ℕ) (h : HostStatus) (hosts : List HostStatus)
    → In h hosts
    → h.online ≡ true
    → h.last_seen ≡ some seen
    → seen + 3 * (h.interval_seconds * 1_000_000_000) < now
    → marks h.id ≡ true
    → In (h.id, h.organization_id) (check true marks now hosts).0
unfolding check list_stale
check-In marks now seen h hosts i up last late m =
    check_each-In marks h (keep (is_stale now) hosts) hosts m
      (In-keep (is_stale now) h hosts (silent_host now seen h up last late) i)

-- The hosts that are told of are not listed again.
abbrev pub NotAgain : ℕ → Checked → Type 0
NotAgain now r =
    All (λ (p : ℕ × ℕ). All (λ (h : HostStatus). h.id ≡ p.0 → is_stale now h ≡ false) r.1) r.0

-- A host that a check tells of is not stale afterwards, at any time, until a report marks it online:
-- it is not told of again.
pub check-NotAgain :
    (lists : Bool) (marks : ℕ → Bool) (now later : ℕ) (hosts : List HostStatus)
    → NotAgain later (check lists marks now hosts)
unfolding check is_stale
check-NotAgain lists marks now later hosts =
    if-holds (NotAgain later) lists _ _
      (All-weaken _ _ (check_each marks (list_stale now hosts) hosts).0
        (λ p down.
          All-weaken _ _ (check_each marks (list_stale now hosts) hosts).1
            (λ h off same. ground (arith, off same)) down)
        (check_each-ToldDown marks (list_stale now hosts) hosts))
      tt
