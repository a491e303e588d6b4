-- ===== src/Alert/Lookup.antt =====
-- The level of the active alert of a host and key after the statements of store/alerts.go.
use mathlib.Core.Option
use health_beat.Prelude.{
  ℕ, ◌≤◌, Bool, true, false, ◌≡◌, refl, ap, ◌∙◌, Option, none, some, List, [], ◌∷◌, map, ◌==◌,
  nat_eq, string_eq, pair_eq, find?, find?-map, Option-cases, inl, inr, count, count-map_le,
  find?-count-none, arith,
}
use health_beat.Prelude.Int.{ℤ}
use health_beat.Alert.Types.{Level, Alert, AlertKey}
use health_beat.Alert.Table.{
  Db, about, find_active, update_where, active_id, set_level, set_resolved, set_mark, new_alert,
}

abbrev pub level_in : ℕ → AlertKey → List Alert → Option Level
level_in host key alerts = Option.map (λ a. a.level) (find_active host key alerts)

module _ (host : ℕ) (key : AlertKey) where
  mark-about :
      (id : ℕ) (m : Bool) (a : Alert)
      → about host key (update_where (λ b. b.id == id) (set_mark m) a) ≡ about host key a
  mark-about id m a = ground arith

  relevel-about :
      (id : ℕ) (l : Level) (v t : Option ℤ) (reopen : Bool) (a : Alert)
      → about host key (update_where (active_id id) (set_level l v t reopen) a) ≡ about host key a
  relevel-about id l v t reopen a = ground arith

  resolve-about :
      (id now : ℕ) (v t : Option ℤ) (a : Alert)
      → about host key (update_where (active_id id) (set_resolved now v t) a) ≡ true
      → about host key a ≡ true
  resolve-about id now v t a h = ground arith

  mark-same_level :
      (id : ℕ) (m : Bool) (o : Option Alert)
      → Option.map (λ a. a.level) (Option.map (update_where (λ b. b.id == id) (set_mark m)) o)
        ≡ Option.map (λ a. a.level) o
  mark-same_level id m none = refl
  mark-same_level id m (some a) = ground arith

  pub set_notify_pending-level_in :
      (id : ℕ) (m : Bool) (alerts : List Alert)
      → level_in host key (map (update_where (λ b. b.id == id) (set_mark m)) alerts)
        ≡ level_in host key alerts
  set_notify_pending-level_in id m alerts =
      ap (Option.map (λ a. a.level)) (
        find?-map (about host key) (update_where (λ b. b.id == id) (set_mark m)) alerts
          (mark-about id m))
      ∙ mark-same_level id m (find_active host key alerts)

  find?-true : {A : Type 0} (p : A → Bool) (xs : List A) (a : A) → find? p xs ≡ some a → p a ≡ true
  find?-true p [] a h = ground (arith, h)
  find?-true p (x ∷ xs) a h = ground (arith, h, find?-true p xs a)

  found-active_id :
      (a : Alert) (alerts : List Alert)
      → find_active host key alerts ≡ some a
      → active_id a.id a ≡ true
  found-active_id a alerts found =
      ground (arith, find?-true (about host key) alerts a found, nat_eq.same_iff a.id a.id)

  pub update_level-level_in :
      (a : Alert) (l : Level) (v t : Option ℤ) (reopen : Bool) (alerts : List Alert)
      → find_active host key alerts ≡ some a
      → level_in host key (map (update_where (active_id a.id) (set_level l v t reopen)) alerts)
        ≡ some l
  update_level-level_in a l v t reopen alerts found =
      let f = update_where (active_id a.id) (set_level l v t reopen) in
      ap (Option.map (λ a. a.level)) (
        find?-map (about host key) f alerts (relevel-about a.id l v t reopen)
        ∙ ap (Option.map f) found)
      ∙ ground (arith, found-active_id a alerts found)

  find?-dropped :
      {A : Type 0} (p : A → Bool) (f : A → A) (xs : List A) (a : A)
      → find? p xs ≡ some a
      → count p xs ≤ 1
      → ((x : A) → p (f x) ≡ true → p x ≡ true)
      → p (f a) ≡ false
      → count p (map f xs) ≡ 0
  unfolding count
  find?-dropped p f [] a found one back gone = ground (arith, found)
  find?-dropped p f (x ∷ xs) a found one back gone =
      ground (arith, found, one, back x, gone, find?-dropped p f xs a, count-map_le p f xs back)

  pub resolve-level_in :
      (a : Alert) (now : ℕ) (v t : Option ℤ) (alerts : List Alert)
      → find_active host key alerts ≡ some a
      → count (about host key) alerts ≤ 1
      → level_in host key (map (update_where (active_id a.id) (set_resolved now v t)) alerts) ≡ none
  resolve-level_in a now v t alerts found one = ap (Option.map (λ a. a.level)) (
      find?-count-none (about host key) _ (
        find?-dropped (about host key) _ alerts a found one (resolve-about a.id now v t)
          (ground (arith, found-active_id a alerts found))))

  pub create-level_in :
      (l : Level) (v t : Option ℤ) (now : ℕ) (db : Db)
      → level_in host key (new_alert db now host key l v t ∷ db.alerts) ≡ some l
  create-level_in l v t now db = ground (
    arith,
    nat_eq.same_iff host host,
    string_eq.same_iff key.0 key.0,
    string_eq.same_iff key.1 key.1,
  )

  find?-none_found :
      {A : Type 0} (p q : A → Bool) (xs : List A) (a : A)
      → find? p xs ≡ some a
      → find? q xs ≡ none
      → q a ≡ false
  find?-none_found p q [] a found h = ground (arith, found)
  find?-none_found p q (x ∷ xs) a found h = ground (arith, found, h, find?-none_found p q xs a)

  -- An active row with the id of an active alert of the key is found.
  pub active_id-found :
      (a : Alert) (alerts : List Alert)
      → find_active host key alerts ≡ some a
      → (b : Alert) × (find? (active_id a.id) alerts ≡ some b)
  active_id-found a alerts found = elim (Option-cases (find? (active_id a.id) alerts)) [
    | inl e ↦ ground (
      arith,
      found-active_id a alerts found,
      find?-none_found (about host key) (active_id a.id) alerts a found e,
    )
    | inr found' ↦ found'
  ]
