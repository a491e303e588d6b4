-- ===== src/Retention/Batches.antt =====
-- store/purge.go: a purge ends, and deletes expired rows only.
use health_beat.Prelude.{
  ℕ, zero, suc, ◌+◌, ◌≤◌, ◌<◌, max, Bool, true, false, not, List, [], ◌∷◌, Option, keep, length,
  ltb, if◌then◌else◌, ◌≡◌, refl, sym, ap, ◌∙◌, arith,
}
use health_beat.Retention.Purge.{
  expired, one_more, behind, delete_oldest, Purged, out_of_fuel, stopped, done, Session, batches,
  purge_in_batches,
}

-- The rows that stay.
abbrev pub staying : ℕ → List (Option ℕ) → List (Option ℕ)
staying cutoff rows = keep (λ r. not (expired cutoff r)) rows

-- From `rows`, `n` rows went, none of which stays.
abbrev pub Deleted : ℕ → ℕ → List (Option ℕ) → List (Option ℕ) → Type 0
Deleted cutoff n rows left =
    (n + length left ≡ length rows) × (staying cutoff left ≡ staying cutoff rows)

-- What a batch does, and that nothing expired is left where it was not full.
abbrev Batch : ℕ → ℕ → List (Option ℕ) → ℕ × List (Option ℕ) → Type 0
Batch size cutoff rows d = Deleted cutoff d.0 rows d.1 × (d.0 < size → d.1 ≡ staying cutoff rows)

delete_oldest-Batch :
    (size cutoff : ℕ) (rows : List (Option ℕ))
    → Batch size cutoff rows (delete_oldest size cutoff rows)
unfolding delete_oldest
delete_oldest-Batch zero cutoff rows =
    ((omega arith, refl), λ h. let absurd : ⊥ = omega (arith, h) in elim absurd [ ])
delete_oldest-Batch (suc n) cutoff [] = ((omega arith, refl), λ h. refl)
delete_oldest-Batch (suc n) cutoff (r ∷ rows) =
    by_age (expired cutoff r) refl (delete_oldest-Batch n cutoff rows)
      (delete_oldest-Batch (suc n) cutoff rows)
  where
    kept_after : (b : Bool) → List (Option ℕ)
    kept_after b = if not b then r ∷ staying cutoff rows else staying cutoff rows

    by_age :
        (b : Bool)
        → expired cutoff r ≡ b
        → Batch n cutoff rows (delete_oldest n cutoff rows)
        → Batch (suc n) cutoff rows (delete_oldest (suc n) cutoff rows)
        → Batch (suc n) cutoff (r ∷ rows) (elim b [
          | true ↦ one_more (delete_oldest n cutoff rows)
          | false ↦ behind r (delete_oldest (suc n) cutoff rows)
        ])
    by_age true e h k = (
      (omega (arith, h.0.0), h.0.1 ∙ sym (ap kept_after e)),
      λ lt. h.1 (omega (arith, lt)) ∙ sym (ap kept_after e),
    )
    by_age false e h k = (
      (omega (arith, k.0.0), ap (λ l. if not (expired cutoff r) then r ∷ l else l) k.0.1),
      λ lt. ap (λ l. r ∷ l) (k.1 lt) ∙ sym (ap kept_after e),
    )

Deleted-trans :
    (cutoff m n : ℕ) (a b c : List (Option ℕ))
    → Deleted cutoff m a b
    → Deleted cutoff n b c
    → Deleted cutoff (m + n) a c
Deleted-trans cutoff m n a b c h k = (omega (arith, h.0, k.0), k.1 ∙ h.1)

-- What a purge comes to: it ends; it deletes only expired rows, and as many as it tells; when it is
-- done, what is left is the rows that stay.
abbrev pub Ends : ℕ → List (Option ℕ) → Purged → Type 0
Ends cutoff rows out_of_fuel = ⊥
Ends cutoff rows (stopped n left) = Deleted cutoff n rows left
Ends cutoff rows (done n left) = Deleted cutoff n rows left × (left ≡ staying cutoff rows)

batches-Ends :
    (fuel : ℕ) (s : Session) (size cutoff i total : ℕ) (all rows : List (Option ℕ))
    → 1 ≤ size
    → length rows < fuel
    → Deleted cutoff total all rows
    → Ends cutoff all (batches fuel s size cutoff i total rows)
unfolding batches
batches-Ends zero s size cutoff i total all rows some_size enough h =
    let absurd : ⊥ = omega (arith, enough) in elim absurd [ ]
batches-Ends (suc fuel) s size cutoff i total all rows some_size enough h =
    by_outcome (s.fails i) (ltb d.0 size) refl (s.ended i) (λ full.
      batches-Ends fuel s size cutoff (suc i) (total + d.0) all d.1 some_size
        (omega (arith, enough, step.0.0, full, some_size)) far)
  where
    d : ℕ × List (Option ℕ)
    d = delete_oldest size cutoff rows

    step : Batch size cutoff rows d
    step = delete_oldest-Batch size cutoff rows

    far : Deleted cutoff (total + d.0) all d.1
    far = Deleted-trans cutoff total d.0 all rows d.1 h step.0

    by_outcome :
        (fails short : Bool)
        → ltb d.0 size ≡ short
        → (ended : Bool)
        → (size ≤ d.0 → Ends cutoff all (batches fuel s size cutoff (suc i) (total + d.0) d.1))
        → Ends cutoff all (
            if fails
            then stopped total rows
            else if short
            then done (total + d.0) d.1
            else if ended
            then stopped (total + d.0) d.1
            else batches fuel s size cutoff (suc i) (total + d.0) d.1)
    by_outcome true short e ended rest = h
    by_outcome false true e ended rest = (far, step.1 (ground (arith, e)) ∙ h.1)
    by_outcome false false e true rest = far
    by_outcome false false e false rest = rest (ground (arith, e))

-- A purge ends, whatever fails: with more fuel than the table has rows it is stopped or done. It
-- deletes none of the rows that are not expired, and tells how many went; when it is done, exactly
-- the rows that are not expired are left, in their order.
pub purge_in_batches-Ends :
    (fuel : ℕ) (s : Session) (cutoff size : ℕ) (rows : List (Option ℕ))
    → length rows < fuel
    → Ends cutoff rows (purge_in_batches fuel s cutoff size rows)
unfolding purge_in_batches
purge_in_batches-Ends fuel s cutoff size rows enough =
    batches-Ends fuel s (max size 1) cutoff 0 0 rows rows (omega arith) enough (omega arith, refl)
