-- ===== src/Ingest/Unchanged.antt =====
-- model/ingest_v4.go: what is clean already is stored as it is.
use Prim.Native.Char.{code}
use Prim.Native.String.{String, len, slice}
use health_beat.Prelude.{
  ℕ, zero, suc, ◌≤◌, true, false, ◌&&◌, ◌||◌, List, [], ◌∷◌, Option, none, some, any, length, ◌==◌,
  string_eq, if◌then◌else◌, if-false, le→leb, leb, ◌≡◌, refl, sym, subst, ap, ◌∙◌, arith,
}
use health_beat.Ingest.Text.{
  is_control, is_space, drop_controls, trim_left, trim_right, is_empty, clean_text, Printable,
}
use health_beat.Ingest.Types.{DiskIo}
use health_beat.Ingest.Entries.{Rules, unique_name, accept, with_name, named, sanitize_list}
use health_beat.Ingest.Ranges.{max_v4_entries}
use health_beat.Ingest.Lists.{disk_io_ok, disk_io_rules, sanitize_disk_io}

-- The text does not begin, or end, with a space.
abbrev pub NoSpaceFirst : String → Type 0
NoSpaceFirst String.[] = Unit
NoSpaceFirst (String.◌∷◌ c s) = is_space (code c) ≡ false

abbrev pub NoSpaceLast : String → Type 0
NoSpaceLast String.[] = Unit
NoSpaceLast (String.◌∷◌ c String.[]) = is_space (code c) ≡ false
NoSpaceLast (String.◌∷◌ c (String.◌∷◌ d s)) = NoSpaceLast (String.◌∷◌ d s)

-- A text of at most `max` bytes without control characters and without spaces around it.
abbrev pub Plain : ℕ → String → Type 0
Plain max s = (Printable s × (len s ≤ max)) × (NoSpaceFirst s × NoSpaceLast s)

drop_controls_same : (s : String) → Printable s → drop_controls s ≡ s
unfolding drop_controls
drop_controls_same String.[] h = refl
drop_controls_same (String.◌∷◌ c s) h =
    if-false (is_control (code c)) (drop_controls s) (String.◌∷◌ c (drop_controls s)) h.0
    ∙ ap (String.◌∷◌ c) (drop_controls_same s h.1)

trim_left_same : (s : String) → NoSpaceFirst s → trim_left s ≡ s
unfolding trim_left
trim_left_same String.[] h = refl
trim_left_same (String.◌∷◌ c s) h = if-false (is_space (code c)) (trim_left s) (String.◌∷◌ c s) h

trim_right_same : (s : String) → NoSpaceLast s → trim_right s ≡ s
unfolding trim_right
trim_right_same String.[] h = refl
trim_right_same (String.◌∷◌ c String.[]) h =
    if-false (is_space (code c)) String.[] (String.◌∷◌ c String.[]) h
trim_right_same (String.◌∷◌ c (String.◌∷◌ d s)) h =
    let rest = trim_right_same (String.◌∷◌ d s) h in
    if-false (is_empty (trim_right (String.◌∷◌ d s)) && is_space (code c)) String.[]
      (String.◌∷◌ c (trim_right (String.◌∷◌ d s))) (ap (λ t. is_empty t && is_space (code c)) rest)
    ∙ ap (String.◌∷◌ c) rest

pub clean_text_same : (s : String) (max : ℕ) → Plain max s → clean_text s max ≡ s
unfolding clean_text
clean_text_same s max h =
    let trimmed : trim_right (trim_left (drop_controls s)) ≡ s =
      ap (λ t. trim_right (trim_left t)) (drop_controls_same s h.0.0)
      ∙ (ap trim_right (trim_left_same s h.1.0) ∙ trim_right_same s h.1.1) in
    subst (λ t. (if leb (len t) max then t else slice t 0 max) ≡ s) (sym trimmed)
      (ap (λ b. if b then s else slice s 0 max) (le→leb (len s) max h.0.1))

module _ {A : Type 0} (rules : Rules A) (Ok : A → Type 0) where
  -- Entries with the property, with plain names that are new and not empty.
  abbrev pub Ready : List String → List A → Type 0
  Ready seen [] = Unit
  Ready seen (x ∷ xs) =
      (Ok x
        × (Plain rules.max_bytes (rules.name x)
            × ((is_empty (rules.name x) ≡ false) × (any (λ s. s == rules.name x) seen ≡ false))))
      × Ready (rules.name x ∷ seen) xs

  unique_name_same :
      (seen : List String) (n : String)
      → Plain rules.max_bytes n
      → is_empty n ≡ false
      → any (λ s. s == n) seen ≡ false
      → unique_name seen n rules.max_bytes ≡ some n
  unfolding unique_name
  unique_name_same seen n p e f =
      subst (λ t. (if is_empty t || any (λ s. s == t) seen then none else some t) ≡ some n)
        (sym (clean_text_same n rules.max_bytes p))
        (if-false (is_empty n || any (λ s. s == n) seen) none (some n) (ground (arith, e, f)))

  module _ (same_name : (x : A) → rules.rename (rules.name x) x ≡ x)
      (admitted : (x : A) → Ok x → rules.admits x ≡ some x) where
    accept_same :
        (seen : List String) (x : A) (xs : List A)
        → Ready seen (x ∷ xs)
        → accept rules seen x ≡ some x
    unfolding accept
    accept_same seen x xs h =
        ap (with_name rules seen x) (admitted x h.0.0)
        ∙ ap (λ o. named rules o x)
            (unique_name_same seen (rules.name x) h.0.1.0 h.0.1.1.0 h.0.1.1.1)
        ∙ ap some (same_name x)

    pub sanitize_list_same :
        (n : ℕ) (seen : List String) (xs : List A)
        → length xs ≤ n
        → Ready seen xs
        → sanitize_list rules n seen xs ≡ xs
    unfolding sanitize_list
    sanitize_list_same zero seen [] fits h = refl
    sanitize_list_same zero seen (x ∷ xs) fits h =
        let absurd : ⊥ = omega (arith, fits) in elim absurd [ ]
    sanitize_list_same (suc n) seen [] fits h = refl
    sanitize_list_same (suc n) seen (x ∷ xs) fits h =
        ap
          (λ (o : Option A). elim o as (λ o. List A) [
            | none ↦ sanitize_list rules (suc n) seen xs
            | some y ↦ y ∷ sanitize_list rules n (rules.name y ∷ seen) xs
          ])
          (accept_same seen x xs h)
        ∙ ap (λ ys. x ∷ ys)
            (sanitize_list_same n (rules.name x ∷ seen) xs (omega (arith, fits)) h.1)

-- Disk figures that are in range, of disks with different plain names, at most 64 of them, are stored
-- as they are received.
pub sanitize_disk_io_same :
    (ds : List DiskIo)
    → length ds ≤ max_v4_entries
    → Ready disk_io_rules (λ d. disk_io_ok d ≡ true) [] ds
    → sanitize_disk_io ds ≡ ds
unfolding sanitize_disk_io
sanitize_disk_io_same ds fits h =
    sanitize_list_same disk_io_rules (λ d. disk_io_ok d ≡ true) (λ d. refl)
      (λ d ok. ap (λ b. if b then some d else none) ok) max_v4_entries [] ds fits h
