-- ===== src/Ingest/Text.antt =====
-- model/model.go (`cleanText`): texts of a report. A text is native, so it is valid UTF-8, and a cut
-- at a rune boundary is `slice`.
use Prim.Native.Char.{Char, code, len_utf8}
use Prim.Native.Nat.{compare, Ordering}
use Prim.Native.String.len
use Prim.Native.String.slice
use Prim.Native.String.{String, len, slice, fits}
use health_beat.Prelude.{
  ℕ, ◌-◌, ◌≤◌, Bool, true, false, ◌&&◌, ◌||◌, any, [], ◌∷◌, leb, eqb, if◌then◌else◌, ◌≡◌, refl, sym,
  subst, arith, if-holds,
}

-- unicode.IsControl
unfoldable pub is_control : ℕ → Bool
is_control c = leb c 31 || (leb 127 c && leb c 159)

-- unicode.IsSpace
unfoldable pub is_space : ℕ → Bool
is_space c =
    (leb 9 c && leb c 13)
    || any (λ d. eqb d c) (32 ∷ 133 ∷ 160 ∷ 5760 ∷ 8232 ∷ 8233 ∷ 8239 ∷ 8287 ∷ 12288 ∷ [])
    || (leb 8192 c && leb c 8202)

unfoldable pub drop_controls : String → String
unfolding is_control
drop_controls String.[] = String.[]
drop_controls (String.◌∷◌ c s) =
    let rest = drop_controls s in if is_control (code c) then rest else String.◌∷◌ c rest

unfoldable pub trim_left : String → String
unfolding is_space
trim_left String.[] = String.[]
trim_left (String.◌∷◌ c s) =
    let rest = trim_left s in if is_space (code c) then rest else String.◌∷◌ c s

abbrev pub is_empty : String → Bool
is_empty String.[] = true
is_empty (String.◌∷◌ c s) = false

unfoldable pub trim_right : String → String
unfolding is_space
trim_right String.[] = String.[]
trim_right (String.◌∷◌ c s) =
    let rest = trim_right s in
    if is_empty rest && is_space (code c) then String.[] else String.◌∷◌ c rest

-- `cleanText`
unfoldable pub clean_text : String → ℕ → String
unfolding drop_controls trim_left trim_right
clean_text s max =
    let t = trim_right (trim_left (drop_controls s)) in if leb (len t) max then t else slice t 0 max

fits-len :
    (c : Char) (b : ℕ) (r : String)
    → len r ≤ b - len_utf8 c
    → len (fits (compare (len_utf8 c) b) c r) ≤ b
fits-len c b r h = by_order (compare (len_utf8 c) b) refl
  where
    by_order : (o : Ordering) → compare (len_utf8 c) b ≡ o → len (fits o c r) ≤ b
    by_order Ordering.lt e = ground (arith, e, h, len.cons c r)
    by_order Ordering.eq e = ground (arith, e, h, len.cons c r)
    by_order Ordering.gt e = omega arith

-- What is cut fits.
slice-len : (s : String) (b : ℕ) → len (slice s 0 b) ≤ b
slice-len String.[] b = subst (λ r. len r ≤ b) (sym (slice.nil 0 b)) (omega arith)
slice-len (String.◌∷◌ c s) b =
    subst (λ r. len r ≤ b) (sym (slice.cons-zero c s b))
      (fits-len c b (slice s 0 (b - len_utf8 c)) (slice-len s (b - len_utf8 c)))

-- No character of the text is a control character.
abbrev pub Printable : String → Type 0
Printable String.[] = Unit
Printable (String.◌∷◌ c s) = (is_control (code c) ≡ false) × Printable s

kept-Printable :
    (c : Char) (r : String) (b : Bool)
    → is_control (code c) ≡ b
    → Printable r
    → Printable (if b then r else String.◌∷◌ c r)
kept-Printable c r true e h = h
kept-Printable c r false e h = (e, h)

drop_controls-Printable : (s : String) → Printable (drop_controls s)
unfolding drop_controls
drop_controls-Printable String.[] = tt
drop_controls-Printable (String.◌∷◌ c s) =
    kept-Printable c (drop_controls s) (is_control (code c)) refl (drop_controls-Printable s)

trim_left-Printable : (s : String) → Printable s → Printable (trim_left s)
unfolding trim_left
trim_left-Printable String.[] h = tt
trim_left-Printable (String.◌∷◌ c s) h =
    if-holds Printable (is_space (code c)) _ _ (trim_left-Printable s h.1) h

trim_right-Printable : (s : String) → Printable s → Printable (trim_right s)
unfolding trim_right
trim_right-Printable String.[] h = tt
trim_right-Printable (String.◌∷◌ c s) h =
    if-holds Printable (is_empty (trim_right s) && is_space (code c)) _ _ tt
      (h.0, trim_right-Printable s h.1)

slice-Printable : (s : String) (b : ℕ) → Printable s → Printable (slice s 0 b)
slice-Printable String.[] b h = subst Printable (sym (slice.nil 0 b)) tt
slice-Printable (String.◌∷◌ c s) b h =
    subst Printable (sym (slice.cons-zero c s b))
      (fitting (compare (len_utf8 c) b) (slice-Printable s (b - len_utf8 c) h.1))
  where
    fitting :
        (o : Ordering)
        → Printable (slice s 0 (b - len_utf8 c))
        → Printable (fits o c (slice s 0 (b - len_utf8 c)))
    fitting Ordering.lt r = (h.0, r)
    fitting Ordering.eq r = (h.0, r)
    fitting Ordering.gt r = tt

-- A text that the server stores: no control characters, and at most `max` bytes.
abbrev pub Clean : ℕ → String → Type 0
Clean max s = Printable s × (len s ≤ max)

pub clean_text-Clean : (s : String) (max : ℕ) → Clean max (clean_text s max)
unfolding clean_text
clean_text-Clean s max = by_length (leb (len trimmed) max) refl
  where
    trimmed : String
    trimmed = trim_right (trim_left (drop_controls s))

    printable : Printable trimmed
    printable =
        trim_right-Printable (trim_left (drop_controls s))
          (trim_left-Printable (drop_controls s) (drop_controls-Printable s))

    by_length :
        (b : Bool)
        → leb (len trimmed) max ≡ b
        → Clean max (if b then trimmed else slice trimmed 0 max)
    by_length true e = (printable, ground (arith, e))
    by_length false e = (slice-Printable trimmed max printable, slice-len trimmed max)
