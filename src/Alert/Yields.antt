-- ===== src/Alert/Yields.antt =====
-- What an action keeps together with what its result is, one rule for each way to build it.
use health_beat.Prelude.{Bool, true, false, ◌≡◌, refl, if◌then◌else◌, arith}
use health_beat.Alert.Table.{Result, ok, not_found, failed}
use health_beat.Alert.World.{World, M, ◌>>=◌, pure, fault, read}
use health_beat.Alert.Keeps.{Keeps, Lawful}

-- `m` keeps `P`, and its result has `R`.
pub record Yields {A : Type 0} (P : World → Type 0) (R : A → Type 0) (m : M A) : Type 0 where
  pub at : (w : World) → P w → P (m w).1 × R (m w).0

-- The answer of a read is the row or a failure.
abbrev pub Answer : {A : Type 0} → A → Result A → Type 0
Answer a (ok b) = b ≡ a
Answer a not_found = Unit
Answer a failed = Unit

module _ {P : World → Type 0} where
  module _ {A B : Type 0} where
    pub Yields-then :
        (R : A → Type 0) (m : M A) (f : A → M B)
        → Yields P R m
        → ((a : A) → R a → Keeps P (f a))
        → Keeps P (m >>= f)
    unfolding ◌>>=◌
    Yields-then R m f y kf = record {
      at = λ w h. let (p, r) = y.at w h in let (a, w') = m w in (kf a r).at w' p;
    }

    pub Yields-bind :
        (R : A → Type 0) (S : B → Type 0) (m : M A) (f : A → M B)
        → Yields P R m
        → ((a : A) → R a → Yields P S (f a))
        → Yields P S (m >>= f)
    unfolding ◌>>=◌
    Yields-bind R S m f y ys = record {
      at = λ w h. let (p, r) = y.at w h in let (a, w') = m w in (ys a r).at w' p;
    }

    pub Yields-after :
        (S : B → Type 0) (m : M A) (f : A → M B)
        → Keeps P m
        → ((a : A) → Yields P S (f a))
        → Yields P S (m >>= f)
    unfolding ◌>>=◌
    Yields-after S m f k ys = record { at = λ w h. let (a, w') = m w in (ys a).at w' (k.at w h) }

  module _ {A : Type 0} where
    pub Yields-pure : (R : A → Type 0) (a : A) → R a → Yields P R (pure a)
    unfolding pure
    Yields-pure R a r = record { at = λ w h. (h, r) }

    pub Yields-if :
        (R : A → Type 0) (b : Bool) (m n : M A)
        → Yields P R m
        → Yields P R n
        → Yields P R (if b then m else n)
    Yields-if R true m n ym yn = ym
    Yields-if R false m n ym yn = yn

    pub Yields-if_true :
        (R : A → Type 0) (b : Bool) (m n : M A)
        → b ≡ true
        → Yields P R m
        → Yields P R (if b then m else n)
    Yields-if_true R true m n e ym = ym
    Yields-if_true R false m n e ym = ground (arith, e)

    pub Yields-if_false :
        (R : A → Type 0) (b : Bool) (m n : M A)
        → b ≡ false
        → Yields P R n
        → Yields P R (if b then m else n)
    Yields-if_false R true m n e yn = ground (arith, e)
    Yields-if_false R false m n e yn = yn

    pub Keeps-if_true : (b : Bool) (m n : M A) → b ≡ true → Keeps P m → Keeps P (if b then m else n)
    Keeps-if_true true m n e km = km
    Keeps-if_true false m n e km = ground (arith, e)

  module _ {A : Type 0} where
    pub read-Answer : (L : Lawful P) (a : A) → Yields P (Answer a) (read a)
    unfolding read
    read-Answer L a =
        Yields-after (Answer a) _ _ (record { at = L.turns })
          (λ _.
            Yields-after (Answer a) _ _ (record { at = L.faults })
              (λ broken.
                Yields-if (Answer a) broken _ _ (Yields-pure _ _ tt) (Yields-pure _ _ refl)))

    -- Where no call fails, it is the row.
    pub read-ok :
        (L : Lawful P) (a : A) → Yields P (λ b. b ≡ false) fault → Yields P (λ r. r ≡ ok a) (read a)
    unfolding read
    read-ok L a works =
        Yields-after (λ r. r ≡ ok a) _ _ (record { at = L.turns })
          (λ _.
            Yields-bind (λ b. b ≡ false) (λ r. r ≡ ok a) _ _ works
              (λ broken e. Yields-if_false (λ r. r ≡ ok a) broken _ _ e (Yields-pure _ _ refl)))
