-- ===== src/Alert/Waiting.antt =====
-- engine.go (`apply`, `sustained`): an alert with a duration is not opened before its time.
use health_beat.Prelude.{
  ℕ, ◌+◌, ◌<◌, Bool, true, false, ◌≡◌, ◌≢◌, refl, ap, ◌∙◌, Option, none, some, get, string_eq,
  pair_eq, leb, eqb, if-false, arith,
}
use health_beat.Prelude.Int.{ℤ}
use health_beat.Alert.Types.{
  Level, unset, off, info, warning, critical, level_eqb, AlertKey, ThresholdConfig, duration_of,
}
use health_beat.Alert.World.{World, M, ◌>>=◌, pure, now, on_some}
use health_beat.Alert.HostState.{HostState, Engine, level_of, trigger_of}
use health_beat.Alert.Engine.{passed, since_or_mark, sustained, opens_after, raise, apply}

module _ (e : Engine) (st : HostState) (key : AlertKey) where
  not_yet : (since d : ℕ) (w : World) → w.clock < since + d → leb (since + d) w.clock ≡ false
  not_yet since d w early = ground (arith, early)

  positive : (d : ℕ) → d ≢ 0 → eqb d 0 ≡ false
  positive d later = ground (arith, later)

  held_since : Level → ℕ → Option ℕ → M (Bool × HostState)
  held_since l d o = since_or_mark st key l o >>= λ found.
      on_some found.0 (λ since. passed since d >>= λ held. pure (held, found.1))
        (pure (false, found.1))

  sustained-early :
      (l : Level) (d since : ℕ) (w : World)
      → get key st.pending ≡ some since
      → d ≢ 0
      → w.clock < since + d
      → sustained st key l d w ≡ ((false, st), w)
  unfolding sustained since_or_mark on_some passed now ◌>>=◌ pure held_since
  sustained-early l d since w known later early =
      ap (λ (m : M (Bool × HostState)). m w)
        (if-false (eqb d 0) (pure (true, st)) (held_since l d (get key st.pending))
          (positive d later))
      ∙ ap (λ o. held_since l d o w) known
      ∙ ap (λ b. ((b, st), w)) (not_yet since d w early)

  raise-early :
      (l : Level) (d since : ℕ) (v u : Option ℤ) (w : World)
      → get key st.pending ≡ some since
      → d ≢ 0
      → w.clock < since + d
      → raise e st key l d v u none w ≡ (st, w)
  unfolding raise opens_after ◌>>=◌ pure
  raise-early l d since v u w known later early =
      ap (λ (r : (Bool × HostState) × World). opens_after e r.0.1 key l v u r.0.0 r.1)
        (sustained-early l d since w known later early)

  not_unset : (l : Level) → l ≢ unset → level_eqb l unset ≡ false
  not_unset unset h = elim (h refl) [ ]
  not_unset off h = refl
  not_unset info h = refl
  not_unset warning h = refl
  not_unset critical h = refl

-- A value above a limit whose condition is known since a time opens nothing until its duration has
-- passed: where no alert of the key is active, `apply` neither writes nor reads anything, and
-- leaves the state of the host as it is.
pub apply-waits :
    (e : Engine) (st : HostState) (key : AlertKey) (v : ℤ) (t : ThresholdConfig) (since : ℕ)
    (w : World)
    → level_of t v ≢ unset
    → get key st.active ≡ none
    → get key st.pending ≡ some since
    → duration_of t.duration_seconds ≢ 0
    → w.clock < since + duration_of t.duration_seconds
    → apply e st key v t w ≡ (st, w)
unfolding apply
apply-waits e st key v t since w high inactive known later early =
    let l = level_of t v in
    let d = duration_of t.duration_seconds in
    ap (λ (m : M HostState). m w) (if-false (level_eqb l unset) _ _ (not_unset e st key l high))
    ∙ ap (λ o. raise e st key l d (some v) (some (trigger_of t l)) o w) inactive
    ∙ raise-early e st key l d since _ _ w known later early
