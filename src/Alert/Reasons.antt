-- ===== src/Alert/Reasons.antt =====
-- dispatch.go (`deliverable`): to whom a notification is sent, and why not to the others.
use health_beat.Prelude.{
  String, not, Bool, true, false, any, In, In-any, ◌==◌, string_eq, ◌≡◌, refl, sym, Option, none,
  some, List, [], ◌∷◌, inl, inr, if◌then◌else◌, arith,
}
use health_beat.Alert.Recipients.{
  Recipient, SkipReason, no_access, channel_off, channel_not_supported, SkippedRecipient,
  skip_reason, sort_out, deliverable,
}

not_both : (b : Bool) → b ≡ true → b ≡ false → ⊥
not_both b h e = cc

-- A recipient with access, on a channel that is on and has a notifier.
abbrev pub CanSend : List String → Recipient → Type 0
CanSend notifiers r = (r.no_access ≡ false) × ((r.channel_off ≡ false) × In r.channel notifiers)

-- The first check that stops a recipient.
abbrev pub Stops : List String → Recipient → SkipReason → Type 0
Stops notifiers r no_access = r.no_access ≡ true
Stops notifiers r channel_off = (r.no_access ≡ false) × (r.channel_off ≡ true)
Stops notifiers r channel_not_supported =
    (r.no_access ≡ false) × ((r.channel_off ≡ false) × ¬ In r.channel notifiers)

abbrev pub Told : List String → Recipient → Option SkipReason → Type 0
Told notifiers r none = CanSend notifiers r
Told notifiers r (some reason) = Stops notifiers r reason

any-In :
    (c : String) (notifiers : List String) → any (λ x. x == c) notifiers ≡ true → In c notifiers
any-In c [] h = let absurd : ⊥ = ground (arith, h) in elim absurd [ ]
any-In c (x ∷ notifiers) h = by_first (any-In c notifiers) (x == c) refl
  where
    by_first :
        (any (λ y. y == c) notifiers ≡ true → In c notifiers)
        → (b : Bool) → (x == c) ≡ b
        → In c (x ∷ notifiers)
    by_first rest true e = inl (sym ((string_eq.same_iff x c).0 e))
    by_first rest false e = inr (rest (ground (arith, h, e)))

skip_reason-Told :
    (notifiers : List String) (r : Recipient) → Told notifiers r (skip_reason notifiers r)
unfolding skip_reason
skip_reason-Told notifiers r =
    by_checks r.no_access r.channel_off (any (λ c. c == r.channel) notifiers) refl refl refl
  where
    by_checks :
        (a o s : Bool)
        → r.no_access ≡ a
        → r.channel_off ≡ o
        → any (λ c. c == r.channel) notifiers ≡ s
        → Told notifiers r (
            if a
            then some no_access
            else if o
            then some channel_off
            else if not s
            then some channel_not_supported
            else none)
    by_checks true o s ea eo es = ea
    by_checks false true s ea eo es = (ea, eo)
    by_checks false false false ea eo es = (
      ea,
      (
        eo,
        λ i.
            not_both _
              (In-any (λ c. c == r.channel) r.channel notifiers i
                ((string_eq.same_iff r.channel r.channel).1 refl))
              es,
      ),
    )
    by_checks false false true ea eo es = (ea, (eo, any-In r.channel notifiers es))

-- The recipients that are sent to and those that are skipped, with the reason, in their order.
pub data SplitInto (notifiers : List String)
    : List Recipient → List Recipient → List SkippedRecipient → Type 0 where
  nobody_left : SplitInto notifiers [] [] []
  sends_to :
      (r : Recipient) (rs send : List Recipient) (skipped : List SkippedRecipient)
      → CanSend notifiers r
      → SplitInto notifiers rs send skipped
      → SplitInto notifiers (r ∷ rs) (r ∷ send) skipped
  skips :
      (r : Recipient) (reason : SkipReason) (rs send : List Recipient)
      (skipped : List SkippedRecipient)
      → Stops notifiers r reason
      → SplitInto notifiers rs send skipped
      → SplitInto notifiers (r ∷ rs) send (record { recipient = r; reason = reason } ∷ skipped)

sorted-SplitInto :
    (notifiers : List String) (o : Option SkipReason) (r : Recipient) (rs : List Recipient)
    (parts : List Recipient × List SkippedRecipient)
    → Told notifiers r o
    → SplitInto notifiers rs parts.0 parts.1
    → SplitInto notifiers (r ∷ rs) (sort_out o r parts).0 (sort_out o r parts).1
sorted-SplitInto notifiers none r rs parts h s = SplitInto.sends_to r rs parts.0 parts.1 h s
sorted-SplitInto notifiers (some reason) r rs parts h s =
    SplitInto.skips r reason rs parts.0 parts.1 h s

-- `deliverable` splits the recipients and keeps their order: it sends to exactly those who have
-- access, whose channel is on and has a notifier, and skips each other one with the reason of the
-- first check that stops it: no access; with access, a channel that is off; with access and a
-- channel that is on, no notifier for the channel.
pub deliverable-splits :
    (notifiers : List String) (rs : List Recipient)
    → SplitInto notifiers rs (deliverable notifiers rs).0 (deliverable notifiers rs).1
unfolding deliverable
deliverable-splits notifiers [] = SplitInto.nobody_left
deliverable-splits notifiers (r ∷ rs) =
    sorted-SplitInto notifiers (skip_reason notifiers r) r rs (deliverable notifiers rs)
      (skip_reason-Told notifiers r) (deliverable-splits notifiers rs)
