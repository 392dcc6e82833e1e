-- ===== src/EventBus/Consumer/Once.antt =====
-- Deliveries of the same key in a row.
use trustlist_core.Base.{◌≡◌, refl, ap, ◌∙◌, Bool, true, false, List, [], ◌∷◌, if◌then◌else◌}
use trustlist_core.EventBus.Dedup.{DedupStore}
use trustlist_core.EventBus.Consumer.{
  Message, Interfaces, Effect, handled, committed, Turn, Consumer, poll_once,
}
use trustlist_core.EventBus.Consumer.Outcomes.{IsArrival, poll_once_lem}

-- The envelopes that were handled, the newest first.
abbrev pub handlings : {Bytes Envelope : Type 0} → List (Effect Bytes Envelope) → List Envelope
handlings [] = []
handlings (handled e ∷ effects) = e ∷ handlings effects
handlings (committed m ∷ effects) = handlings effects

handlings-commit :
    {Bytes Envelope : Type 0} (refused : Bool) (m : Message Bytes)
    (effects : List (Effect Bytes Envelope))
    → handlings (if refused then effects else committed m ∷ effects) ≡ handlings effects
handlings-commit true m effects = refl
handlings-commit false m effects = refl

module _ {Bytes Envelope Registry Key : Type 0} (io : Interfaces Bytes Envelope Registry Key)
    (d : DedupStore Key) where
  -- A poll of a valid arrival with an unseen key, whose handler returns, handles it and records the
  -- key, whatever becomes of the commit.
  poll_once-new :
      (t : Turn Bytes Envelope) (m : Message Bytes) (e : Envelope) (k : Key) (c : Consumer io d)
      → IsArrival io d t m e k c
      → (d.seen k c.store).0 ≡ false
      → t.handler_raises e ≡ false
      → (handlings (poll_once io d t c).1.effects ≡ e ∷ handlings c.effects)
        × ((poll_once io d t c).1.store ≡ d.remember k (d.seen k c.store).1)
  poll_once-new t m e k c a new returns =
      rw (poll_once_lem io d t m e k c a, new, returns)
        (handlings-commit t.commit_fails m (handled e ∷ c.effects), refl)

  poll_once-known :
      (t : Turn Bytes Envelope) (m : Message Bytes) (e : Envelope) (k : Key) (c : Consumer io d)
      → IsArrival io d t m e k c
      → (d.seen k c.store).0 ≡ true
      → handlings (poll_once io d t c).1.effects ≡ handlings c.effects
  poll_once-known t m e k c a known =
      rw (poll_once_lem io d t m e k c a, known) (handlings-commit t.commit_fails m c.effects)

  -- Two deliveries with the same key are handled once: after a valid arrival with an unseen key,
  -- whose handler returns, a second one with that key is not handled, though the broker may have
  -- refused the first commit, and whatever the handler would do now. The store has to recall the
  -- key that it recorded last.
  pub poll_once_twice :
      (t u : Turn Bytes Envelope) (m n : Message Bytes) (e f : Envelope) (k : Key)
      (c : Consumer io d)
      → IsArrival io d t m e k c
      → (d.seen k c.store).0 ≡ false
      → t.handler_raises e ≡ false
      → (d.seen k (d.remember k (d.seen k c.store).1)).0 ≡ true
      → IsArrival io d u n f k (poll_once io d t c).1
      → handlings (poll_once io d u (poll_once io d t c).1).1.effects ≡ e ∷ handlings c.effects
  poll_once_twice t u m n e f k c a new returns recalls b =
      let (once, stored) = poll_once-new t m e k c a new returns in
      poll_once-known u n f k (poll_once io d t c).1 b (ap (λ s. (d.seen k s).0) stored ∙ recalls)
      ∙ once
