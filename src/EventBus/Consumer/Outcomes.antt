-- ===== src/EventBus/Consumer/Outcomes.antt =====
-- What one `poll_once` does with a message, and how far `run` counts.
use trustlist_core.Base.{
  ℕ, suc, ◌+◌, ◌≤◌, ◌≡◌, refl, sym, ap, ◌∙◌, Bool, true, false, Option, none, some, List, [], ◌∷◌,
  arith, if◌then◌else◌, is_some, ltb, Bool-cases, inl, inr, ◌⊎◌, leb,
}
use trustlist_core.Base.Lists.{All}
use trustlist_core.Base.Result.{Result, ok, err}
use trustlist_core.Base.Action.{continue, continue-eq-ok, continue-ok}
use trustlist_core.EventBus.Errors.{BusError, event_bus_error, handler_error}
use trustlist_core.EventBus.Dedup.{DedupStore}
use trustlist_core.EventBus.Consumer.{
  Message, Interfaces, Effect, handled, committed, Turn, Consumer, decode, commit, validate,
  is_duplicate, run_handler, record_key, finish, consume, poll_answer, poll_once, run, reached,
}

module _ {Bytes Envelope Registry Key : Type 0} (io : Interfaces Bytes Envelope Registry Key)
    (d : DedupStore Key) (t : Turn Bytes Envelope) (m : Message Bytes) (e : Envelope) (k : Key)
    (c : Consumer io d) where
  -- The poll yields a message that decodes to `e`, which conforms to its schema and has the key `k`.
  pub record IsArrival : Type 0 where
    pub polled : t.polled ≡ some m
    pub no_error : m.error ≡ none
    pub decoded : decode io d m ≡ ok e
    pub valid : (io.validate e c.registry).0 ≡ ok tt
    pub keyed : io.idempotency_key e ≡ ok k

  -- The consumer after the look-up of the key.
  abbrev pub looked_up : Consumer io d
  looked_up = record c { registry = (io.validate e c.registry).1; store = (d.seen k c.store).1 }

  -- The result and the state at the end of a poll, by what the broker says of the commit; `effects`
  -- are those before the commit.
  abbrev pub ended :
      d.Store → List (Effect Bytes Envelope) → Result BusError (Option Envelope) × Consumer io d
  ended store effects = (
    if t.commit_fails then err event_bus_error else ok (some e),
    record looked_up {
      store = store;
      effects = if t.commit_fails then effects else committed m ∷ effects;
    },
  )

  poll_once-finish :
      IsArrival → poll_once io d t c ≡ finish io d t m e k (d.seen k c.store).0 looked_up
  unfolding poll_once poll_answer consume validate is_duplicate
  poll_once-finish a = rw (a.polled, a.no_error, a.decoded, a.valid, a.keyed) refl

  finish_lem :
      (duplicate : Bool)
      → finish io d t m e k duplicate looked_up ≡ (
          if duplicate
          then ended looked_up.store c.effects
          else if t.handler_raises e
          then (err handler_error, looked_up)
          else ended (d.remember k looked_up.store) (handled e ∷ c.effects))
  unfolding finish run_handler record_key commit
  finish_lem true = ground arith
  finish_lem false = ground arith

  -- What a poll does with a valid arrival. If its key was seen, the event is not handled again,
  -- whatever the handler would do, and the offset is committed. Otherwise the handler runs: if it
  -- raises, its exception leaves no key recorded and no offset committed; if it returns, the key is
  -- recorded and the offset committed after the handling. A commit that the broker refuses raises
  -- EventBusError, and undoes neither the handling nor the record of the key.
  pub poll_once_lem :
      IsArrival
      → poll_once io d t c ≡ (
          if (d.seen k c.store).0
          then ended looked_up.store c.effects
          else if t.handler_raises e
          then (err handler_error, looked_up)
          else ended (d.remember k looked_up.store) (handled e ∷ c.effects))
  poll_once_lem a = poll_once-finish a ∙ finish_lem (d.seen k c.store).0

  -- A message that decodes, but that the registry rejects, is neither handled nor committed, and its
  -- key is not looked up: the exception of the registry propagates.
  pub poll_once-invalid :
      (rejected : BusError)
      → t.polled ≡ some m
      → m.error ≡ none
      → decode io d m ≡ ok e
      → (io.validate e c.registry).0 ≡ err rejected
      → poll_once io d t c ≡ (err rejected, record c { registry = (io.validate e c.registry).1 })
  unfolding poll_once poll_answer consume validate is_duplicate
  poll_once-invalid rejected polled no_error decoded invalid =
      rw (polled, no_error, decoded, invalid) refl

module _ {Bytes Envelope Registry Key : Type 0} (io : Interfaces Bytes Envelope Registry Key)
    (d : DedupStore Key) where
  run-full :
      (max_events processed : ℕ) (t : Turn Bytes Envelope) (turns : List (Turn Bytes Envelope))
      (c : Consumer io d)
      → ltb processed max_events ≡ false
      → run io d (some max_events) processed (t ∷ turns) c ≡ (ok processed, c)
  unfolding run reached
  run-full max_events processed t turns c full = rw full refl

  run-more :
      (max_events processed : ℕ) (t : Turn Bytes Envelope) (turns : List (Turn Bytes Envelope))
      (c : Consumer io d)
      → ltb processed max_events ≡ true
      → run io d (some max_events) processed (t ∷ turns) c
        ≡ continue
            (λ e. run io d (some max_events) (if is_some e then suc processed else processed) turns)
            (poll_once io d t c)
  unfolding run reached
  run-more max_events processed t turns c more = rw more refl

  -- A round that yields an event: a message with a decodable envelope that always conforms, a handler
  -- that returns and a broker that accepts the commit.
  pub record IsProductive (t : Turn Bytes Envelope) : Type 0 where
    pub message : Message Bytes
    pub envelope : Envelope
    pub key : Key
    pub polled : t.polled ≡ some message
    pub no_error : message.error ≡ none
    pub decoded : decode io d message ≡ ok envelope
    pub valid : (r : Registry) → (io.validate envelope r).0 ≡ ok tt
    pub keyed : io.idempotency_key envelope ≡ ok key
    pub returns : t.handler_raises envelope ≡ false
    pub accepted : t.commit_fails ≡ false

  poll_once-productive :
      (t : Turn Bytes Envelope) (c : Consumer io d) (p : IsProductive t)
      → (poll_once io d t c).0 ≡ ok (some p.envelope)
  poll_once-productive t c p =
      rw
        (poll_once_lem io d t p.message p.envelope p.key c (record {
          polled = p.polled;
          no_error = p.no_error;
          decoded = p.decoded;
          valid = p.valid c.registry;
          keyed = p.keyed;
        }))
        (ground (arith, p.returns, p.accepted))

  -- A round that yields an event, or one in which nothing arrives.
  abbrev pub IsRound : Turn Bytes Envelope → Type 0
  IsRound t = IsProductive t ⊎ (t.polled ≡ none)

  -- how many of the rounds yield an event
  unfoldable pub productive_rounds : (turns : List (Turn Bytes Envelope)) → All IsRound turns → ℕ
  productive_rounds [] tt = 0
  productive_rounds (t ∷ turns) (inl p, rounds) = suc (productive_rounds turns rounds)
  productive_rounds (t ∷ turns) (inr idle, rounds) = productive_rounds turns rounds

  poll_once-idle :
      (t : Turn Bytes Envelope) (c : Consumer io d)
      → t.polled ≡ none
      → (poll_once io d t c).0 ≡ ok none
  unfolding poll_once poll_answer
  poll_once-idle t c idle = rw idle refl

  -- Progress, with idle polls in between: over rounds that yield an event or in which nothing arrives,
  -- a `run` that starts from a count within the bound returns, and has counted exactly the rounds that
  -- yield an event, up to the bound. So it returns the bound if there are as many of these as are
  -- missing.
  pub run-reaches :
      (max_events processed : ℕ) (turns : List (Turn Bytes Envelope)) (c : Consumer io d)
      (rounds : All IsRound turns)
      → processed ≤ max_events
      → (run io d (some max_events) processed turns c).0
        ≡ ok (
            if leb max_events (processed + productive_rounds turns rounds)
            then max_events
            else processed + productive_rounds turns rounds)
  unfolding run productive_rounds
  run-reaches max_events processed [] c tt below = ap ok (ground arith)
  run-reaches max_events processed (t ∷ turns) c (inl p, rounds) below =
      elim (Bool-cases (ltb processed max_events)) [
        | inr full ↦
            ap (λ r. r.0) (run-full max_events processed t turns c full) ∙ ap ok (ground arith)
        | inl more ↦
            ap (λ r. r.0)
              (run-more max_events processed t turns c more
                ∙ continue-ok
                    (λ e.
                      run io d (some max_events) (if is_some e then suc processed else processed)
                        turns)
                    (poll_once io d t c) (some p.envelope) (poll_once-productive t c p))
            ∙ run-reaches max_events (suc processed) turns (poll_once io d t c).1 rounds
                (ground arith)
            ∙ ap ok (ground arith)
      ]
  run-reaches max_events processed (t ∷ turns) c (inr idle, rounds) below =
      elim (Bool-cases (ltb processed max_events)) [
        | inr full ↦
            ap (λ r. r.0) (run-full max_events processed t turns c full) ∙ ap ok (ground arith)
        | inl more ↦
            ap (λ r. r.0)
              (run-more max_events processed t turns c more
                ∙ continue-ok
                    (λ e.
                      run io d (some max_events) (if is_some e then suc processed else processed)
                        turns)
                    (poll_once io d t c) none (poll_once-idle t c idle))
            ∙ run-reaches max_events processed turns (poll_once io d t c).1 rounds below
      ]

  -- `run` with a bound, started from a count within it, returns a count within it, whatever the polls
  -- yield.
  pub run-le-max_events :
      (max_events processed : ℕ) (turns : List (Turn Bytes Envelope)) (c : Consumer io d) (n : ℕ)
      → processed ≤ max_events
      → (run io d (some max_events) processed turns c).0 ≡ ok n
      → n ≤ max_events
  unfolding run
  run-le-max_events max_events processed [] c n below e = ground (arith, e)
  run-le-max_events max_events processed (t ∷ turns) c n below e =
      elim (Bool-cases (ltb processed max_events)) [
        | inr full ↦ ground (arith, ap (λ r. r.0) (run-full max_events processed t turns c full), e)
        | inl more ↦
            let (a, returned) =
              continue-eq-ok
                (λ e.
                  run io d (some max_events) (if is_some e then suc processed else processed) turns)
                (poll_once io d t c).0 (poll_once io d t c).1
                (sym (ap (λ r. r.0) (run-more max_events processed t turns c more)) ∙ e) in
            run-le-max_events max_events (if is_some a then suc processed else processed) turns
              (poll_once io d t c).1 n (ground arith) returned
      ]
