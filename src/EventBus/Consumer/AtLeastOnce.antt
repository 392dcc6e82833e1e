-- ===== src/EventBus/Consumer/AtLeastOnce.antt =====
-- At-least-once delivery: an offset is committed only for an event that was handled before.
use trustlist_core.Base.{
  ℕ, ◌≡◌, refl, ap, ◌∙◌, Bool, true, false, Option, none, some, List, [], ◌∷◌, suc, is_some,
  Bool-cases, ◌⊎◌, inl, inr, if◌then◌else◌,
}
use trustlist_core.Base.Result.{ok}
use trustlist_core.Base.Action.{continue_inv, pure}
use trustlist_core.EventBus.Dedup.{DedupStore, DedupLaws}
use trustlist_core.EventBus.Consumer.{
  PollError, partition_eof, other_error, Message, Interfaces, Effect, handled, committed, Turn,
  Consumer, decode, commit, validate, is_duplicate, run_handler, record_key, finish, consume,
  poll_answer, poll_once, run, reached,
}

module _ {Bytes Envelope Registry Key : Type 0} (io : Interfaces Bytes Envelope Registry Key)
    (d : DedupStore Key) (laws : DedupLaws d) (start : d.Store) where
  -- An event with the key was handled.
  abbrev pub Handled : Key → List (Effect Bytes Envelope) → Type 0
  Handled k [] = ⊥
  Handled k (handled e ∷ effects) = (io.idempotency_key e ≡ ok k) ⊎ Handled k effects
  Handled k (committed m ∷ effects) = Handled k effects

  -- The key was in the store at the start, or an event with it was handled.
  abbrev pub Known : Key → List (Effect Bytes Envelope) → Type 0
  Known k effects = ((d.seen k start).0 ≡ true) ⊎ Handled k effects

  -- Each committed message is an envelope whose key was known before the commit.
  abbrev pub Covered : List (Effect Bytes Envelope) → Type 0
  Covered [] = Unit
  Covered (handled e ∷ effects) = Covered effects
  Covered (committed m ∷ effects) =
      ((e : Envelope) × (k : Key) × (decode io d m ≡ ok e)
        × (io.idempotency_key e ≡ ok k)
        × Known k effects)
      × Covered effects

  -- What `run` keeps: commits are covered, and the store sees known keys only.
  pub record IsCovered (c : Consumer io d) : Type 0 where
    pub commits : Covered c.effects
    pub keys : (k : Key) → (d.seen k c.store).0 ≡ true → Known k c.effects

  weaken :
      (k : Key) (e : Effect Bytes Envelope) (effects : List (Effect Bytes Envelope))
      → Known k effects
      → Known k (e ∷ effects)
  weaken k e effects (inl old) = inl old
  weaken k (handled f) effects (inr h) = inr (inr h)
  weaken k (committed m) effects (inr h) = inr h

  -- `m` decodes to `e`, which has the key `k`.
  pub record IsKeyed (m : Message Bytes) (e : Envelope) (k : Key) : Type 0 where
    pub decoded : decode io d m ≡ ok e
    pub keyed : io.idempotency_key e ≡ ok k

  commit-IsCovered :
      (t : Turn Bytes Envelope) (m : Message Bytes) (e : Envelope) (k : Key) (c : Consumer io d)
      → IsKeyed m e k
      → Known k c.effects
      → IsCovered c
      → IsCovered (commit io d t m c).1
  unfolding commit
  commit-IsCovered t m e k c a known h = elim (Bool-cases t.commit_fails) [
    | inl fails ↦ rw fails h
    | inr accepted ↦ rw accepted (record {
      commits = ((e, k, a.decoded, a.keyed, known), h.commits);
      keys = λ j s. weaken j (committed m) c.effects (h.keys j s);
    })
  ]

  -- The handler ran and the key is recorded.
  abbrev after_handler : Envelope → Key → Consumer io d → Consumer io d
  after_handler e k c = record c { effects = handled e ∷ c.effects; store = d.remember k c.store }

  after_handler-IsCovered :
      (e : Envelope) (k : Key) (c : Consumer io d)
      → io.idempotency_key e ≡ ok k
      → IsCovered c
      → IsCovered (after_handler e k c)
  after_handler-IsCovered e k c keyed h = record {
    commits = h.commits;
    keys = λ j s. elim (laws.seen-remember j k c.store s) [
      | inl same ↦ inr (inl (keyed ∙ ap ok same))
      | inr old ↦ weaken j (handled e) c.effects (h.keys j old)
    ];
  }

  -- The end of `poll_once` keeps the commits covered.
  finish-IsCovered :
      (t : Turn Bytes Envelope) (m : Message Bytes) (e : Envelope) (k : Key) (duplicate : Bool)
      (c : Consumer io d)
      → IsKeyed m e k
      → (duplicate ≡ true → Known k c.effects)
      → IsCovered c
      → IsCovered (finish io d t m e k duplicate c).1
  unfolding finish run_handler record_key
  finish-IsCovered t m e k true c a known h =
      let covered = commit-IsCovered t m e k c a (known refl) h in
      continue_inv IsCovered (λ _. pure (some e)) (commit io d t m c).0 (commit io d t m c).1
        covered (λ _ _. covered)
  finish-IsCovered t m e k false c a known h = elim (Bool-cases (t.handler_raises e)) [
    | inl raised ↦ rw raised h
    | inr returned ↦
        let c' = after_handler e k c in
        let covered =
          commit-IsCovered t m e k c' a (inr (inl a.keyed))
            (after_handler-IsCovered e k c a.keyed h) in
        rw returned (
          continue_inv IsCovered (λ _. pure (some e)) (commit io d t m c').0 (commit io d t m c').1
            covered (λ _ _. covered))
  ]

  consume-IsCovered :
      (t : Turn Bytes Envelope) (m : Message Bytes) (error : Option PollError) (c : Consumer io d)
      → IsCovered c
      → IsCovered (consume io d t m error c).1
  unfolding consume validate is_duplicate
  consume-IsCovered t m (some partition_eof) c h = h
  consume-IsCovered t m (some other_error) c h = h
  consume-IsCovered t m none c h = continue_inv IsCovered _ (decode io d m) c h λ e decoded.
      let c' : Consumer io d = record c { registry = (io.validate e c.registry).1 } in
      let h' : IsCovered c' = record { commits = h.commits; keys = h.keys } in
      continue_inv IsCovered _ (io.validate e c.registry).0 c' h' λ _ _.
        continue_inv IsCovered _ (io.idempotency_key e) c' h' λ k keyed.
          finish-IsCovered t m e k (d.seen k c.store).0 (record c' { store = (d.seen k c.store).1 })
            (record { decoded = decoded; keyed = keyed }) (h.keys k)
            (record { commits = h.commits; keys = λ j s. h.keys j (laws.seen-seen j k c.store s) })

  poll_answer-IsCovered :
      (t : Turn Bytes Envelope) (m : Option (Message Bytes)) (c : Consumer io d)
      → IsCovered c
      → IsCovered (poll_answer io d t m c).1
  unfolding poll_answer
  poll_answer-IsCovered t none c h = h
  poll_answer-IsCovered t (some m) c h = consume-IsCovered t m m.error c h

  pub poll_once-IsCovered :
      (t : Turn Bytes Envelope) (c : Consumer io d) → IsCovered c → IsCovered (poll_once io d t c).1
  unfolding poll_once
  poll_once-IsCovered t c h = poll_answer-IsCovered t t.polled c h

  -- At-least-once: along any run of the loop, which may end in an exception, an offset is committed
  -- only for a message that decodes to an event whose key was in the store at the start or belongs
  -- to an event that the handler had processed before the commit.
  pub run-IsCovered :
      (max_events : Option ℕ) (processed : ℕ) (turns : List (Turn Bytes Envelope))
      (c : Consumer io d)
      → IsCovered c
      → IsCovered (run io d max_events processed turns c).1
  unfolding run
  run-IsCovered max_events processed [] c h = h
  run-IsCovered max_events processed (t ∷ turns) c h =
      elim (Bool-cases (reached max_events processed)) [
        | inl full ↦ rw full h
        | inr below ↦ rw below (
            continue_inv IsCovered _ (poll_once io d t c).0 (poll_once io d t c).1
              (poll_once-IsCovered t c h)
              λ e _.
                run-IsCovered max_events (if is_some e then suc processed else processed) turns
                  (poll_once io d t c).1 (poll_once-IsCovered t c h))
      ]
