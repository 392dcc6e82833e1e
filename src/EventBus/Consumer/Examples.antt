-- ===== src/EventBus/Consumer/Examples.antt =====
-- The theorems of this directory for a consumer whose messages are their own keys.
use trustlist_core.Base.{String, ◌≡◌, refl, true, false, none, some, [], ◌∷◌, arith, inl, inr}
use trustlist_core.Base.Result.{ok}
use trustlist_core.EventBus.Dedup.{in_memory, seen, remember, set_key, move_to_end, without, evict}
use trustlist_core.EventBus.Dedup.Laws.{in_memory-laws}
use trustlist_core.EventBus.Consumer.{
  Message, Interfaces, handled, committed, Turn, Consumer, converted, decode, decode_value,
  poll_once, run,
}
use trustlist_core.EventBus.Consumer.AtLeastOnce.{IsCovered, run-IsCovered}
use trustlist_core.EventBus.Consumer.Once.{handlings, poll_once_twice}
use trustlist_core.EventBus.Consumer.Outcomes.{
  IsArrival, poll_once_lem, IsProductive, productive_rounds, run-reaches,
}

abbrev plain : Interfaces String String (Unit {0}) String
plain = record {
  from_bytes = λ raw. ok raw;
  idempotency_key = λ envelope. ok envelope;
  validate = λ envelope registry. (ok tt, registry);
}

abbrev message : Message String
message = record { offset = 7; error = none; value = some "event" }

abbrev good_turn : Turn String String
good_turn = record {
  polled = some message;
  handler_raises = λ envelope. false;
  commit_fails = false;
}

abbrev fresh : Consumer plain in_memory
fresh = record { registry = tt; store = record { capacity = 2; keys = [] }; effects = [] }

fresh-IsCovered : IsCovered plain in_memory in_memory-laws fresh.store fresh
fresh-IsCovered = record { commits = tt; keys = λ k s. inl s }

run-IsCovered_example :
    IsCovered plain in_memory in_memory-laws fresh.store
      (run plain in_memory (some 2) 0 (good_turn ∷ good_turn ∷ []) fresh).1
run-IsCovered_example =
    run-IsCovered plain in_memory in_memory-laws fresh.store (some 2) 0 (good_turn ∷ good_turn ∷ [])
      fresh fresh-IsCovered

arrives : IsArrival plain in_memory good_turn message "event" "event" fresh
unfolding decode decode_value converted
arrives = record { polled = refl; no_error = refl; decoded = refl; valid = refl; keyed = refl }

poll_once_lem_example : poll_once plain in_memory good_turn fresh ≡ (
  ok (some "event"),
  record {
    registry = tt;
    store = remember "event" (seen "event" fresh.store).1;
    effects = committed message ∷ handled "event" ∷ [];
  },
)
unfolding seen
poll_once_lem_example =
    poll_once_lem plain in_memory good_turn message "event" "event" fresh arrives

productive : IsProductive plain in_memory good_turn
unfolding decode decode_value converted
productive = record {
  message = message;
  envelope = "event";
  key = "event";
  polled = refl;
  no_error = refl;
  decoded = refl;
  valid = λ r. refl;
  keyed = refl;
  returns = refl;
  accepted = refl;
}

-- Nothing arrives before the timeout.
abbrev idle_turn : Turn String String
idle_turn = record { polled = none; handler_raises = λ envelope. false; commit_fails = false }

run-reaches_example :
    (run plain in_memory (some 2) 0 (good_turn ∷ idle_turn ∷ good_turn ∷ good_turn ∷ []) fresh).0
    ≡ ok 2
unfolding productive_rounds
run-reaches_example =
    run-reaches plain in_memory 2 0 (good_turn ∷ idle_turn ∷ good_turn ∷ good_turn ∷ []) fresh
      (inl productive, (inr refl, (inl productive, (inl productive, tt)))) (omega arith)

-- The broker refuses the commit of the first delivery.
abbrev refused_turn : Turn String String
refused_turn = record {
  polled = some message;
  handler_raises = λ envelope. false;
  commit_fails = true;
}

arrives_refused : IsArrival plain in_memory refused_turn message "event" "event" fresh
unfolding decode decode_value converted
arrives_refused = record {
  polled = refl;
  no_error = refl;
  decoded = refl;
  valid = refl;
  keyed = refl;
}

arrives_again :
    IsArrival plain in_memory good_turn message "event" "event"
      (poll_once plain in_memory refused_turn fresh).1
unfolding decode decode_value converted
arrives_again = record {
  polled = refl;
  no_error = refl;
  decoded = refl;
  valid = refl;
  keyed = refl;
}

is_new : (seen "event" fresh.store).0 ≡ false
unfolding seen
is_new = refl

recalls : (seen "event" (remember "event" (seen "event" fresh.store).1)).0 ≡ true
unfolding seen remember set_key move_to_end without evict
recalls = refl

poll_once_twice_example :
    handlings
      (poll_once plain in_memory good_turn
        (poll_once plain in_memory refused_turn fresh).1).1.effects
    ≡ "event" ∷ []
poll_once_twice_example =
    poll_once_twice plain in_memory refused_turn good_turn message message "event" "event" "event"
      fresh arrives_refused is_new refl recalls arrives_again
