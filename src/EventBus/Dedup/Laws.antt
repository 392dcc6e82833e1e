-- ===== src/EventBus/Dedup/Laws.antt =====
-- The in-memory store keeps the laws that the consumer relies on.
use trustlist_core.Base.{ℕ, String, ◌≡◌, true, List, [], ◌∷◌, ◌⊎◌, arith, ==_iff, String-eq}
use trustlist_core.Base.Lists.{contains, contains-append}
use trustlist_core.EventBus.Dedup.{
  DedupLaws, InMemoryDedupStore, in_memory, without, move_to_end, set_key, evict, seen, remember,
}

contains-without :
    (j k : String) (keys : List String)
    → contains j (without k keys) ≡ true
    → contains j keys ≡ true
unfolding without
contains-without j k [] h = cc
contains-without j k (i ∷ keys) h = ground (arith, contains-without j k keys)

contains-evict :
    (j : String) (capacity : ℕ) (keys : List String)
    → contains j (evict capacity keys) ≡ true
    → contains j keys ≡ true
unfolding evict
contains-evict j capacity [] h = cc
contains-evict j capacity (i ∷ keys) h = ground (arith, contains-evict j capacity keys)

contains-move_to_end :
    (j k : String) (keys : List String)
    → contains j (move_to_end k keys) ≡ true
    → (k ≡ j) ⊎ (contains j keys ≡ true)
unfolding move_to_end
contains-move_to_end j k keys h =
    ground
      (arith, contains-append j (without k keys) (k ∷ []), contains-without j k keys, ==_iff k j)

contains-set_key :
    (j k : String) (keys : List String)
    → contains j (set_key k keys) ≡ true
    → (k ≡ j) ⊎ (contains j keys ≡ true)
unfolding set_key
contains-set_key j k keys h = ground (arith, contains-append j keys (k ∷ []), ==_iff k j)

seen-seen_lem :
    (j k : String) (s : InMemoryDedupStore) → (seen j (seen k s).1).0 ≡ true → (seen j s).0 ≡ true
unfolding seen
seen-seen_lem j k s h = ground (arith, contains-move_to_end j k s.keys, ==_iff k j)

seen-remember_lem :
    (j k : String) (s : InMemoryDedupStore)
    → (seen j (remember k s)).0 ≡ true
    → (k ≡ j) ⊎ ((seen j s).0 ≡ true)
unfolding seen remember
seen-remember_lem j k s h = ground (
  arith,
  contains-evict j s.capacity (move_to_end k (set_key k s.keys)),
  contains-move_to_end j k (set_key k s.keys),
  contains-set_key j k s.keys,
)

-- The in-memory store never claims to have seen a key that was not recorded: neither a look-up nor
-- a record makes it see a key that it did not see before, but for the recorded one.
pub in_memory-laws : DedupLaws in_memory
in_memory-laws = record { seen-seen = seen-seen_lem; seen-remember = seen-remember_lem }
