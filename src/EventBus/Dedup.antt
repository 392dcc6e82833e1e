-- ===== src/EventBus/Dedup.antt =====
-- event-bus-sdk/trustlist_event_bus/consumer.py: the protocol `DedupStore` as an interface, and
-- `InMemoryDedupStore`. The `OrderedDict` is the list of its keys, the oldest first.
pub mod Window
pub mod Laws
mod Examples
use trustlist_core.Base.{
  ℕ, suc, String, ◌≡◌, Bool, true, false, List, [], ◌∷◌, ◌++◌, ◌⊎◌, if◌then◌else◌, ltb, ◌==◌,
  String-eq,
}
use trustlist_core.Base.Lists.{contains, length}
use trustlist_core.Base.Result.{Result, ok, err}
use trustlist_core.EventBus.Errors.{BusError, value_error}

-- The operations of a store over keys `K`; `seen` may refresh the key that it finds.
pub record DedupStore (K : Type 0) : Type 1 where
  pub Store : Type 0
  pub seen : K → Store → Bool × Store
  pub remember : K → Store → Store

-- What the consumer relies on: a store never claims to have seen a key that was not recorded.
pub record DedupLaws {K : Type 0} (d : DedupStore K) : Type 0 where
  pub seen-seen :
      (j k : K) (s : d.Store) → (d.seen j (d.seen k s).1).0 ≡ true → (d.seen j s).0 ≡ true
  pub seen-remember :
      (j k : K) (s : d.Store)
      → (d.seen j (d.remember k s)).0 ≡ true
      → (k ≡ j) ⊎ ((d.seen j s).0 ≡ true)

pub record InMemoryDedupStore : Type 0 where
  pub capacity : ℕ
  pub keys : List String

-- `__init__`
unfoldable pub new_store : ℕ → Result BusError InMemoryDedupStore
new_store capacity =
    if ltb capacity 1 then err value_error else ok (record { capacity = capacity; keys = [] })

-- `del`, on the keys of the dict
unfoldable pub without : String → List String → List String
without k [] = []
without k (j ∷ keys) = if j == k then without k keys else j ∷ without k keys

-- `OrderedDict.move_to_end(k)`
unfoldable pub move_to_end : String → List String → List String
unfolding without
move_to_end k keys = without k keys ++ k ∷ []

-- `d[k] = None`: a new key goes last, a present one keeps its place
unfoldable pub set_key : String → List String → List String
set_key k keys = if contains k keys then keys else keys ++ k ∷ []

-- the loop `while len(self._keys) > self._capacity: self._keys.popitem(last=False)`
unfoldable pub evict : ℕ → List String → List String
evict capacity [] = []
evict capacity (k ∷ keys) =
    let rest = evict capacity keys in if ltb capacity (length (k ∷ keys)) then rest else k ∷ keys

-- `seen`
unfoldable pub seen : String → InMemoryDedupStore → Bool × InMemoryDedupStore
unfolding move_to_end
seen k s =
    if contains k s.keys then (true, record s { keys = move_to_end k s.keys }) else (false, s)

-- `record`
unfoldable pub remember : String → InMemoryDedupStore → InMemoryDedupStore
unfolding move_to_end set_key evict
remember k s = record s { keys = evict s.capacity (move_to_end k (set_key k s.keys)) }

-- The LRU store as an implementation of the protocol.
abbrev pub in_memory : DedupStore String
in_memory = record { Store = InMemoryDedupStore; seen = seen; remember = remember }
