-- ===== src/EventBus/Dedup/Examples.antt =====
-- The theorems of this directory at a store of two keys that is full.
use trustlist_core.Base.{◌≡◌, true, [], ◌∷◌, arith}
use trustlist_core.EventBus.Dedup.{InMemoryDedupStore, seen, remember}
use trustlist_core.EventBus.Dedup.Window.{remember_all, seen-remember_all}

abbrev full : InMemoryDedupStore
full = record { capacity = 2; keys = "a" ∷ "b" ∷ [] }

seen-remember_all_example : (seen "c" (remember_all ("d" ∷ []) (remember "c" full))).0 ≡ true
seen-remember_all_example = seen-remember_all "c" ("d" ∷ []) full (omega arith)
