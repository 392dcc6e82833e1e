-- ===== src/EventBus/Dedup/Window.antt =====
-- What `InMemoryDedupStore` holds: at most `capacity` keys, and every key that was recorded among the
-- last `capacity` ones.
use trustlist_core.Base.{
  ℕ, suc, ◌+◌, ◌≤◌, ◌<◌, String, ◌≡◌, ◌≢◌, refl, ap, subst, ◌∙◌, true, false, List, [], ◌∷◌, ◌++◌,
  inl, inr, arith, ltb, ◌==◌, ==_iff, String-eq, Bool-cases,
}
use trustlist_core.Base.Lists.{contains, contains-append, length, length-append}
use trustlist_core.EventBus.Dedup.{
  InMemoryDedupStore, without, move_to_end, set_key, evict, seen, remember,
}

append_nil : (xs : List String) → xs ++ [] ≡ xs
append_nil [] = refl
append_nil (x ∷ xs) = ap (λ l. x ∷ l) (append_nil xs)

append_assoc : (xs ys zs : List String) → (xs ++ ys) ++ zs ≡ xs ++ (ys ++ zs)
append_assoc [] ys zs = refl
append_assoc (x ∷ xs) ys zs = ap (λ l. x ∷ l) (append_assoc xs ys zs)

length-evict : (capacity : ℕ) (keys : List String) → length (evict capacity keys) ≤ capacity
unfolding evict
length-evict capacity [] = omega arith
length-evict capacity (k ∷ keys) = ground (arith, length-evict capacity keys)

length-without : (k : String) (keys : List String) → length (without k keys) ≤ length keys
unfolding without
length-without k [] = omega arith
length-without k (j ∷ keys) = ground (arith, length-without k keys)

-- `k` has at most `n` younger keys.
abbrev Within : String → ℕ → List String → Type 0
Within k n keys =
    (older : List String) × (younger : List String) × (keys ≡ older ++ k ∷ younger)
    × (length younger ≤ n)

without-append :
    (k : String) (xs ys : List String) → without k (xs ++ ys) ≡ without k xs ++ without k ys
unfolding without
without-append k [] ys = refl
without-append k (x ∷ xs) ys = ground (arith, without-append k xs ys)

-- Evicting the oldest keys spares one that has room with its younger keys.
evict-Within :
    (capacity n : ℕ) (k : String) (older younger : List String)
    → suc (length younger) ≤ capacity
    → length younger ≤ n
    → Within k n (evict capacity (older ++ k ∷ younger))
unfolding evict
evict-Within capacity n k [] younger room few = ([], younger, ground arith, few)
evict-Within capacity n k (j ∷ older) younger room few =
    elim (Bool-cases (ltb capacity (length (j ∷ older ++ k ∷ younger)))) [
      | inl full ↦ rw full (evict-Within capacity n k older younger room few)
      | inr fits ↦ rw fits (j ∷ older, younger, refl, few)
    ]

without-set_key : (k : String) (keys : List String) → without k (set_key k keys) ≡ without k keys
unfolding without set_key
without-set_key k keys = elim (Bool-cases (contains k keys)) [
  | inl known ↦ rw known refl
  | inr new ↦
      rw new
        (without-append k keys (k ∷ []) ∙ rw ((==_iff k k).1 refl) (append_nil (without k keys)))
]

-- Whatever was there, the recorded key is the youngest.
remember-Within_self :
    (k : String) (s : InMemoryDedupStore) → 1 ≤ s.capacity → Within k 0 (remember k s).keys
unfolding remember move_to_end
remember-Within_self k s room =
    evict-Within s.capacity 0 k (without k (set_key k s.keys)) [] room (omega arith)

-- After `move_to_end` of another key, `k` has at most one younger key more.
Within-move :
    (j k : String) (n : ℕ) (keys : List String)
    → j ≢ k
    → Within k n keys
    → Within k (suc n) (move_to_end j (set_key j keys))
unfolding without move_to_end
Within-move j k n keys other (older, younger, shape, few) =
    let differ : (k == j) ≡ false = ground (arith, ==_iff k j) in
    (
      without j older,
      without j younger ++ j ∷ [],
      rw (without-set_key j keys, shape, without-append j older (k ∷ younger), differ)
          (append_assoc (without j older) (k ∷ without j younger) (j ∷ [])),
      ground (arith, length-append (without j younger) (j ∷ []), length-without j younger),
    )

remember-Within :
    (j k : String) (n : ℕ) (s : InMemoryDedupStore)
    → suc (suc n) ≤ s.capacity
    → Within k n s.keys
    → Within k (suc n) (remember j s).keys
unfolding remember move_to_end
remember-Within j k n s room within = elim (Bool-cases (j == k)) [
  | inl same ↦
      subst (λ i. Within i (suc n) (evict s.capacity (without j (set_key j s.keys) ++ j ∷ [])))
        ((==_iff j k).0 same)
        (evict-Within s.capacity (suc n) j (without j (set_key j s.keys)) [] (omega arith)
          (omega arith))
  | inr other ↦
      let (older, younger, shape, few) =
        Within-move j k n s.keys (λ e. absurd (ground (arith, ==_iff j k))) within in
      rw shape (evict-Within s.capacity (suc n) k older younger (omega arith) few)
]

-- The store after the keys of the list have been recorded, the first one first.
abbrev pub remember_all : List String → InMemoryDedupStore → InMemoryDedupStore
remember_all [] s = s
remember_all (j ∷ js) s = remember_all js (remember j s)

remember-capacity : (k : String) (s : InMemoryDedupStore) → (remember k s).capacity ≡ s.capacity
unfolding remember
remember-capacity k s = refl

remember_all-Within :
    (k : String) (n : ℕ) (js : List String) (s : InMemoryDedupStore)
    → suc (n + length js) ≤ s.capacity
    → Within k n s.keys
    → Within k (n + length js) (remember_all js s).keys
remember_all-Within k n [] s room (older, younger, shape, few) =
    (older, younger, shape, omega (arith, few))
remember_all-Within k n (j ∷ js) s room within =
    subst (λ m. Within k m (remember_all js (remember j s)).keys) (omega arith)
      (remember_all-Within k (suc n) js (remember j s) (rw remember-capacity (omega arith))
        (remember-Within j k n s (omega arith) within))

Within-contains :
    (k : String) (n : ℕ) (keys : List String) → Within k n keys → contains k keys ≡ true
Within-contains k n keys (older, younger, shape, few) =
    rw shape (ground (arith, contains-append k older (k ∷ younger), ==_iff k k))

-- A key that was recorded is still seen after fewer further records than the capacity.
pub seen-remember_all :
    (k : String) (js : List String) (s : InMemoryDedupStore)
    → length js < s.capacity
    → (seen k (remember_all js (remember k s))).0 ≡ true
unfolding seen
seen-remember_all k js s room =
    let found = Within-contains k (length js) _ (
      subst (λ m. Within k m (remember_all js (remember k s)).keys) (omega arith)
        (remember_all-Within k 0 js (remember k s) (rw remember-capacity (omega arith))
          (remember-Within_self k s (omega arith)))) in
    rw found refl

-- After a record the store holds at most `capacity` keys, whatever it held before.
pub length-remember :
    (k : String) (s : InMemoryDedupStore) → length (remember k s).keys ≤ s.capacity
unfolding remember
length-remember k s = length-evict s.capacity (move_to_end k (set_key k s.keys))
