-- ===== src/Base/Dict.antt =====
-- A Python dict as an association list in insertion order, over keys with `==`.
use mathlib.Core.Path.{◌≡◌, refl}
use mathlib.Core.Bool.{Bool}
use mathlib.Core.Option.{Option, none, some}
use mathlib.Core.List.{List, [], ◌∷◌}
use native.Mathlib.Omega.{arith}
use trustlist_core.Base.Tests.{if◌then◌else◌, is_some, Bool-cases}
use mathlib.Core.Logic.{inl, inr}
use trustlist_core.Base.Classes.{Eq, ◌==◌, ==_iff}

abbrev pub Dict {ℓ κ} : Type ℓ → Type κ → Type (ℓ ⊔ κ)
Dict K V = List (K × V)

module _ {ℓ κ} {K : Type ℓ} {V : Type κ} ⦃e : Eq K⦄ where
  -- `d.get(k)`
  unfoldable pub lookup : K → Dict K V → Option V
  lookup k [] = none
  lookup k ((j, v) ∷ d) = if j == k then some v else lookup k d

  -- `k in d`
  abbrev pub has : K → Dict K V → Bool
  has k d = is_some (lookup k d)

  -- `d[k] = v`: a present key keeps its place, a new one goes last
  unfoldable pub insert : K → V → Dict K V → Dict K V
  insert k v [] = (k, v) ∷ []
  insert k v ((j, w) ∷ d) = if j == k then (j, v) ∷ d else (j, w) ∷ insert k v d

  -- A read after a write: the value written at its key, the old value at another.
  pub lookup-insert :
      (k j : K) (v : V) (d : Dict K V)
      → lookup j (insert k v d) ≡ (if k == j then some v else lookup j d)
  unfolding lookup insert
  lookup-insert k j v [] = refl
  lookup-insert k j v ((i, w) ∷ d) =
      ground (arith, ==_iff k j, ==_iff i k, ==_iff i j, lookup-insert k j v d)

  pub lookup-insert_self : (k : K) (v : V) (d : Dict K V) → lookup k (insert k v d) ≡ some v
  lookup-insert_self k v d = ground (arith, lookup-insert k k v d, ==_iff k k)

-- `{k: f(v) for k, v in d.items()}`, and a loop over `d.values()` that mutates each value
unfoldable pub map_values {ℓ κ μ} :
    {K : Type ℓ} {V : Type κ} {W : Type μ} → (V → W) → Dict K V → Dict K W
map_values f [] = []
map_values f ((k, v) ∷ d) = (k, f v) ∷ map_values f d

abbrev pub option_map {ℓ κ} : {A : Type ℓ} {B : Type κ} → (A → B) → Option A → Option B
option_map f none = none
option_map f (some a) = some (f a)

pub lookup-map_values {ℓ κ μ} :
    {K : Type ℓ} {V : Type κ} {W : Type μ} ⦃e : Eq K⦄ (f : V → W) (k : K) (d : Dict K V)
    → lookup k (map_values f d) ≡ option_map f (lookup k d)
unfolding lookup map_values
lookup-map_values f k [] = refl
lookup-map_values f k ((j, v) ∷ d) = ground (arith, lookup-map_values f k d)

pub option_map-eq-some {ℓ κ} :
    {A : Type ℓ} {B : Type κ} (f : A → B) (o : Option A) (b : B)
    → option_map f o ≡ some b
    → (a : A) × (o ≡ some a) × (b ≡ f a)
option_map-eq-some f none b h = cc
option_map-eq-some f (some a) b h = (a, refl, ground arith)

-- The last one of two writes at a key stays.
pub insert-insert {ℓ κ} :
    {K : Type ℓ} {V : Type κ} ⦃e : Eq K⦄ (k : K) (v w : V) (d : Dict K V)
    → insert k v (insert k w d) ≡ insert k v d
unfolding insert
insert-insert k v w [] = ground (arith, ==_iff k k)
insert-insert k v w ((j, u) ∷ d) = elim (Bool-cases (j == k)) [
  | inl same ↦ rw (same, same) refl
  | inr other ↦ rw (other, other) (λ i. (j, u) ∷ insert-insert k v w d i)
]

pub map_values-map_values {ℓ κ} :
    {K : Type ℓ} {V : Type κ} (f : V → V) (d : Dict K V)
    → ((v : V) → f (f v) ≡ f v)
    → map_values f (map_values f d) ≡ map_values f d
unfolding map_values
map_values-map_values f [] twice = refl
map_values-map_values f ((k, v) ∷ d) twice = λ i. (k, twice v i) ∷ map_values-map_values f d twice i
