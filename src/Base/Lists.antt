-- ===== src/Base/Lists.antt =====
-- Lists over the native numbers, and Python's sets as lists that are read by `contains` only.
use Prim.Native.Nat.{ℕ, suc, ◌+◌}
use mathlib.Core.Path.{◌≡◌, refl, sym, ap, ◌∙◌, subst}
use mathlib.Core.Logic.{◌⊎◌, inl, inr}
use mathlib.Core.Bool.{Bool, true, false, not, ◌&&◌, ◌||◌}
use mathlib.Core.List.{List, [], ◌∷◌, ◌++◌, map}
use native.Mathlib.Omega.{arith}
use trustlist_core.Base.Tests.{if◌then◌else◌, Bool-cases}
use trustlist_core.Base.Classes.{Eq, ◌==◌, ==_iff}

module _ {ℓ} {A : Type ℓ} where
  abbrev pub length : List A → ℕ
  length [] = 0
  length (x ∷ xs) = suc (length xs)

  abbrev pub any : (A → Bool) → List A → Bool
  any p [] = false
  any p (x ∷ xs) = p x || any p xs

  abbrev pub every : (A → Bool) → List A → Bool
  every p [] = true
  every p (x ∷ xs) = p x && every p xs

  -- `[x for x in xs if p(x)]`
  abbrev pub keep : (A → Bool) → List A → List A
  keep p [] = []
  keep p (x ∷ xs) = if p x then x ∷ keep p xs else keep p xs

  abbrev pub All {κ} : (A → Type κ) → List A → Type κ
  All P [] = Unit
  All P (x ∷ xs) = P x × All P xs

  -- The members of the lists, one list after the other.
  abbrev pub join : List (List A) → List A
  join [] = []
  join (xs ∷ xss) = xs ++ join xss

  pub any-append : (p : A → Bool) (xs ys : List A) → any p (xs ++ ys) ≡ (any p xs || any p ys)
  any-append p [] ys = refl
  any-append p (x ∷ xs) ys = ground (arith, any-append p xs ys)

  pub length-append : (xs ys : List A) → length (xs ++ ys) ≡ length xs + length ys
  length-append [] ys = omega arith
  length-append (x ∷ xs) ys = omega (arith, length-append xs ys)

module _ {ℓ} {A : Type ℓ} ⦃e : Eq A⦄ where
  -- `a in xs`
  abbrev pub contains : A → List A → Bool
  contains a [] = false
  contains a (x ∷ xs) = (x == a) || contains a xs

  -- `s.add(a)`
  abbrev pub add : A → List A → List A
  add a s = if contains a s then s else a ∷ s

  -- `s.update(xs)`
  abbrev pub update : List A → List A → List A
  update s [] = s
  update s (x ∷ xs) = update (add x s) xs

  pub contains-add : (a b : A) (s : List A) → contains b (add a s) ≡ ((a == b) || contains b s)
  contains-add a b s = ground (arith, ==_iff a b)

  pub contains-update :
      (b : A) (s xs : List A) → contains b (update s xs) ≡ (contains b s || contains b xs)
  contains-update b s [] = ground arith
  contains-update b s (x ∷ xs) = ground (arith, contains-update b (add x s) xs, contains-add x b s)

  pub contains-append :
      (b : A) (xs ys : List A) → contains b (xs ++ ys) ≡ (contains b xs || contains b ys)
  contains-append b [] ys = refl
  contains-append b (x ∷ xs) ys = ground (arith, contains-append b xs ys)

  -- What no member of a list passes, a name that the list contains does not pass.
  pub any-contains :
      (a : A) (p : A → Bool) (xs : List A) → any p xs ≡ false → contains a xs ≡ true → p a ≡ false
  any-contains a p [] none_passes h = cc
  any-contains a p (x ∷ xs) none_passes h = elim (Bool-cases (x == a)) [
    | inl same ↦ subst (λ b. p b ≡ false) ((==_iff x a).0 same) (ground (arith, none_passes))
    | inr other ↦ any-contains a p xs (ground (arith, none_passes)) (ground (arith, other, h))
  ]

  pub contains-keep :
      (a : A) (p : A → Bool) (xs : List A) → contains a (keep p xs) ≡ (contains a xs && p a)
  contains-keep a p [] = refl
  contains-keep a p (x ∷ xs) = elim (Bool-cases (x == a)) [
    | inl same ↦ ground (arith, same, ap p ((==_iff x a).0 same), contains-keep a p xs)
    | inr other ↦ ground (arith, other, contains-keep a p xs)
  ]

  -- `set(xs) <= set(ys)`
  abbrev pub contains_all : List A → List A → Bool
  contains_all ys xs = not (any (λ x. not (contains x ys)) xs)

  pub contained :
      (a : A) (xs ys : List A)
      → contains_all ys xs ≡ true
      → contains a xs ≡ true
      → contains a ys ≡ true
  contained a xs ys within h =
      ground (arith, any-contains a (λ x. not (contains x ys)) xs (ground (arith, within)) h)

  -- Two lists with the same members.
  pub contains_agrees :
      (a : A) (xs ys : List A)
      → contains_all ys xs ≡ true
      → contains_all xs ys ≡ true
      → contains a xs ≡ contains a ys
  contains_agrees a xs ys there back =
      ground (arith, contained a xs ys there, contained a ys xs back)

module _ {A : Type 0} where
  abbrev pub IsIn : A → List A → Type 0
  IsIn a [] = ⊥
  IsIn a (x ∷ xs) = (a ≡ x) ⊎ IsIn a xs

  pub All-IsIn {κ} : (P : A → Type κ) (a : A) (xs : List A) → All P xs → IsIn a xs → P a
  All-IsIn P a [] every inside = absurd inside
  All-IsIn P a (x ∷ xs) (first, rest) (inl same) = subst P (sym same) first
  All-IsIn P a (x ∷ xs) (first, rest) (inr later) = All-IsIn P a xs rest later

  pub All_intro {κ} : (P : A → Type κ) (xs : List A) → ((a : A) → IsIn a xs → P a) → All P xs
  All_intro P [] holds = tt
  All_intro P (x ∷ xs) holds =
      (holds x (inl refl), All_intro P xs (λ a inside. holds a (inr inside)))

  pub All-keep_passes : (p : A → Bool) (xs : List A) → All (λ a. p a ≡ true) (keep p xs)
  All-keep_passes p [] = tt
  All-keep_passes p (x ∷ xs) = elim (Bool-cases (p x)) [
    | inl passes ↦ rw passes (passes, All-keep_passes p xs)
    | inr fails ↦ rw fails (All-keep_passes p xs)
  ]

  pub All-keep {κ} : (P : A → Type κ) (p : A → Bool) (xs : List A) → All P xs → All P (keep p xs)
  All-keep P p [] every = tt
  All-keep P p (x ∷ xs) (first, rest) = elim (Bool-cases (p x)) [
    | inl passes ↦ rw passes (first, All-keep P p xs rest)
    | inr fails ↦ rw fails (All-keep P p xs rest)
  ]

  -- What is kept was in the list, and passed.
  pub keep-IsIn :
      (p : A → Bool) (a : A) (xs : List A) → IsIn a (keep p xs) → IsIn a xs × (p a ≡ true)
  keep-IsIn p a [] inside = absurd inside
  keep-IsIn p a (x ∷ xs) inside =
      split (p x) refl inside
        (λ later. (inr (keep-IsIn p a xs later).0, (keep-IsIn p a xs later).1))
    where
      split :
          (b : Bool)
          → p x ≡ b
          → IsIn a (if b then x ∷ keep p xs else keep p xs)
          → (IsIn a (keep p xs) → IsIn a (x ∷ xs) × (p a ≡ true))
          → IsIn a (x ∷ xs) × (p a ≡ true)
      split true tested (inl same) in_rest = (inl same, ap p same ∙ tested)
      split true tested (inr later) in_rest = in_rest later
      split false tested later in_rest = in_rest later

  pub IsIn-keep : (p : A → Bool) (a : A) (xs : List A) → IsIn a xs → p a ≡ true → IsIn a (keep p xs)
  IsIn-keep p a [] inside passes = absurd inside
  IsIn-keep p a (x ∷ xs) inside passes =
      split (p x) refl inside (λ later. IsIn-keep p a xs later passes)
    where
      split :
          (b : Bool)
          → p x ≡ b
          → IsIn a (x ∷ xs)
          → (IsIn a xs → IsIn a (keep p xs))
          → IsIn a (if b then x ∷ keep p xs else keep p xs)
      split true tested (inl same) kept = inl same
      split true tested (inr later) kept = inr (kept later)
      split false tested (inl same) kept = ground (arith, passes, ap p same, tested)
      split false tested (inr later) kept = kept later

-- Two tests that agree on what `f` makes of a member.
pub any-map {ℓ κ} :
    {A : Type ℓ} {B : Type κ} (p : B → Bool) (q : A → Bool) (f : A → B) (xs : List A)
    → ((a : A) → p (f a) ≡ q a)
    → any p (map f xs) ≡ any q xs
any-map p q f [] agree = refl
any-map p q f (x ∷ xs) agree = ground (arith, agree x, any-map p q f xs agree)
