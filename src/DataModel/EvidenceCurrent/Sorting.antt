-- ===== src/DataModel/EvidenceCurrent/Sorting.antt =====
-- The orders of SQL's ORDER BY, and a sort by one of them.
use trustlist_core.Base.{
  ℕ, Bool, true, false, not, ◌&&◌, ◌||◌, List, [], ◌∷◌, ◌≡◌, ◌⊎◌, inl, inr, subst, arith, leb,
  if◌then◌else◌, Bool-cases,
}
use trustlist_core.Base.Lists.{All, IsIn}

pub record Order (A : Type 0) : Type 0 where
  pub le : A → A → Bool
  pub le_total : (a b : A) → le a b ≡ false → le b a ≡ true
  pub le_trans : (a b c : A) → le a b ≡ true → le b c ≡ true → le a c ≡ true

pub leb_total : (a b : ℕ) → leb a b ≡ false → leb b a ≡ true
leb_total a b h = ground arith

pub leb_trans : (a b c : ℕ) → leb a b ≡ true → leb b c ≡ true → leb a c ≡ true
leb_trans a b c h k = ground arith

abbrev pub ascending : Order ℕ
ascending = record { le = leb; le_total = leb_total; le_trans = leb_trans }

-- `DESC`
abbrev pub descending : {A : Type 0} → Order A → Order A
descending o = record {
  le = λ a b. o.le b a;
  le_total = λ a b h. o.le_total b a h;
  le_trans = λ a b c h k. o.le_trans c b a k h;
}

abbrev pub by : {A B : Type 0} → (A → B) → Order B → Order A
by f o = record {
  le = λ a b. o.le (f a) (f b);
  le_total = λ a b. o.le_total (f a) (f b);
  le_trans = λ a b c. o.le_trans (f a) (f b) (f c);
}

module _ {A : Type 0} (o p : Order A) where
  abbrev pub both : A → A → Bool
  both a b = o.le a b && (not (o.le b a) || p.le a b)

  pub both_total : (a b : A) → both a b ≡ false → both b a ≡ true
  both_total a b h = ground (arith, h, o.le_total a b, o.le_total b a, p.le_total a b)

  pub both_trans : (a b c : A) → both a b ≡ true → both b c ≡ true → both a c ≡ true
  both_trans a b c h k =
      ground (arith, h, k, o.le_trans a b c, o.le_trans b c a, o.le_trans c a b, p.le_trans a b c)

  -- `o, p`: the rows that `o` does not tell apart are ordered by `p`.
  abbrev pub then_by : Order A
  then_by = record { le = both; le_total = both_total; le_trans = both_trans }

module _ {A : Type 0} (o : Order A) where
  unfoldable pub insert_by : A → List A → List A
  insert_by a [] = a ∷ []
  insert_by a (x ∷ xs) = if o.le a x then a ∷ x ∷ xs else x ∷ insert_by a xs

  unfoldable pub order_by : List A → List A
  order_by [] = []
  order_by (x ∷ xs) = insert_by x (order_by xs)

  -- Each member is before all that follow it.
  abbrev pub Sorted : List A → Type 0
  Sorted [] = Unit
  Sorted (x ∷ xs) = All (λ y. o.le x y ≡ true) xs × Sorted xs

  insert_by-IsIn : (a x : A) (xs : List A) → IsIn a (insert_by x xs) → (a ≡ x) ⊎ IsIn a xs
  unfolding insert_by
  insert_by-IsIn a x [] inside = inside
  insert_by-IsIn a x (y ∷ ys) inside = split (o.le x y) inside (insert_by-IsIn a x ys)
    where
      split :
          (b : Bool)
          → IsIn a (if b then x ∷ y ∷ ys else y ∷ insert_by x ys)
          → (IsIn a (insert_by x ys) → (a ≡ x) ⊎ IsIn a ys)
          → (a ≡ x) ⊎ IsIn a (y ∷ ys)
      split true here rest = here
      split false (inl same) rest = inr (inl same)
      split false (inr later) rest = elim (rest later) [ inl same ↦ inl same | inr h ↦ inr (inr h) ]

  IsIn-insert_by : (a x : A) (xs : List A) → (a ≡ x) ⊎ IsIn a xs → IsIn a (insert_by x xs)
  unfolding insert_by
  IsIn-insert_by a x [] inside = inside
  IsIn-insert_by a x (y ∷ ys) inside = split (o.le x y) inside (IsIn-insert_by a x ys)
    where
      split :
          (b : Bool)
          → (a ≡ x) ⊎ IsIn a (y ∷ ys)
          → ((a ≡ x) ⊎ IsIn a ys → IsIn a (insert_by x ys))
          → IsIn a (if b then x ∷ y ∷ ys else y ∷ insert_by x ys)
      split true here rest = here
      split false (inl same) rest = inr (rest (inl same))
      split false (inr (inl same)) rest = inl same
      split false (inr (inr later)) rest = inr (rest (inr later))

  -- A sort keeps the members.
  pub order_by-IsIn : (a : A) (xs : List A) → IsIn a (order_by xs) → IsIn a xs
  unfolding order_by
  order_by-IsIn a [] inside = inside
  order_by-IsIn a (x ∷ xs) inside = elim (insert_by-IsIn a x (order_by xs) inside) [
    | inl same ↦ inl same
    | inr later ↦ inr (order_by-IsIn a xs later)
  ]

  pub IsIn-order_by : (a : A) (xs : List A) → IsIn a xs → IsIn a (order_by xs)
  unfolding order_by
  IsIn-order_by a [] inside = inside
  IsIn-order_by a (x ∷ xs) (inl same) = IsIn-insert_by a x (order_by xs) (inl same)
  IsIn-order_by a (x ∷ xs) (inr later) =
      IsIn-insert_by a x (order_by xs) (inr (IsIn-order_by a xs later))

  All-insert_by : (P : A → Type 0) (x : A) (xs : List A) → P x → All P xs → All P (insert_by x xs)
  unfolding insert_by
  All-insert_by P x [] holds every = (holds, every)
  All-insert_by P x (y ∷ ys) holds (first, rest) = elim (Bool-cases (o.le x y)) [
    | inl before ↦ rw before (holds, (first, rest))
    | inr after ↦ rw after (first, All-insert_by P x ys holds rest)
  ]

  All-le_trans :
      (a b : A) (xs : List A)
      → o.le a b ≡ true
      → All (λ y. o.le b y ≡ true) xs
      → All (λ y. o.le a y ≡ true) xs
  All-le_trans a b [] before every = tt
  All-le_trans a b (x ∷ xs) before (first, rest) =
      (o.le_trans a b x before first, All-le_trans a b xs before rest)

  insert_by-Sorted : (x : A) (xs : List A) → Sorted xs → Sorted (insert_by x xs)
  unfolding insert_by
  insert_by-Sorted x [] sorted = (tt, tt)
  insert_by-Sorted x (y ∷ ys) (least, sorted) = elim (Bool-cases (o.le x y)) [
    | inl before ↦ rw before ((before, All-le_trans x y ys before least), (least, sorted))
    | inr after ↦ rw after (
      All-insert_by (λ z. o.le y z ≡ true) x ys (o.le_total x y after) least,
      insert_by-Sorted x ys sorted,
    )
  ]

  pub order_by-Sorted : (xs : List A) → Sorted (order_by xs)
  unfolding order_by
  order_by-Sorted [] = tt
  order_by-Sorted (x ∷ xs) = insert_by-Sorted x (order_by xs) (order_by-Sorted xs)

  le_refl : (a : A) → o.le a a ≡ true
  le_refl a = ground (arith, o.le_total a a)

  pub le_of_eq : (a b : A) → a ≡ b → o.le a b ≡ true
  le_of_eq a b same = subst (λ c. o.le a c ≡ true) same (le_refl a)
