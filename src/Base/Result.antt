-- ===== src/Base/Result.antt =====
-- A computation that may raise: a value, or the exception. `E` lists the exceptions.
use mathlib.Core.Path.{◌≡◌, refl, ap}
use mathlib.Core.Bool.{Bool, true, false}
use mathlib.Core.Option.{Option, none, some}

pub data Result {ℓ κ} (E : Type ℓ) (A : Type κ) : Type (ℓ ⊔ κ) where
  err : E → Result E A
  ok : A → Result E A

module _ {ℓ κ} {E : Type ℓ} {A : Type κ} where
  -- `d[k]` and the like, that raise for a missing value
  abbrev pub or_raise : Option A → E → Result E A
  or_raise (some a) raised = ok a
  or_raise none raised = err raised

  -- The call returned.
  abbrev pub IsOk : Result E A → Type 0
  IsOk (err raised) = ⊥
  IsOk (ok a) = Unit

  -- The value of a call that returned.
  abbrev pub value_of : (r : Result E A) → IsOk r → A
  value_of (err raised) returned = absurd returned
  value_of (ok a) returned = a

-- `if b: raise e`
abbrev pub raise_if {ℓ} : {E : Type ℓ} → Bool → E → Result E (Unit {0})
raise_if false raised = ok tt
raise_if true raised = err raised

module _ {ℓ κ μ} {E : Type ℓ} {A : Type κ} {B : Type μ} where
  infixl 5 ◌>>=◌
  abbrev pub ◌>>=◌ : Result E A → (A → Result E B) → Result E B
  err raised >>= rest = err raised
  ok value >>= rest = rest value

infixl 5 ◌>>◌
abbrev pub ◌>>◌ {ℓ κ} : {E : Type ℓ} {B : Type κ} → Result E (Unit {0}) → Result E B → Result E B
first >> rest = first >>= λ _. rest

-- The value of a call that returned, or another one.
abbrev pub value_or {ℓ κ} : {E : Type ℓ} {A : Type κ} → A → Result E A → A
value_or other (err raised) = other
value_or other (ok a) = a

pub ok_injective {ℓ κ} :
    {E : Type ℓ} {A : Type κ} {a b : A} → ◌≡◌ {A = Result E A} (ok a) (ok b) → a ≡ b
ok_injective {a} same = ap (value_or a) same

pub or_raise-ok {ℓ κ} :
    {E : Type ℓ} {A : Type κ} (o : Option A) (raised : E) (a : A)
    → or_raise o raised ≡ ok a
    → o ≡ some a
or_raise-ok none raised a returned = cc
or_raise-ok (some b) raised a returned = ap some (ok_injective returned)

-- Two calls in a row that return: the first one returned a value, and the second on that value.
pub split_ok {ℓ κ μ} :
    {E : Type ℓ} {A : Type κ} {B : Type μ} (first : Result E A) (second : A → Result E B) (b : B)
    → (first >>= second) ≡ ok b
    → (a : A) × (first ≡ ok a) × (second a ≡ ok b)
split_ok (ok a) second b returned = (a, refl, returned)
split_ok (err raised) second b returned = cc
