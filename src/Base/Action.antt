-- ===== src/Base/Action.antt =====
-- A method that mutates an object and may raise. The state comes back beside the exception too,
-- since what was written before a raise stays written.
use mathlib.Core.Path.{◌≡◌, refl, sym, subst}
use mathlib.Core.Bool.{Bool, true, false}
use trustlist_core.Base.Tests.{if◌then◌else◌}
use trustlist_core.Base.Result.{Result, ok, err}

abbrev pub Action {ℓ κ μ} : Type ℓ → Type κ → Type μ → Type (ℓ ⊔ κ ⊔ μ)
Action E S A = S → Result E A × S

module _ {ℓ κ μ} {E : Type ℓ} {S : Type κ} {A : Type μ} where
  abbrev pub pure : A → Action E S A
  pure a s = (ok a, s)

  abbrev pub raise : E → Action E S A
  raise e s = (err e, s)

  abbrev pub lift : Result E A → Action E S A
  lift r s = (r, s)

  abbrev pub gets : (S → A) → Action E S A
  gets f s = (ok (f s), s)

abbrev pub modify {ℓ κ} : {E : Type ℓ} {S : Type κ} → (S → S) → Action E S (Unit {0})
modify f s = (ok tt, f s)

module _ {ℓ κ μ ν} {E : Type ℓ} {S : Type κ} {A : Type μ} {B : Type ν} where
  abbrev pub continue : (A → Action E S B) → Result E A × S → Result E B × S
  continue f (ok a, s) = f a s
  continue f (err e, s) = (err e, s)

  infixl 5 ◌>>=◌
  abbrev pub ◌>>=◌ : Action E S A → (A → Action E S B) → Action E S B
  ◌>>=◌ m f s = continue f (m s)

infixl 5 ◌>>◌
abbrev pub ◌>>◌ {ℓ κ μ ν} :
    {E : Type ℓ} {S : Type κ} {A : Type μ} {B : Type ν} → Action E S A → Action E S B → Action E S B
first >> rest = first >>= λ _. rest

-- The inversion of a second part that returned: the first one did.
pub continue-eq-ok {ℓ κ μ ν} :
    {E : Type ℓ} {S : Type κ} {A : Type μ} {B : Type ν} (rest : A → Action E S B) (r : Result E A)
    (s : S) {b : B}
    → (continue rest (r, s)).0 ≡ ok b
    → (a : A) × ((rest a s).0 ≡ ok b)
continue-eq-ok rest (ok a) s returned = (a, returned)
continue-eq-ok rest (err raised) s returned = cc

-- The second part runs on what the first one returned.
pub continue-ok {ℓ κ μ ν} :
    {E : Type ℓ} {S : Type κ} {A : Type μ} {B : Type ν} (rest : A → Action E S B)
    (m : Result E A × S) (a : A)
    → m.0 ≡ ok a
    → continue rest m ≡ rest a m.1
continue-ok rest (ok b, s) a returned = cc
continue-ok rest (err raised, s) a returned = cc

-- `m` keeps `P`, whether it returns or raises.
pub record Keeps {ℓ κ μ ρ} {E : Type ℓ} {S : Type κ} {A : Type μ} (P : S → Type ρ)
    (m : Action E S A) : Type (ℓ ⊔ κ ⊔ μ ⊔ ρ) where
  pub at : (s : S) → P s → P (m s).1

module _ {ℓ κ μ ν ρ} {E : Type ℓ} {S : Type κ} {A : Type μ} {B : Type ν} (P : S → Type ρ) where
  -- What holds after a first part that returned or raised, and is kept by the rest, holds at the end.
  pub continue_inv :
      (f : A → Action E S B) (r : Result E A) (s : S)
      → P s
      → ((a : A) → r ≡ ok a → P (f a s).1)
      → P (continue f (r, s)).1
  continue_inv f (ok a) s h step = step a refl
  continue_inv f (err e) s h step = h

  pub Keeps-bind :
      (m : Action E S A) (rest : A → Action E S B)
      → Keeps P m
      → ((a : A) → Keeps P (rest a))
      → Keeps P (m >>= rest)
  Keeps-bind m rest first_keeps rest_keeps = record {
    at = λ s before.
        let between = first_keeps.at s before in
        continue_inv rest (m s).0 (m s).1 between (λ a _. (rest_keeps a).at (m s).1 between);
  }

module _ {ℓ κ μ ρ} {E : Type ℓ} {S : Type κ} {A : Type μ} (P : S → Type ρ) where
  -- An action that leaves the state alone.
  pub Keeps-still : (m : Action E S A) → ((s : S) → (m s).1 ≡ s) → Keeps P m
  Keeps-still m still = record { at = λ s h. subst P (sym (still s)) h }

  pub Keeps-if :
      {yes no : Action E S A} (test : Bool)
      → Keeps P yes
      → Keeps P no
      → Keeps P (if test then yes else no)
  Keeps-if true keep_yes keep_no = keep_yes
  Keeps-if false keep_yes keep_no = keep_no
