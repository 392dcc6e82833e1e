-- ===== src/Auth/Rbac/Resolve.antt =====
-- What the held roles confer: `RoleCatalogue.resolve_permissions` and `has_permission` against a
-- description that asks each held role on its own.
use trustlist_core.Base.{
  ◌≡◌, refl, String, Bool, true, false, not, ◌&&◌, ◌||◌, List, [], ◌∷◌, none, some, arith,
  if◌then◌else◌, String-eq, Bool-cases, Option-cases, inl, inr, ==_iff,
}
use trustlist_core.Base.Lists.{contains, any, update, contains-update}
use trustlist_core.Base.Dict.{lookup, has}
use trustlist_core.Base.Result.{ok, err, ◌>>=◌}
use trustlist_core.Auth.Errors.{unknown_role}
use trustlist_core.Auth.Rbac.Model.{Permission, Permission-eq}
use trustlist_core.Auth.Rbac.Framework.{
  RoleCatalogue, get, resolve_from, resolve_permissions, has_permission,
}

-- The role named `i` is active and carries the permission.
unfoldable pub confers : RoleCatalogue → Permission → String → Bool
confers c p i = elim (lookup i c.roles) [
  | none ↦ false
  | some role ↦ not role.feature_flagged_off && contains p role.permissions
]

unfoldable pub unknown : RoleCatalogue → String → Bool
unknown c i = not (has i c.roles)

resolve_from_lem :
    (c : RoleCatalogue) (p : Permission) (resolved : List Permission) (ids : List String)
    → (resolve_from c resolved ids >>= λ r. ok (contains p r)) ≡ (
        if any (unknown c) ids
        then err unknown_role
        else ok (contains p resolved || any (confers c p) ids))
unfolding resolve_from get confers unknown
resolve_from_lem c p resolved [] = ground arith
resolve_from_lem c p resolved (i ∷ ids) = elim (Option-cases (lookup i c.roles)) [
  | inl missing ↦ ground arith
  | inr (role, found) ↦ ground (
    arith,
    contains-update p resolved role.permissions,
    resolve_from_lem c p resolved ids,
    resolve_from_lem c p (update resolved role.permissions) ids,
  )
]

-- `has_permission` raises UnknownRole exactly when some held identifier is not in the catalogue;
-- otherwise it tells whether some held role that is not flagged off carries the permission.
pub has_permission_lem :
    (c : RoleCatalogue) (ids : List String) (p : Permission)
    → has_permission c ids p
      ≡ (if any (unknown c) ids then err unknown_role else ok (any (confers c p) ids))
unfolding has_permission resolve_permissions
has_permission_lem c ids p = resolve_from_lem c p [] ids

any-le-of_contains :
    (q : String → Bool) (i : String) (ids : List String)
    → q i ≡ true
    → contains i ids ≡ true
    → any q ids ≡ true
any-le-of_contains q i [] h k = cc
any-le-of_contains q i (j ∷ ids) h k = ground (arith, ==_iff j i, any-le-of_contains q i ids h)

any_mono :
    (q : String → Bool) (ids js : List String)
    → ((i : String) → contains i ids ≡ true → contains i js ≡ true)
    → any q ids ≡ true
    → any q js ≡ true
any_mono q [] js sub h = cc
any_mono q (i ∷ ids) js sub h = elim (Bool-cases (q i)) [
  | inl holds ↦ any-le-of_contains q i js holds (sub i (ground (arith, ==_iff i i)))
  | inr fails ↦ any_mono q ids js (λ j m. sub j (ground arith)) (ground arith)
]

any_cong :
    (q : String → Bool) (ids js : List String)
    → ((i : String) → contains i ids ≡ contains i js)
    → any q ids ≡ any q js
any_cong q ids js same = ground (
  arith,
  any_mono q ids js (λ i m. ground (arith, same i)),
  any_mono q js ids (λ i m. ground (arith, same i)),
)

-- The answer depends on the set of held roles only, not on the order in which a frozenset yields
-- them, nor on repetitions: this holds of the UnknownRole outcome too.
pub has_permission_order :
    (c : RoleCatalogue) (ids js : List String) (p : Permission)
    → ((i : String) → contains i ids ≡ contains i js)
    → has_permission c ids p ≡ has_permission c js p
has_permission_order c ids js p same =
    rw
      (
        has_permission_lem c ids p,
        has_permission_lem c js p,
        any_cong (unknown c) ids js same,
        any_cong (confers c p) ids js same,
      )
      refl
