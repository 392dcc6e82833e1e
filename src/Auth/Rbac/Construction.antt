-- ===== src/Auth/Rbac/Construction.antt =====
-- When the construction of a catalogue raises.
use trustlist_core.Base.{
  ◌≡◌, refl, String, Bool, true, ◌&&◌, List, [], ◌∷◌, arith, if◌then◌else◌, String-eq, ==_iff, ◌==◌,
}
use trustlist_core.Base.Dict.{Dict, insert}
use trustlist_core.Base.Result.{ok, err}
use trustlist_core.Auth.Errors.{value_error}
use trustlist_core.Auth.Rbac.Model.{Archetype, Archetype-eq}
use trustlist_core.Auth.Rbac.Framework.{Role, check_roles, new_catalogue, keyed, catalogue}

-- Every entry is keyed by the identifier of its role.
abbrev IsKeyed : Dict String Role → Type 0
IsKeyed [] = Unit
IsKeyed ((i, role) ∷ roles) = (role.identifier ≡ i) × IsKeyed roles

abbrev pub pinned : Archetype → Dict String Role → Bool
pinned a [] = true
pinned a ((i, role) ∷ roles) = (role.archetype == a) && pinned a roles

insert-IsKeyed :
    (role : Role) (d : Dict String Role) → IsKeyed d → IsKeyed (insert role.identifier role d)
unfolding insert
insert-IsKeyed role [] h = (refl, tt)
insert-IsKeyed role ((i, r) ∷ d) h =
    ground (arith, ==_iff i role.identifier, insert-IsKeyed role d h.1)

keyed-IsKeyed : (d : Dict String Role) (roles : List Role) → IsKeyed d → IsKeyed (keyed d roles)
unfolding keyed
keyed-IsKeyed d [] h = h
keyed-IsKeyed d (role ∷ roles) h =
    keyed-IsKeyed (insert role.identifier role d) roles (insert-IsKeyed role d h)

check_roles_lem :
    (a : Archetype) (d : Dict String Role)
    → IsKeyed d
    → check_roles a d ≡ (if pinned a d then ok tt else err value_error)
unfolding check_roles
check_roles_lem a [] h = refl
check_roles_lem a ((i, role) ∷ d) h =
    ground (arith, ==_iff role.identifier i, check_roles_lem a d h.1)

-- `_catalogue` raises ValueError exactly when a role that the comprehension keeps is pinned to
-- another archetype: the test on the keys never fails there.
pub catalogue_lem :
    (a : Archetype) (roles : List Role)
    → catalogue a roles ≡ (
        if pinned a (keyed [] roles)
        then ok (record { archetype = a; roles = keyed [] roles })
        else err value_error)
unfolding catalogue new_catalogue
catalogue_lem a roles =
    ground (arith, check_roles_lem a (keyed [] roles) (keyed-IsKeyed [] roles tt))
