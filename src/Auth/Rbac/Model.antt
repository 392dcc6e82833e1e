-- ===== src/Auth/Rbac/Model.antt =====
-- auth/trustlist_auth/rbac.py: the enums `Archetype` and `Permission`. A member of a `StrEnum` is
-- compared by its string value, and is found again from that value.
use trustlist_core.Base.{
  ◌≡◌, refl, ap, sym, ◌∙◌, String, Bool, true, ◌↔◌, List, [], ◌∷◌, Option, none, some, arith,
  if◌then◌else◌, Eq, ◌==◌, ==_iff, String-eq,
}
use trustlist_core.Base.Result.{Result, ok, or_raise}
use trustlist_core.Auth.Errors.{Error, unknown_permission, value_error}

pub data Archetype : Type 0 where
  operator brand_customer foundation_internal : Archetype

pub data Permission : Type 0 where
  team_manage account_manage : Permission
  domain_view evidence_submit attestation_deploy decision_contest : Permission
  audit_manage audit_view certification_generate data_source_connect : Permission
  governance_vote governance_observe adjudication_review platform_operate : Permission
  codebase_maintain : Permission

unfoldable pub archetype_value : Archetype → String
archetype_value operator = "operator"
archetype_value brand_customer = "brand_customer"
archetype_value foundation_internal = "foundation_internal"

unfoldable pub permission_value : Permission → String
permission_value team_manage = "team:manage"
permission_value account_manage = "account:manage"
permission_value domain_view = "domain:view"
permission_value evidence_submit = "evidence:submit"
permission_value attestation_deploy = "attestation:deploy"
permission_value decision_contest = "decision:contest"
permission_value audit_manage = "audit:manage"
permission_value audit_view = "audit:view"
permission_value certification_generate = "certification:generate"
permission_value data_source_connect = "data_source:connect"
permission_value governance_vote = "governance:vote"
permission_value governance_observe = "governance:observe"
permission_value adjudication_review = "adjudication:review"
permission_value platform_operate = "platform:operate"
permission_value codebase_maintain = "codebase:maintain"

-- The member of an enum with the value `s`, as `Enum.__call__` finds it.
unfoldable pub find_member : {A : Type 0} → (A → String) → String → List A → Option A
find_member value s [] = none
find_member value s (a ∷ members) = if value a == s then some a else find_member value s members

-- `for p in Permission`
abbrev pub permissions : List Permission
permissions =
    team_manage ∷ account_manage ∷ domain_view ∷ evidence_submit ∷ attestation_deploy
    ∷ decision_contest ∷ audit_manage ∷ audit_view ∷ certification_generate ∷ data_source_connect
    ∷ governance_vote ∷ governance_observe ∷ adjudication_review ∷ platform_operate
    ∷ codebase_maintain ∷ []

abbrev pub archetypes : List Archetype
archetypes = operator ∷ brand_customer ∷ foundation_internal ∷ []

-- `Archetype(s)`
unfoldable pub archetype_of : String → Result Error Archetype
unfolding find_member archetype_value
archetype_of s = or_raise (find_member archetype_value s archetypes) value_error

unfoldable pub validate_permission : String → Result Error Permission
unfolding find_member permission_value
validate_permission permission =
    or_raise (find_member permission_value permission permissions) unknown_permission

pub archetype_of-value : (a : Archetype) → archetype_of (archetype_value a) ≡ ok a
unfolding archetype_of
archetype_of-value operator = refl
archetype_of-value _ = refl

pub validate_permission-value : (p : Permission) → validate_permission (permission_value p) ≡ ok p
unfolding validate_permission
validate_permission-value team_manage = refl
validate_permission-value _ = refl

-- What is found has the value that was asked for.
find_member_sound :
    {A : Type 0} (value : A → String) (s : String) (a : A) (members : List A)
    → find_member value s members ≡ some a
    → value a ≡ s
unfolding find_member
find_member_sound value s a [] h = cc
find_member_sound value s a (b ∷ members) h =
    ground (arith, ==_iff (value b) s, find_member_sound value s a members)

or_raise-eq-ok : {A : Type 0} (o : Option A) (e : Error) {a : A} → or_raise o e ≡ ok a → o ≡ some a
or_raise-eq-ok none e h = cc
or_raise-eq-ok (some b) e h = ground arith

-- A string is accepted as a permission exactly when it is the value of that permission.
pub validate_permission_iff :
    (s : String) (p : Permission) → (validate_permission s ≡ ok p) ↔ (permission_value p ≡ s)
validate_permission_iff s p = (
  λ h.
      find_member_sound permission_value s p permissions
        (or_raise-eq-ok _ unknown_permission (unfold validate_permission in h)),
  λ e. ap validate_permission (sym e) ∙ validate_permission-value p,
)

ok_injective : {A : Type 0} {a b : A} → ◌≡◌ {A = Result Error A} (ok a) (ok b) → a ≡ b
ok_injective h = cc

-- `==` on members
unfoldable pub same_archetype : Archetype → Archetype → Bool
unfolding archetype_value
same_archetype a b = archetype_value a == archetype_value b

unfoldable pub same_permission : Permission → Permission → Bool
unfolding permission_value
same_permission p q = permission_value p == permission_value q

pub Archetype-eq_iff : (a b : Archetype) → (same_archetype a b ≡ true) ↔ (a ≡ b)
unfolding same_archetype
Archetype-eq_iff a b = (
  λ h. ok_injective (
      sym (archetype_of-value a)
      ∙ ap archetype_of ((==_iff (archetype_value a) (archetype_value b)).0 h)
      ∙ archetype_of-value b),
  λ e. (==_iff (archetype_value a) (archetype_value b)).1 (ap archetype_value e),
)

pub Permission-eq_iff : (p q : Permission) → (same_permission p q ≡ true) ↔ (p ≡ q)
unfolding same_permission
Permission-eq_iff p q = (
  λ h. ok_injective (
      sym (validate_permission-value p)
      ∙ ap validate_permission ((==_iff (permission_value p) (permission_value q)).0 h)
      ∙ validate_permission-value q),
  λ e. (==_iff (permission_value p) (permission_value q)).1 (ap permission_value e),
)

instance abbrev pub Archetype-eq : Eq Archetype
Archetype-eq = record { same = same_archetype; same_iff = Archetype-eq_iff }

instance abbrev pub Permission-eq : Eq Permission
Permission-eq = record { same = same_permission; same_iff = Permission-eq_iff }
