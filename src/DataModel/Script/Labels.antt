-- ===== src/DataModel/Script/Labels.antt =====
-- The enum types of the database against the authentication library, which binds its own strings to
-- columns of these types.
use trustlist_core.Base.{
  String, Option, none, some, List, [], ◌∷◌, map, String-eq, ◌≡◌, refl, sym, ◌∙◌, arith, is_some,
}
use trustlist_core.Base.Lists.{contains, contains_agrees}
use trustlist_core.Base.Dict.{Dict, lookup, insert}
use trustlist_core.Auth.Database.{event_type_value, event_types}
use trustlist_core.Auth.Rbac.Model.{archetype_value, archetypes, find_member, same_archetype}
use trustlist_core.Auth.Rbac.Framework.{has_role, keyed, catalogue, new_catalogue, check_roles}
use trustlist_core.Auth.Rbac.Catalogues.{foundation_internal_catalogue}
use trustlist_core.DataModel.Ddl.{SqlType, enumeration, Column, Table}
use trustlist_core.DataModel.Migration.{upgrade}
use trustlist_core.DataModel.Migration.Enums.{enum_type}
use trustlist_core.DataModel.Script.{tables, find}

abbrev type_labels : SqlType → List String
type_labels (enumeration name labels) = labels
type_labels _ = []

abbrev column_labels : Option Column → List String
column_labels none = []
column_labels (some c) = type_labels c.type

abbrev table_labels : String → Option Table → List String
table_labels column none = []
table_labels column (some t) = column_labels (find Column.name column t.columns)

-- The texts that a column of the migration admits by its enum type.
pub labels : String → String → List String
unfolding find
labels table column = table_labels column (find Table.name table (tables upgrade))

find_member-map :
    {A : Type 0} (value : A → String) (s : String) (members : List A)
    → is_some (find_member value s members) ≡ contains s (map value members)
unfolding find_member
find_member-map value s [] = refl
find_member-map value s (a ∷ members) = ground (arith, find_member-map value s members)

lookup-map :
    {V : Type 0} (s : String) (d : Dict String V)
    → is_some (lookup s d) ≡ contains s (map (λ (k, v). k) d)
unfolding lookup
lookup-map s [] = refl
lookup-map s ((k, v) ∷ d) = ground (arith, lookup-map s d)

governance_labels :
    (s : String)
    → contains s (labels "foundation_user_account_extension" "governance_role")
      ≡ has_role foundation_internal_catalogue s
unfolding enum_type labels has_role foundation_internal_catalogue catalogue keyed insert
    new_catalogue check_roles same_archetype archetype_value
governance_labels s =
    contains_agrees s (labels "foundation_user_account_extension" "governance_role")
      (map (λ (k, v). k) foundation_internal_catalogue.roles) refl refl
    ∙ sym (lookup-map s foundation_internal_catalogue.roles)

-- For every text: `auth_audit_event.event_type` admits it exactly when it is the value of an
-- `AuthEventType`, `user_account.archetype` and `user_role_assignment.account_archetype` exactly when
-- it is the value of an `Archetype`, and `foundation_user_account_extension.governance_role` exactly
-- when the Foundation-internal catalogue has the role.
pub labels_lem :
    (s : String)
    → (contains s (labels "auth_audit_event" "event_type")
        ≡ is_some (find_member event_type_value s event_types))
      × (contains s (labels "user_account" "archetype")
          ≡ is_some (find_member archetype_value s archetypes))
      × (contains s (labels "user_role_assignment" "account_archetype")
          ≡ is_some (find_member archetype_value s archetypes))
      × (contains s (labels "foundation_user_account_extension" "governance_role")
          ≡ has_role foundation_internal_catalogue s)
unfolding enum_type labels find event_type_value archetype_value
labels_lem s = (
  contains_agrees s (labels "auth_audit_event" "event_type") (map event_type_value event_types) refl
        refl
      ∙ sym (find_member-map event_type_value s event_types),
  contains_agrees s (labels "user_account" "archetype") (map archetype_value archetypes) refl refl
      ∙ sym (find_member-map archetype_value s archetypes),
  contains_agrees s (labels "user_role_assignment" "account_archetype")
        (map archetype_value archetypes) refl refl
      ∙ sym (find_member-map archetype_value s archetypes),
  governance_labels s,
)
