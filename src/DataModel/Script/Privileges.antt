-- ===== src/DataModel/Script/Privileges.antt =====
-- The privileges that the migration grants to the application role.
use trustlist_core.Base.{
  String, Bool, false, not, ◌&&◌, ◌||◌, List, [], ◌∷◌, ◌++◌, map, String-eq, ◌==◌, ◌≡◌, refl, ap,
  ◌∙◌, arith,
}
use trustlist_core.Base.Lists.{any, contains, any-append, contains-keep, contains_agrees}
use trustlist_core.DataModel.Ddl.{Privilege, select, insert, update, delete, Operation, grant}
use trustlist_core.DataModel.Models.{metadata, append_only}
use trustlist_core.DataModel.Migration.{upgrade, app_role, append_only_tables, all_tables, mutable}
use trustlist_core.DataModel.Script.{same_privilege, grants, granted}

-- A grant on each of the relations.
granted-map :
    (p : Privilege) (n role to : String) (ps : List Privilege) (relations : List String)
    → granted p n role (map (λ r. grant ps r to) relations)
      ≡ (any (same_privilege p) ps && contains n relations && (to == role))
granted-map p n role to ps [] = ground arith
granted-map p n role to ps (r ∷ rs) = ground (arith, granted-map p n role to ps rs)

and_agrees : {a b c d : Bool} → a ≡ b → c ≡ d → (a && c) ≡ (b && d)
and_agrees h k = λ i. h i && k i

or_agrees : {a b c d : Bool} → a ≡ b → c ≡ d → (a || c) ≡ (b || d)
or_agrees h k = λ i. h i || k i

-- The names of the declared tables.
abbrev pub declared : List String
declared = map (λ m. m.tablename) metadata

abbrev grant_all : List Privilege → List String → List Operation
grant_all ps relations = map (λ r. grant ps r app_role) relations

-- The three groups of grants that the migration ends with.
abbrev on_tables : List Operation
on_tables = grant_all (select ∷ insert ∷ []) all_tables

abbrev on_mutable : List Operation
on_mutable = grant_all (update ∷ delete ∷ []) mutable

abbrev on_view : List Operation
on_view = grant_all (select ∷ []) ("evidence_current" ∷ [])

granted-upgrade :
    (p : Privilege) (n role : String)
    → granted p n role upgrade
      ≡ (granted p n role on_tables || (granted p n role on_mutable || granted p n role on_view))
granted-upgrade p n role =
    any-append (grants p n role) on_tables (on_mutable ++ on_view)
    ∙ ap (λ b. granted p n role on_tables || b) (any-append (grants p n role) on_mutable on_view)

same_tables : (n : String) → contains n all_tables ≡ contains n declared
same_tables n = contains_agrees n all_tables declared refl refl

same_append_only : (n : String) → contains n append_only_tables ≡ contains n append_only
same_append_only n = contains_agrees n append_only_tables append_only refl refl

same_mutable :
    (n : String) → contains n mutable ≡ (contains n declared && not (contains n append_only))
same_mutable n =
    contains-keep n (λ t. not (contains t append_only_tables)) all_tables
    ∙ and_agrees (same_tables n) (ap not (same_append_only n))

-- What is granted, by the lists that the three groups range over.
granted_lem :
    (p : Privilege) (n role : String)
    → granted p n role upgrade ≡ (
        (any (same_privilege p) (select ∷ insert ∷ []) && contains n declared && (app_role == role))
        || ((any (same_privilege p) (update ∷ delete ∷ [])
              && (contains n declared && not (contains n append_only))
              && (app_role == role))
            || (any (same_privilege p) (select ∷ [])
                && contains n ("evidence_current" ∷ [])
                && (app_role == role))))
granted_lem p n role =
    granted-upgrade p n role
    ∙ or_agrees
        (granted-map p n role app_role (select ∷ insert ∷ []) all_tables
          ∙ ap (λ b. any (same_privilege p) (select ∷ insert ∷ []) && b && (app_role == role))
              (same_tables n))
        (or_agrees
          (granted-map p n role app_role (update ∷ delete ∷ []) mutable
            ∙ ap (λ b. any (same_privilege p) (update ∷ delete ∷ []) && b && (app_role == role))
                (same_mutable n))
          (granted-map p n role app_role (select ∷ []) ("evidence_current" ∷ [])))

-- What the models and the discipline of the append-only tables allow the application role.
abbrev pub allowed : Privilege → String → Bool
allowed select n = contains n declared || ("evidence_current" == n)
allowed insert n = contains n declared
allowed update n = contains n declared && not (contains n append_only)
allowed delete n = contains n declared && not (contains n append_only)

read_grants : (t v b : Bool) → ((t && b) || ((v || false) && b)) ≡ ((t || v) && b)
read_grants t v b = ground arith

or_false : (b : Bool) → (b || false) ≡ b
or_false b = ground arith

-- For every privilege, relation and role: the migration grants it exactly when the role is the
-- application role and either the relation is a declared table, and for UPDATE and DELETE one that the
-- models do not list as append-only, or SELECT is granted on the view `evidence_current`.
pub privileges_lem :
    (p : Privilege) (n role : String)
    → granted p n role upgrade ≡ (allowed p n && (app_role == role))
privileges_lem select n role =
    granted_lem select n role
    ∙ read_grants (contains n declared) ("evidence_current" == n) (app_role == role)
privileges_lem insert n role =
    granted_lem insert n role ∙ or_false (contains n declared && (app_role == role))
privileges_lem update n role =
    granted_lem update n role
    ∙ or_false ((contains n declared && not (contains n append_only)) && (app_role == role))
privileges_lem delete n role =
    granted_lem delete n role
    ∙ or_false ((contains n declared && not (contains n append_only)) && (app_role == role))
