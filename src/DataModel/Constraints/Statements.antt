-- ===== src/DataModel/Constraints/Statements.antt =====
-- The INSERT statements of the authentication library against the constraints that the models declare.
use trustlist_core.Base.{
  ℕ, String, Bool, true, false, not, ◌&&◌, ◌||◌, Option, none, some, List, [], ◌∷◌, map, ◌==◌,
  String-eq, ℕ-eq, ◌≡◌, refl, arith, if◌then◌else◌,
}
use trustlist_core.Base.Lists.{any, any-map}
use trustlist_core.Base.Result.{ok, err}
use trustlist_core.Base.Dict.{lookup}
use trustlist_core.Auth.Rbac.Model.{
  Archetype, archetype_value, same_archetype, operator, brand_customer, foundation_internal,
  Archetype-eq,
}
use trustlist_core.Auth.Database.{
  Database, RoleAssignment, UserAccount, AuditEvent, has_key, has_account_of, references,
  customer_check, admissible, ColumnTypes, AuthEventType, event_type_value, reads, is_storable,
  event_admissible, login_success, refusal, insert_assignment, insert_audit_event,
}
use trustlist_core.DataModel.Ddl.{inet, text}
use trustlist_core.DataModel.Models.Enums.{user_archetype_enum, auth_audit_event_type_enum}
use trustlist_core.DataModel.Models.Declaration.{mapped}
use trustlist_core.DataModel.Models.Accounts.{user_role_assignment, auth_audit_event}
use trustlist_core.DataModel.Constraints.{
  Value, null, id, moment, string, Row, cell, same_value, is_null, matches, admits, document, takes,
  converts,
}

abbrev pub nullable_id : Option ℕ → Value
nullable_id none = null
nullable_id (some n) = id n

abbrev pub nullable_string : Option String → Value
nullable_string none = null
nullable_string (some s) = string s

abbrev pub account_row : UserAccount → Row
account_row a = ("user_id", id a.user_id) ∷ ("archetype", string (archetype_value a.archetype)) ∷ []

abbrev pub assignment_row : RoleAssignment → Row
assignment_row r =
    ("user_id", id r.user_id)
    ∷ ("account_archetype", string (archetype_value r.account_archetype))
    ∷ ("role", string r.role)
    ∷ ("granted_at", moment r.granted_at)
    ∷ ("granted_by_user_id", nullable_id r.granted_by_user_id)
    ∷ ("customer_id", nullable_id r.customer_id)
    ∷ []

abbrev pub event_row : AuditEvent → Row
event_row e =
    ("auth_audit_event_id", id e.event_id)
    ∷ ("user_id", nullable_id e.user_id)
    ∷ ("event_type", string (event_type_value e.event_type))
    ∷ ("occurred_at", moment e.occurred_at)
    ∷ ("ip_address_observed", nullable_string e.ip_address_observed)
    ∷ ("user_agent_observed", nullable_string e.user_agent_observed)
    ∷ ("event_details", document e.event_details)
    ∷ []

-- The rows of the database, by table.
abbrev pub rows_of : Database → String → List Row
rows_of db relation =
    if relation == "user_account"
    then map account_row db.accounts
    else if relation == "user_role_assignment"
    then map assignment_row db.assignments
    else if relation == "auth_audit_event"
    then map event_row db.audit_events
    else []

-- The CHECK `customer_id_required_for_brand_customer`: `(account_archetype = 'brand_customer' AND
-- customer_id IS NOT NULL) OR (account_archetype <> 'brand_customer' AND customer_id IS NULL)`
abbrev pub customer_condition : Row → Bool
customer_condition row =
    (same_value (cell "account_archetype" row) (string "brand_customer")
      && not (is_null (cell "customer_id" row)))
    || (not (same_value (cell "account_archetype" row) (string "brand_customer"))
        && is_null (cell "customer_id" row))

customer_by_archetype :
    (a : Archetype) (customer_id : Option ℕ)
    → (((archetype_value a == "brand_customer") && not (is_null (nullable_id customer_id)))
        || (not (archetype_value a == "brand_customer") && is_null (nullable_id customer_id)))
      ≡ customer_check a customer_id
unfolding archetype_value customer_check
customer_by_archetype operator none = refl
customer_by_archetype operator (some c) = refl
customer_by_archetype brand_customer none = refl
customer_by_archetype brand_customer (some c) = refl
customer_by_archetype foundation_internal none = refl
customer_by_archetype foundation_internal (some c) = refl

customer_condition_lem :
    (r : RoleAssignment)
    → customer_condition (assignment_row r) ≡ customer_check r.account_archetype r.customer_id
unfolding cell
customer_condition_lem r = customer_by_archetype r.account_archetype r.customer_id

keys_agree :
    (r : RoleAssignment) (assignments : List RoleAssignment)
    → any
        (λ s.
          matches
            ("user_id" ∷ "role" ∷ "granted_at" ∷ [])
            ("user_id" ∷ "role" ∷ "granted_at" ∷ [])
            s
            (assignment_row r))
        (map assignment_row assignments)
      ≡ any (has_key r.user_id r.role r.granted_at) assignments
unfolding cell has_key lookup
keys_agree r assignments =
    any-map _ (has_key r.user_id r.role r.granted_at) assignment_row assignments (λ s. ground arith)

archetypes_agree :
    (r : RoleAssignment) (accounts : List UserAccount)
    → any
        (λ s.
          matches
            ("user_id" ∷ "archetype" ∷ [])
            ("user_id" ∷ "account_archetype" ∷ [])
            s
            (assignment_row r))
        (map account_row accounts)
      ≡ has_account_of r.user_id r.account_archetype accounts
unfolding cell same_archetype lookup
archetypes_agree r accounts =
    any-map _ (λ a. (a.user_id == r.user_id) && same_archetype a.archetype r.account_archetype)
      account_row accounts (λ a. ground arith)

-- A nullable reference to an account.
account_reference :
    (o : Option ℕ) (accounts : List UserAccount)
    → ((is_null (nullable_id o) || false)
        || any
            (λ s. same_value (cell "user_id" s) (nullable_id o) && true)
            (map account_row accounts))
      ≡ references o accounts
unfolding cell lookup
account_reference none accounts = refl
account_reference (some u) accounts =
    any-map _ (λ a. a.user_id == u) account_row accounts (λ a. ground arith)

in_order_of_admissible :
    {k l g h a b c d : Bool}
    → k ≡ l
    → g ≡ h
    → a ≡ b
    → c ≡ d
    → (((not k && true) && (g && (a && true))) && c) ≡ (not l && b && h && d)
in_order_of_admissible same_keys same_grantor same_account same_check = ground arith

admits-assignment :
    (r : RoleAssignment) (db : Database)
    → (admits (mapped user_role_assignment) (rows_of db) (assignment_row r)
        && customer_condition (assignment_row r))
      ≡ admissible r db
unfolding admissible cell lookup
admits-assignment r db =
    in_order_of_admissible (keys_agree r db.assignments)
      (account_reference r.granted_by_user_id db.accounts) (archetypes_agree r db.accounts)
      (customer_condition_lem r)

events_agree :
    (e : AuditEvent) (events : List AuditEvent)
    → any
        (λ s. same_value (cell "auth_audit_event_id" s) (id e.event_id) && true)
        (map event_row events)
      ≡ any (λ f. f.event_id == e.event_id) events
unfolding cell lookup
events_agree e events =
    any-map _ (λ f. f.event_id == e.event_id) event_row events (λ f. ground arith)

both_agree : {k l g h : Bool} → k ≡ l → g ≡ h → ((not k && true) && (g && true)) ≡ (not l && h)
both_agree same_keys same_account = ground arith

admits-event :
    (e : AuditEvent) (db : Database)
    → admits (mapped auth_audit_event) (rows_of db) (event_row e) ≡ (
        not (any (λ f. f.event_id == e.event_id) db.audit_events)
        && references e.user_id db.accounts)
unfolding cell lookup
admits-event e db =
    both_agree (events_agree e db.audit_events) (account_reference e.user_id db.accounts)

nullable-takes :
    (types : ColumnTypes) (o : Option String)
    → (takes types inet (nullable_string o) ≡ reads types.is_inet o)
      × (takes types text (nullable_string o) ≡ reads types.is_text o)
nullable-takes types none = (refl, refl)
nullable-takes types (some s) = (refl, refl)

archetype-takes :
    (types : ColumnTypes) (a : Archetype)
    → takes types user_archetype_enum (string (archetype_value a)) ≡ true
unfolding archetype_value
archetype-takes types operator = refl
archetype-takes types brand_customer = refl
archetype-takes types foundation_internal = refl

event_type-takes :
    (types : ColumnTypes) (k : AuthEventType)
    → takes types auth_audit_event_type_enum (string (event_type_value k)) ≡ true
unfolding event_type_value
event_type-takes types login_success = refl
event_type-takes types _ = refl

take_role : {l c : Bool} → l ≡ true → (l && (c && true)) ≡ c
take_role label = ground arith

take_event :
    {l i j a b : Bool} (c : Bool)
    → l ≡ true
    → i ≡ j
    → a ≡ b
    → (l && (i && (a && (c && true)))) ≡ (j && b && c)
take_event c label address agent = ground arith

converts-assignment :
    (types : ColumnTypes) (r : RoleAssignment)
    → converts types (mapped user_role_assignment) (assignment_row r) ≡ types.is_text r.role
unfolding cell lookup
converts-assignment types r = take_role (archetype-takes types r.account_archetype)

converts-event :
    (types : ColumnTypes) (e : AuditEvent)
    → converts types (mapped auth_audit_event) (event_row e) ≡ is_storable e types
unfolding cell lookup is_storable
converts-event types e =
    take_event (types.is_jsonb e.event_details) (event_type-takes types e.event_type)
      (nullable-takes types e.ip_address_observed).0 (nullable-takes types e.user_agent_observed).1

inserted :
    {A : Type 0} {c d k l : Bool} (done : A) (failed : Bool → A)
    → c ≡ d
    → k ≡ l
    → (if d && l then done else failed d) ≡ (if c && k then done else failed c)
inserted done failed same_types same_keys = ground (arith, same_types, same_keys)

-- For every row and database: the INSERT of a role assignment succeeds exactly when the columns that the
-- model `user_role_assignment` declares take the values of the new row, the row violates no key and no
-- reference that it declares, and its CHECK holds; the INSERT of an audit event exactly when the columns
-- of `auth_audit_event` take its values and it violates none of its keys and references. Otherwise
-- nothing changes, and DataError is raised for a value that a column does not take, IntegrityError for
-- the rest.
pub insert_lem :
    (r : RoleAssignment) (e : AuditEvent) (db : Database)
    → (insert_assignment r db ≡ (
        if converts db.types (mapped user_role_assignment) (assignment_row r)
          && (admits (mapped user_role_assignment) (rows_of db) (assignment_row r)
              && customer_condition (assignment_row r))
        then (ok tt, record db { assignments = r ∷ db.assignments })
        else (
          err (refusal (converts db.types (mapped user_role_assignment) (assignment_row r))),
          db,
        )))
      × (insert_audit_event e db ≡ (
          if converts db.types (mapped auth_audit_event) (event_row e)
            && admits (mapped auth_audit_event) (rows_of db) (event_row e)
          then (ok tt, record db { audit_events = e ∷ db.audit_events })
          else (err (refusal (converts db.types (mapped auth_audit_event) (event_row e))), db)))
unfolding insert_assignment insert_audit_event event_admissible
insert_lem r e db = (
  inserted (ok tt, record db { assignments = r ∷ db.assignments }) (λ b. (err (refusal b), db))
      (converts-assignment db.types r) (admits-assignment r db),
  inserted (ok tt, record db { audit_events = e ∷ db.audit_events }) (λ b. (err (refusal b), db))
      (converts-event db.types e) (admits-event e db),
)
