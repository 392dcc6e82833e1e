-- ===== src/Auth/Database.antt =====
-- data-model/trustlist_data_model/models.py: the tables that the authentication library touches, with
-- the columns that it uses and the constraints that its statements can violate.
-- A UUID is a number, since it is only compared; a timestamp is a number of microseconds. The order
-- of a table's rows means nothing, and a new row goes first.
use trustlist_core.Base.{
  ℕ, String, Bool, true, not, ◌&&◌, List, [], ◌∷◌, Option, none, some, ◌==◌, String-eq, ℕ-eq,
  if◌then◌else◌, is_some,
}
use trustlist_core.Base.Lists.{any}
use trustlist_core.Base.Result.{ok, err}
use trustlist_core.Base.Action.{Action}
use trustlist_core.Auth.Errors.{Error, integrity_error, data_error}
use trustlist_core.Auth.Rbac.Model.{
  Archetype, operator, brand_customer, foundation_internal, Archetype-eq,
}

-- `UserAccount`: the two columns that foreign keys point at
pub record UserAccount : Type 0 where
  pub user_id : ℕ
  pub archetype : Archetype

-- `UserRoleAssignment`, which is also `RoleAssignment` of auth/trustlist_auth/role_store.py
pub record RoleAssignment : Type 0 where
  pub user_id : ℕ
  pub account_archetype : Archetype
  pub role : String
  pub granted_at : ℕ
  pub granted_by_user_id : Option ℕ
  pub revoked_at : Option ℕ
  pub customer_id : Option ℕ

pub data AuthEventType : Type 0 where
  login_success login_failure : AuthEventType
  mfa_challenge_issued mfa_challenge_success mfa_challenge_failure : AuthEventType
  password_change role_grant role_revoke account_disable session_revoke : AuthEventType

-- The value of a member, which is what the INSERT binds.
unfoldable pub event_type_value : AuthEventType → String
event_type_value login_success = "login_success"
event_type_value login_failure = "login_failure"
event_type_value mfa_challenge_issued = "mfa_challenge_issued"
event_type_value mfa_challenge_success = "mfa_challenge_success"
event_type_value mfa_challenge_failure = "mfa_challenge_failure"
event_type_value password_change = "password_change"
event_type_value role_grant = "role_grant"
event_type_value role_revoke = "role_revoke"
event_type_value account_disable = "account_disable"
event_type_value session_revoke = "session_revoke"

abbrev pub event_types : List AuthEventType
event_types =
    login_success ∷ login_failure ∷ mfa_challenge_issued ∷ mfa_challenge_success
    ∷ mfa_challenge_failure ∷ password_change ∷ role_grant ∷ role_revoke ∷ account_disable
    ∷ session_revoke ∷ []

-- The JSON values that an event's details hold.
pub data Detail : Type 0 where
  text : String → Detail
  uuid : ℕ → Detail
  flag : Bool → Detail
  null : Detail

-- `AuthAuditEvent`, which is also `AuditEvent` of auth/trustlist_auth/audit.py
pub record AuditEvent : Type 0 where
  pub event_id : ℕ
  pub event_type : AuthEventType
  pub occurred_at : ℕ
  pub user_id : Option ℕ
  pub ip_address_observed : Option String
  pub user_agent_observed : Option String
  pub event_details : List (String × Detail)

-- The texts that the database reads as a value of a column's type: PostgreSQL's INET, what is cast to
-- JSONB once `json.dumps` has written it, and TEXT, which holds no NUL.
pub record ColumnTypes : Type 0 where
  pub is_inet : String → Bool
  pub is_jsonb : List (String × Detail) → Bool
  pub is_text : String → Bool

pub record Database : Type 0 where
  pub types : ColumnTypes
  pub accounts : List UserAccount
  pub assignments : List RoleAssignment
  pub audit_events : List AuditEvent

abbrev pub has_account : ℕ → List UserAccount → Bool
has_account u accounts = any (λ a. a.user_id == u) accounts

-- The target of the composite foreign key `(user_id, account_archetype)`.
abbrev pub has_account_of : ℕ → Archetype → List UserAccount → Bool
has_account_of u archetype accounts =
    any (λ a. (a.user_id == u) && (a.archetype == archetype)) accounts

-- A nullable foreign key onto `user_account.user_id`.
abbrev pub references : Option ℕ → List UserAccount → Bool
references none accounts = true
references (some u) accounts = has_account u accounts

-- The CHECK `customer_id_required_for_brand_customer`
unfoldable pub customer_check : Archetype → Option ℕ → Bool
customer_check brand_customer customer_id = is_some customer_id
customer_check operator customer_id = not (is_some customer_id)
customer_check foundation_internal customer_id = not (is_some customer_id)

-- The primary key `(user_id, role, granted_at)`.
unfoldable pub has_key : ℕ → String → ℕ → RoleAssignment → Bool
has_key u role granted_at r = (r.user_id == u) && (r.role == role) && (r.granted_at == granted_at)

-- The constraints of `user_role_assignment` hold for the new row.
unfoldable pub admissible : RoleAssignment → Database → Bool
admissible r db =
    not (any (has_key r.user_id r.role r.granted_at) db.assignments)
    && has_account_of r.user_id r.account_archetype db.accounts
    && references r.granted_by_user_id db.accounts
    && customer_check r.account_archetype r.customer_id

-- A column takes a text that its type reads, and no text at all.
abbrev pub reads : (String → Bool) → Option String → Bool
reads read none = true
reads read (some s) = read s

-- The columns of `auth_audit_event` take the values of the new row.
unfoldable pub is_storable : AuditEvent → ColumnTypes → Bool
is_storable e types =
    reads types.is_inet e.ip_address_observed
    && reads types.is_text e.user_agent_observed
    && types.is_jsonb e.event_details

-- The constraints of `auth_audit_event` hold for the new row.
unfoldable pub event_admissible : AuditEvent → Database → Bool
event_admissible e db =
    not (any (λ f. f.event_id == e.event_id) db.audit_events) && references e.user_id db.accounts

-- The driver's exception: a value is converted before a constraint is tested.
abbrev pub refusal : Bool → Error
refusal converted = if converted then integrity_error else data_error

-- `INSERT INTO user_role_assignment`
unfoldable pub insert_assignment : RoleAssignment → Action Error Database (Unit {0})
unfolding admissible
insert_assignment r db =
    if db.types.is_text r.role && admissible r db
    then (ok tt, record db { assignments = r ∷ db.assignments })
    else (err (refusal (db.types.is_text r.role)), db)

-- `INSERT INTO auth_audit_event`
unfoldable pub insert_audit_event : AuditEvent → Action Error Database (Unit {0})
unfolding is_storable event_admissible
insert_audit_event e db =
    if is_storable e db.types && event_admissible e db
    then (ok tt, record db { audit_events = e ∷ db.audit_events })
    else (err (refusal (is_storable e db.types)), db)
