-- ===== src/Auth/Service/Examples.antt =====
-- The theorems of this directory at one state of the service: an operator with a session, and a brand
-- customer's analyst.
use trustlist_core.Base.{◌≡◌, refl, true, [], ◌∷◌, none, some, arith, ℕ-eq, String-eq}
use trustlist_core.Base.Lists.{any}
use trustlist_core.Base.Dict.{lookup, insert}
use trustlist_core.Base.Result.{ok, err}
use trustlist_core.Auth.Errors.{authentication_failed, session_revoked}
use trustlist_core.Auth.Rbac.Model.{
  operator, brand_customer, Archetype-eq, same_archetype, audit_view,
}
use trustlist_core.Auth.Rbac.Framework.{catalogue, has_role}
use trustlist_core.Auth.Rbac.Catalogues.{catalogue_for}
use trustlist_core.Auth.Rbac.Resolve.{confers}
use trustlist_core.Auth.Database.{RoleAssignment, has_key, customer_check, login_failure}
use trustlist_core.Auth.RoleStore
use trustlist_core.Auth.RoleStore.{revocable, live_role_identifiers}
use trustlist_core.Auth.RoleStore.Consistent.{IsConsistent}
use trustlist_core.Auth.Samples.{all_readable, sample, one_session, session_record}
use trustlist_core.Auth.Provider.{account, account_at, store_account, get_session}
use trustlist_core.Auth.Provider.Credentials
use trustlist_core.Auth.Provider.Credentials.{
  verify_password, is_verified, check_credential, authenticate_at,
}
use trustlist_core.Auth.Provider.Examples.{one_session-IsValid}
use trustlist_core.Auth.Audit.{recording_sink}
use trustlist_core.Auth.Service.World.{World, Draws}
use trustlist_core.Auth.Service.Methods
use trustlist_core.Auth.Service.Methods.{member, has_permission, assign_role}
use trustlist_core.Auth.Service.Access.{IsOf, has_permission-total}
use trustlist_core.Auth.Service.Isolation.{assign_role-isolated}
use trustlist_core.Auth.Service.Sound.{IsSound}
use trustlist_core.Auth.Service.Histories.{
  Reach, here, next, changes_password, revokes_role, Reach-IsSound,
}
use trustlist_core.Auth.Service.Outcomes.{
  OneRow, authenticate_failure, change_password-ends_sessions, revoke_role-ends_sessions,
}

abbrev analyst_row : RoleAssignment
analyst_row = record {
  user_id = 2;
  account_archetype = brand_customer;
  role = "analyst";
  granted_at = 5;
  granted_by_user_id = none;
  revoked_at = none;
  customer_id = some 70;
}

abbrev operator_row : RoleAssignment
operator_row = record {
  user_id = 1;
  account_archetype = operator;
  role = "owner";
  granted_at = 6;
  granted_by_user_id = none;
  revoked_at = none;
  customer_id = none;
}

abbrev start : World
start = record {
  provider = one_session;
  database = record {
    types = all_readable;
    accounts =
        record { user_id = 1; archetype = operator }
        ∷ record { user_id = 2; archetype = brand_customer }
        ∷ [];
    assignments = operator_row ∷ analyst_row ∷ [];
    audit_events = [];
  };
  sink = recording_sink [];
}

abbrev draws : Draws
draws = record { now = 20; event_id = 90; new_id = 51; random = 3 }

start-IsConsistent : IsConsistent start.database
unfolding has_role catalogue_for lookup insert same_archetype catalogue customer_check has_key
start-IsConsistent = record {
  rows = (
    record { role_known = refl; scope = refl; account = refl },
    (record { role_known = refl; scope = refl; account = refl }, tt),
  );
  keys = (refl, (refl, tt));
}

start-IsSound : IsSound sample.lower start
start-IsSound = record {
  provider = one_session-IsValid;
  roles = start-IsConsistent;
  clean = tt;
  mirrored = λ events e. ground (arith, e);
}

abbrev history :
    Reach sample start
      (Methods.revoke_role sample draws 1 "owner" 6 none
        (Methods.change_password sample draws 1 "battery staple" none start).1).1
history =
    next (next here (changes_password draws 1 "battery staple" none))
      (revokes_role draws 1 "owner" 6 none)

Reach-IsSound_example :
    IsSound sample.lower
      (Methods.revoke_role sample draws 1 "owner" 6 none
        (Methods.change_password sample draws 1 "battery staple" none start).1).1
Reach-IsSound_example = Reach-IsSound sample history start-IsSound

is_brand_customer : IsOf 2 brand_customer start.database.accounts
unfolding same_archetype
is_brand_customer operator h = absurd (cc)
is_brand_customer brand_customer h = refl
is_brand_customer _ h = absurd (cc)

has_permission-total_example :
    has_permission 2 brand_customer (member audit_view) (some 70) start ≡ (
      ok (
          any
            (confers (catalogue_for brand_customer) audit_view)
            (live_role_identifiers 2 (some 70) start.database)),
      start,
    )
has_permission-total_example =
    has_permission-total 2 brand_customer (some 70) audit_view start start-IsConsistent
      is_brand_customer

assign_role-isolated_example :
    (has_permission 2 brand_customer
      (member audit_view)
      (some 71)
      (assign_role sample draws 2 brand_customer "owner" none (some 70) start).1).0
    ≡ (has_permission 2 brand_customer (member audit_view) (some 71) start).0
assign_role-isolated_example =
    assign_role-isolated sample draws 2 brand_customer "owner" none 70 2 71 brand_customer
      audit_view start (omega arith)

wrong_password :
    (Credentials.authenticate sample 3 operator "ada@example.org" "battery staple" one_session).0
    ≡ err authentication_failed
unfolding Credentials.authenticate authenticate_at check_credential account_at verify_password
    is_verified lookup same_archetype
wrong_password = refl

authenticate_failure_example :
    ((Methods.authenticate sample draws operator "ada@example.org" "battery staple" none none
        start).0
      ≡ err authentication_failed)
    × OneRow login_failure none start
        (Methods.authenticate sample draws operator "ada@example.org" "battery staple" none none
          start).1
    × ((Methods.authenticate sample draws operator "ada@example.org" "battery staple" none none
          start).1.database.assignments
        ≡ start.database.assignments)
authenticate_failure_example =
    authenticate_failure sample draws operator "ada@example.org" "battery staple" none none start
      authentication_failed refl refl refl refl refl refl wrong_password

changes : (Credentials.change_password sample 3 1 "battery staple" one_session).0 ≡ ok tt
unfolding Credentials.change_password account store_account lookup
changes = refl

finds_record : lookup 50 one_session.sessions ≡ some session_record
unfolding lookup
finds_record = refl

change_password-ends_sessions_example :
    (get_session 21 50
      (Methods.change_password sample draws 1 "battery staple" none start).1.provider).0
    ≡ err session_revoked
change_password-ends_sessions_example =
    change_password-ends_sessions sample draws 1 "battery staple" none start changes 21 50
      session_record finds_record refl

revokes_owner : (RoleStore.revoke_role 20 1 "owner" 6 none start.database).0 ≡ ok true
unfolding RoleStore.revoke_role revocable has_key
revokes_owner = refl

revoke_role-ends_sessions_example :
    (get_session 21 50 (Methods.revoke_role sample draws 1 "owner" 6 none start).1.provider).0
    ≡ err session_revoked
revoke_role-ends_sessions_example =
    revoke_role-ends_sessions sample draws 1 "owner" 6 none start revokes_owner 21 50 session_record
      finds_record refl
