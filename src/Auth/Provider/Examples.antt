-- ===== src/Auth/Provider/Examples.antt =====
-- The theorems of this directory at one account and one session.
use trustlist_core.Base.{ℕ, ◌≡◌, ◌≢◌, refl, ap, subst, none, some, arith, ℕ-eq, String-eq, Pair-eq}
use trustlist_core.Base.Dict.{lookup, insert}
use trustlist_core.Base.Result.{ok}
use trustlist_core.Auth.Rbac.Model.{operator, brand_customer, Archetype-eq, same_archetype}
use trustlist_core.Auth.Samples.{sample, ada, no_accounts, one_account, session_record, one_session}
use trustlist_core.Auth.Provider.{
  Account, new_provider, account_view, session_view, account, store_account, get_session,
  issue_session, disable_account,
}
use trustlist_core.Auth.Provider.Credentials.{register, authenticate}
use trustlist_core.Auth.Provider.Protocol.{IsProvider}
use trustlist_core.Auth.Provider.Protocol.InMemory.{in_memory_provider, in_memory_insight}
use trustlist_core.Auth.Provider.Protocol.Promises.{in_memory-IsProvider}
use trustlist_core.Auth.Provider.Valid.{key_of}
use trustlist_core.Auth.Provider.Steps
use trustlist_core.Auth.Provider.Steps.{IsValid, new_provider-IsValid}
use trustlist_core.Auth.Provider.History.{
  Reach, here, next, registers, issues, register-IsValid, Reach-IsValid,
}
use trustlist_core.Auth.Provider.Access.{
  IsLive, get_session-IsLive, credential_result, authenticate_known,
}

no_accounts-IsValid : IsValid sample.lower no_accounts
unfolding new_provider
no_accounts-IsValid = new_provider-IsValid sample.lower 100

registers_ada :
    register sample 7 1 operator "Ada@Example.org" "correct horse" no_accounts
    ≡ (ok (account_view ada), one_account)
unfolding register lookup insert
registers_ada = refl

issues_session :
    issue_session 10 50 1 none one_account ≡ (ok (session_view session_record), one_session)
unfolding issue_session account lookup insert
issues_session = refl

abbrev history :
    Reach sample no_accounts
      (issue_session 10 50 1 none
        (register sample 7 1 operator "Ada@Example.org" "correct horse" no_accounts).1).1
history =
    next
      (next here (registers 7 1 operator "Ada@Example.org" "correct horse" (unfold lookup in refl)))
      (issues 10 50 1 none)

Reach-IsValid_example :
    IsValid sample.lower
      (issue_session 10 50 1 none
        (register sample 7 1 operator "Ada@Example.org" "correct horse" no_accounts).1).1
Reach-IsValid_example = Reach-IsValid sample history no_accounts-IsValid

one_account-IsValid : IsValid sample.lower one_account
one_account-IsValid = subst (IsValid sample.lower) (ap (λ r. r.1) registers_ada) (
    register-IsValid sample no_accounts no_accounts-IsValid 7 1 operator "Ada@Example.org"
      "correct horse" (unfold lookup in refl))

pub one_session-IsValid : IsValid sample.lower one_session
one_session-IsValid =
    subst (IsValid sample.lower) (ap (λ r. r.1) issues_session)
      (Steps.issue_session-IsValid sample one_account one_account-IsValid 10 50 1 none)

finds_session : (get_session 20 50 one_session).0 ≡ ok (session_view session_record)
unfolding get_session lookup
finds_session = refl

get_session-IsLive_example : IsLive 20 50 (session_view session_record) one_session
get_session-IsLive_example =
    get_session-IsLive sample.lower one_session one_session-IsValid 20 50
      (session_view session_record) finds_session

finds_ada : lookup 1 one_account.accounts ≡ some ada
unfolding lookup
finds_ada = refl

authenticate_known_example :
    (authenticate sample 8 operator "ada@example.org" "battery staple" one_account).0
    ≡ credential_result sample "battery staple" ada
authenticate_known_example =
    authenticate_known sample 8 operator "ada@example.org" "battery staple" one_account
      one_account-IsValid 1 ada finds_ada refl

nobody_else :
    (u : ℕ) (a : Account)
    → lookup u one_account.accounts ≡ some a
    → key_of sample.lower a ≢ (brand_customer, sample.lower "ada@example.org")
unfolding lookup
nobody_else u a found = ground (arith, found)

index_names_ada : lookup (key_of sample.lower ada) one_account.email_index ≡ some 1
unfolding lookup same_archetype
index_names_ada = refl

disables_ada : (disable_account 1 one_session).0 ≡ ok tt
unfolding disable_account account store_account lookup insert
disables_ada = refl

finds_record : lookup 50 one_session.sessions ≡ some session_record
unfolding lookup
finds_record = refl

in_memory-IsProvider_example : IsProvider (in_memory_provider sample) (in_memory_insight sample)
in_memory-IsProvider_example = in_memory-IsProvider sample
