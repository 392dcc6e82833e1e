-- ===== src/Auth/Provider/Protocol/Promises.antt =====
-- auth/trustlist_auth/provider.py: the promises of the protocol's docstrings together.
use trustlist_core.Base.{sym, subst}
use trustlist_core.Auth.Provider.Steps.{IsValid, new_provider-IsValid}
use trustlist_core.Auth.External.{External}
use trustlist_core.Auth.Provider.Protocol.{IsProvider}
use trustlist_core.Auth.Provider.Protocol.InMemory.{in_memory_provider, in_memory_insight}
use trustlist_core.Auth.Provider.Protocol.Accounts.{in_memory-AccountLaws}
use trustlist_core.Auth.Provider.Protocol.Sessions.{in_memory-SessionLaws}
use trustlist_core.Auth.Provider.Protocol.SecondFactor.{in_memory-TotpLaws}

-- The in-memory provider keeps these promises of the protocol. A new account is found, unverified,
-- enabled and without a second factor; its address lets in who gives a password that its hash accepts,
-- and any other password fails as an unknown address does. In a valid state a change of password makes
-- the new hash decide, and disabling an account turns the credential that let its user in into
-- AccountDisabled. A taken address is refused. No disabled account gets a login or a session. A new
-- provider, which is valid, knows nobody and raises SessionNotFound for every session, and issuing a
-- session leaves the others as they are. A new session is returned until its time has elapsed, and
-- raises SessionRevoked from then on; one that is returned in a valid state is the one asked for,
-- unexpired and of an enabled account. After a revocation a session raises SessionRevoked, or still
-- SessionNotFound if it did before; revoking all sessions of a user and disabling the account leave
-- the user none. Marking an email, revoking a session and disabling an
-- account are no-ops the second time. A new account has no second factor to verify; after an enrolment
-- was begun a code is judged by the secret returned, a code that verifies completes the enrolment, and
-- a completed one is not begun again.
pub in_memory-IsProvider : (x : External) → IsProvider (in_memory_provider x) (in_memory_insight x)
unfolding in_memory_provider in_memory_insight
in_memory-IsProvider x = record {
  starts = λ s (ttl, same). subst (IsValid x.lower) (sym same) (new_provider-IsValid x.lower ttl);
  accounts = in_memory-AccountLaws x;
  sessions = in_memory-SessionLaws x;
  totp = in_memory-TotpLaws x;
}
