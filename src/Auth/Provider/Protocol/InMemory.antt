-- ===== src/Auth/Provider/Protocol/InMemory.antt =====
-- auth/trustlist_auth/fake_provider.py: the in-memory provider as an implementation of the protocol.
use trustlist_core.Base.{ℕ, ◌≡◌}
use trustlist_core.Auth.External.{External}
use trustlist_core.Auth.Provider as Provider
use trustlist_core.Auth.Provider.Credentials as Credentials
use trustlist_core.Auth.Provider.Protocol.{IdentityProvider, Insight}
use trustlist_core.Auth.Provider.Steps.{IsValid}

-- `InMemoryIdentityProvider` as an implementation of the protocol
unfoldable pub in_memory_provider : External → IdentityProvider
in_memory_provider x = record {
  State = Provider.Provider;
  register = Credentials.register x;
  get_user = Provider.get_user;
  find_user_by_email = Credentials.find_user_by_email x;
  authenticate = Credentials.authenticate x;
  mark_email_verified = Provider.mark_email_verified;
  change_password = Credentials.change_password x;
  issue_session = Provider.issue_session;
  get_session = Provider.get_session;
  revoke_session = Provider.revoke_session;
  revoke_all_sessions = Provider.revoke_all_sessions;
  enrol_totp = Credentials.enrol_totp x;
  verify_totp = Credentials.verify_totp x;
  disable_account = Provider.disable_account;
}

-- a new provider, the invariant of its states, `verify_password` on a fresh hash and `verify_totp` of totp.py
unfoldable pub in_memory_insight : (x : External) → Insight (in_memory_provider x)
unfolding in_memory_provider
in_memory_insight x = record {
  IsNew = λ s. (session_ttl : ℕ) × (s ≡ Provider.new_provider session_ttl);
  IsGood = IsValid x.lower;
  accepts = λ salt password. Credentials.verify_password x (x.argon2_hash salt password);
  matches =
      λ now secret code. Credentials.verify_code x now secret code Credentials.default_valid_window;
}
