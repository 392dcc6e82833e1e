-- ===== src/Auth/Provider/History.antt =====
-- Registration, and the invariant of `Valid` along every history of calls of the provider.
use trustlist_core.Base.{
  ℕ, String, ◌≡◌, refl, false, Option, none, arith, ◌==◌, ==_iff, ℕ-eq, String-eq, Pair-eq,
  Bool-cases, inl, inr,
}
use trustlist_core.Base.Dict.{lookup, has, insert, lookup-insert}
use trustlist_core.Auth.Rbac.Model.{Archetype, Archetype-eq}
use trustlist_core.Auth.External.{External}
use trustlist_core.Auth.Provider.{
  Account, Provider, revoke_session, revoke_all_sessions, mark_email_verified, issue_session,
  disable_account,
}
use trustlist_core.Auth.Provider.Credentials.{
  register, authenticate, change_password, enrol_totp, verify_totp,
}
use trustlist_core.Auth.Provider.Valid.{key_of}
use trustlist_core.Auth.Provider.CredentialSteps
use trustlist_core.Auth.Provider.Steps

module _ (x : External) where
  module _ (p : Provider) (h : Steps.IsValid x.lower p) where
    registered-IsValid :
        (u : ℕ) (b : Account)
        → b.user_id ≡ u
        → b.totp_confirmed ≡ false
        → lookup u p.accounts ≡ none
        → has (key_of x.lower b) p.email_index ≡ false
        → Steps.IsValid x.lower (record p {
          accounts = insert u b p.accounts;
          email_index = insert (key_of x.lower b) u p.email_index;
        })
    registered-IsValid u b id pending fresh free = record {
      indexed = record {
        ids = λ v c e. ground (arith, lookup-insert u v b p.accounts, h.indexed.ids v c);
        complete = λ v c e. ground (
          arith,
          lookup-insert u v b p.accounts,
          lookup-insert (key_of x.lower b) (key_of x.lower c) u p.email_index,
          ==_iff (key_of x.lower b) (key_of x.lower c),
          h.indexed.complete v c,
        );
        sound = λ k v e.
            let written = lookup-insert (key_of x.lower b) k u p.email_index in
            elim (Bool-cases (key_of x.lower b == k)) [
              | inl same ↦ record {
                target = b;
                found = ground (arith, written, lookup-insert u v b p.accounts);
                key = (==_iff (key_of x.lower b) k).0 same;
              }
              | inr other ↦
                  let t = h.indexed.sound k v (ground (arith, written)) in
                  record {
                    target = t.target;
                    found = ground (arith, lookup-insert u v b p.accounts, t.found);
                    key = t.key;
                  }
            ];
        sessions = λ s q e.
            let t = h.indexed.sessions s q e in
            record {
              id = t.id;
              owner = t.owner;
              found = ground (arith, lookup-insert u q.user_id b p.accounts, t.found);
              archetype = t.archetype;
            };
        secrets = λ v c e t. ground (arith, lookup-insert u v b p.accounts, h.indexed.secrets v c);
      };
      out = record {
        at = λ s q c e f d.
            let t = h.indexed.sessions s q e in
            ground (arith, lookup-insert u q.user_id b p.accounts, t.found, h.out.at s q c);
      };
    }

    -- A registration with a UUID that no account has keeps the invariant.
    pub register-IsValid :
        (salt u : ℕ) (a : Archetype) (email password : String)
        → lookup u p.accounts ≡ none
        → Steps.IsValid x.lower (register x salt u a email password p).1
    unfolding register
    register-IsValid salt u a email password fresh =
        elim (Bool-cases (has (a, x.lower email) p.email_index)) [
          | inl taken ↦ rw taken h
          | inr free ↦ rw free (registered-IsValid u _ refl refl fresh free)
        ]

  -- One call of the provider. The clock, the salt and the UUIDs are what the environment draws, and a
  -- registration draws a UUID that no account has.
  pub data Call (p : Provider) : Provider → Type 0 where
    registers :
        (salt u : ℕ) (a : Archetype) (email password : String)
        → lookup u p.accounts ≡ none
        → Call p (register x salt u a email password p).1
    authenticates :
        (salt : ℕ) (a : Archetype) (email password : String)
        → Call p (authenticate x salt a email password p).1
    verifies_email : (u : ℕ) → Call p (mark_email_verified u p).1
    changes_password :
        (salt u : ℕ) (password : String) → Call p (change_password x salt u password p).1
    issues : (now s u : ℕ) (device : Option String) → Call p (issue_session now s u device p).1
    revokes : (s : ℕ) → Call p (revoke_session s p).1
    revokes_all : (u : ℕ) → Call p (revoke_all_sessions u p).1
    enrols : (random u : ℕ) → Call p (enrol_totp x random u p).1
    verifies : (now u : ℕ) (code : String) → Call p (verify_totp x now u code p).1
    disables : (u : ℕ) → Call p (disable_account u p).1

  -- A history of calls, each of which may return or raise.
  pub data Reach (p : Provider) : Provider → Type 0 where
    here : Reach p p
    next : {q r : Provider} → Reach p q → Call q r → Reach p r

  Call-IsValid : {p q : Provider} → Call p q → Steps.IsValid x.lower p → Steps.IsValid x.lower q
  Call-IsValid {p} (registers salt u a email password fresh) h =
      register-IsValid p h salt u a email password fresh
  Call-IsValid {p} (authenticates salt a email password) h =
      CredentialSteps.authenticate-IsValid x p h salt a email password
  Call-IsValid {p} (verifies_email u) h = Steps.mark_email_verified-IsValid x p h u
  Call-IsValid {p} (changes_password salt u password) h =
      CredentialSteps.change_password-IsValid x p h salt u password
  Call-IsValid {p} (issues now s u device) h = Steps.issue_session-IsValid x p h now s u device
  Call-IsValid {p} (revokes s) h = Steps.revoke_session-IsValid x p h s
  Call-IsValid {p} (revokes_all u) h = Steps.revoke_all_sessions-IsValid x p h u
  Call-IsValid {p} (enrols random u) h = CredentialSteps.enrol_totp-IsValid x p h random u
  Call-IsValid {p} (verifies now u code) h = CredentialSteps.verify_totp-IsValid x p h now u code
  Call-IsValid {p} (disables u) h = Steps.disable_account-IsValid x p h u

  -- Every history of calls from a valid provider, in which each registration draws a UUID that no
  -- account has, leads to a valid one: the accounts, the index by email and the sessions agree, and a
  -- disabled account has no live session.
  pub Reach-IsValid :
      {p q : Provider} → Reach p q → Steps.IsValid x.lower p → Steps.IsValid x.lower q
  Reach-IsValid here h = h
  Reach-IsValid (next r c) h = Call-IsValid c (Reach-IsValid r h)
