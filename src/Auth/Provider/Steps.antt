-- ===== src/Auth/Provider/Steps.antt =====
-- The methods of the in-memory provider on accounts and sessions keep the invariant of `Valid`.
use trustlist_core.Base.{
  ℕ, String, ◌≡◌, refl, sym, ◌∙◌, Bool, true, false, Option, some, arith, ◌==◌, ℕ-eq, String-eq,
  Pair-eq, if◌then◌else◌, Bool-cases, Option-cases, inl, inr,
}
use trustlist_core.Base.Dict.{lookup, insert, lookup-insert, lookup-map_values, option_map-eq-some}
use trustlist_core.Base.Action.{Action, ◌>>=◌}
use trustlist_core.Auth.Errors.{Error}
use trustlist_core.Auth.Rbac.Model.{Archetype-eq}
use trustlist_core.Auth.External.{External}
use trustlist_core.Auth.Provider.{
  Account, SessionRecord, Provider, new_provider, account, account_at, store_account,
  revoke_session, revoke_all_sessions, mark_email_verified, issue_session, disable_account,
  revoke_if_of,
}
use trustlist_core.Auth.Provider.Valid.{
  IsIndexed, DisabledIsOut, Replaces, store_account-IsIndexed, store_account-DisabledIsOut,
  SessionsFrom-IsIndexed, SessionsFrom-DisabledIsOut, revoke_session-SessionsFrom,
  revoke_all_sessions-SessionsFrom, SessionsFrom,
}

module _ {A : Type 0} (P : Provider → Type 0) (u : ℕ) (f : Account → Action Error Provider A)
    (p : Provider) (h : P p)
    (step : (a : Account) → lookup u p.accounts ≡ some a → P (f a p).1) where
  pub account_inv : P ((account u >>= f) p).1
  unfolding account
  account_inv = elim (Option-cases (lookup u p.accounts)) [
    | inl missing ↦ rw missing h
    | inr (a, found) ↦ rw found (step a found)
  ]

  pub account_at_inv : P ((account_at u >>= f) p).1
  unfolding account_at
  account_at_inv = elim (Option-cases (lookup u p.accounts)) [
    | inl missing ↦ rw missing h
    | inr (a, found) ↦ rw found (step a found)
  ]

pub if_inv :
    {A : Type 0} (P : Provider → Type 0) (b : Bool) (m n : Action Error Provider A) (p : Provider)
    → P (m p).1
    → P (n p).1
    → P ((if b then m else n) p).1
if_inv P true m n p h k = h
if_inv P false m n p h k = k

-- The dicts and the index agree, and a disabled account has no live session.
pub record IsValid (lower : String → String) (p : Provider) : Type 0 where
  pub indexed : IsIndexed lower p
  pub out : DisabledIsOut p

pub new_provider-IsValid : (lower : String → String) (ttl : ℕ) → IsValid lower (new_provider ttl)
unfolding new_provider lookup
new_provider-IsValid lower ttl = record {
  indexed = record {
    ids = λ u a e. cc;
    complete = λ u a e. cc;
    sound = λ k u e. absurd (cc);
    sessions = λ s r e. absurd (cc);
    secrets = λ u a e c. cc;
  };
  out = record { at = λ s r a e f d. cc };
}

module _ (x : External) (p : Provider) (h : IsValid x.lower p) where
  abbrev Keeps : Provider → Type 0
  Keeps = IsValid x.lower

  -- An update that leaves the identity and the second factor alone may be stored.
  pub updated-Replaces :
      (u : ℕ) (a : Account) (password_hash : String) (email_verified disabled : Bool)
      → lookup u p.accounts ≡ some a
      → Replaces a (record a {
        password_hash = password_hash;
        email_verified = email_verified;
        disabled = disabled;
      })
  updated-Replaces u a password_hash email_verified disabled found = record {
    user_id = refl;
    archetype = refl;
    email = refl;
    secret = h.indexed.secrets u a found;
  }

  pub store-IsValid :
      (u : ℕ) (a b : Account)
      → lookup u p.accounts ≡ some a
      → Replaces a b
      → b.disabled ≡ a.disabled
      → Keeps (store_account u b p).1
  store-IsValid u a b found r same = record {
    indexed = store_account-IsIndexed x.lower u a b p found r h.indexed;
    out = store_account-DisabledIsOut x.lower u a b p found same h.out;
  }

  from-IsValid : (p' : Provider) → SessionsFrom p p' → Keeps p'
  from-IsValid p' f = record {
    indexed = SessionsFrom-IsIndexed p p' f x.lower h.indexed;
    out = SessionsFrom-DisabledIsOut p p' f h.out;
  }

  pub revoke_session-IsValid : (s : ℕ) → Keeps (revoke_session s p).1
  revoke_session-IsValid s = from-IsValid _ (revoke_session-SessionsFrom s p)

  pub revoke_all_sessions-IsValid : (u : ℕ) → Keeps (revoke_all_sessions u p).1
  revoke_all_sessions-IsValid u = from-IsValid _ (revoke_all_sessions-SessionsFrom u p)

  pub mark_email_verified-IsValid : (u : ℕ) → Keeps (mark_email_verified u p).1
  unfolding mark_email_verified
  mark_email_verified-IsValid u = account_inv Keeps u _ p h λ a found.
      store-IsValid u a (record a { email_verified = true }) found
        (updated-Replaces u a a.password_hash true a.disabled found) refl

  issued-IsValid :
      (a : Account) (s : ℕ) (r : SessionRecord)
      → lookup r.user_id p.accounts ≡ some a
      → a.disabled ≡ false
      → r.session_id ≡ s
      → r.archetype ≡ a.archetype
      → Keeps (record p { sessions = insert s r p.sessions })
  issued-IsValid a s r found active id same = record {
    indexed = record {
      ids = h.indexed.ids;
      complete = h.indexed.complete;
      sound = λ k v e.
          let t = h.indexed.sound k v e in
          record { target = t.target; found = t.found; key = t.key };
      sessions = λ s' q e.
          let written = lookup-insert s s' r p.sessions in
          elim (Bool-cases (s == s')) [
            | inl here ↦ record {
              id = ground (arith, written);
              owner = a;
              found = ground (arith, written);
              archetype = ground (arith, written);
            }
            | inr other ↦
                let t = h.indexed.sessions s' q (ground (arith, written)) in
                record { id = t.id; owner = t.owner; found = t.found; archetype = t.archetype }
          ];
      secrets = h.indexed.secrets;
    };
    out = record {
      at = λ s' q c e f d. ground (arith, lookup-insert s s' r p.sessions, h.out.at s' q c);
    };
  }

  pub issue_session-IsValid :
      (now s u : ℕ) (device : Option String) → Keeps (issue_session now s u device p).1
  unfolding issue_session
  issue_session-IsValid now s u device = account_inv Keeps u _ p h λ a found.
      elim (Bool-cases a.disabled) [
        | inl disabled ↦ rw disabled h
        | inr active ↦ rw active (issued-IsValid a s _ found active refl refl)
      ]

  disabled-IsValid :
      (u : ℕ) (a : Account)
      → lookup u p.accounts ≡ some a
      → Keeps (revoke_all_sessions u (store_account u (record a { disabled = true }) p).1).1
  unfolding store_account revoke_all_sessions
  disabled-IsValid u a found =
      let b : Account = record a { disabled = true } in
      let p' : Provider = record p { accounts = insert u b p.accounts } in
      record {
        indexed = SessionsFrom-IsIndexed p' _ (revoke_all_sessions-SessionsFrom u p') x.lower (
            store_account-IsIndexed x.lower u a b p found
              (updated-Replaces u a a.password_hash a.email_verified true found) h.indexed);
        out = record {
          at = λ s q c e f d.
              let (r, old, new) =
                option_map-eq-some (revoke_if_of u) (lookup s p.sessions) q
                  (sym (lookup-map_values (revoke_if_of u) s p.sessions) ∙ e) in
              ground (arith, new, lookup-insert u q.user_id b p.accounts, h.out.at s r c);
        };
      }

  pub disable_account-IsValid : (u : ℕ) → Keeps (disable_account u p).1
  unfolding disable_account
  disable_account-IsValid u = account_inv Keeps u _ p h λ a found. disabled-IsValid u a found
