-- ===== src/Auth/Provider/Valid.antt =====
-- The invariant of the in-memory provider: its two dicts and its index agree, and a disabled account
-- has no live session.
use trustlist_core.Base.{
  ℕ, String, ◌≡◌, refl, sym, ◌∙◌, true, Option, none, some, arith, ◌==◌, ℕ-eq, String-eq, Pair-eq,
  if◌then◌else◌, is_some, Bool-cases, inl, inr,
}
use trustlist_core.Base.Dict.{lookup, lookup-insert, lookup-map_values, option_map-eq-some}
use trustlist_core.Auth.Rbac.Model.{Archetype, Archetype-eq}
use trustlist_core.Auth.Provider.{
  Account, SessionRecord, Provider, store_account, revoke_all_sessions, revoke_if_of,
  revoke_session, revoke_found,
}

-- The index key of an account.
abbrev pub key_of : (String → String) → Account → Archetype × String
key_of lower a = (a.archetype, lower a.email)

-- The account of `r` is there, and agrees with `r`.
pub record IsOwned (p : Provider) (s : ℕ) (r : SessionRecord) : Type 0 where
  pub id : r.session_id ≡ s
  pub owner : Account
  pub found : lookup r.user_id p.accounts ≡ some owner
  pub archetype : r.archetype ≡ owner.archetype

-- The index entry leads to an account with the entry's key.
pub record IsTarget (lower : String → String) (p : Provider) (k : Archetype × String) (u : ℕ)
    : Type 0 where
  pub target : Account
  pub found : lookup u p.accounts ≡ some target
  pub key : key_of lower target ≡ k

pub record IsIndexed (lower : String → String) (p : Provider) : Type 0 where
  pub ids : (u : ℕ) (a : Account) → lookup u p.accounts ≡ some a → a.user_id ≡ u
  pub complete :
      (u : ℕ) (a : Account)
      → lookup u p.accounts ≡ some a
      → lookup (key_of lower a) p.email_index ≡ some u
  pub sound :
      (k : Archetype × String) (u : ℕ) → lookup k p.email_index ≡ some u → IsTarget lower p k u
  pub sessions : (s : ℕ) (r : SessionRecord) → lookup s p.sessions ≡ some r → IsOwned p s r
  pub secrets :
      (u : ℕ) (a : Account)
      → lookup u p.accounts ≡ some a
      → a.totp_confirmed ≡ true
      → is_some a.totp_secret ≡ true

-- Every session of a disabled account is revoked.
pub record DisabledIsOut (p : Provider) : Type 0 where
  pub at :
      (s : ℕ) (r : SessionRecord) (a : Account)
      → lookup s p.sessions ≡ some r
      → lookup r.user_id p.accounts ≡ some a
      → a.disabled ≡ true
      → r.revoked ≡ true

-- `b` may replace `a`: its identity is the same, and a confirmed secret is there.
pub record Replaces (a b : Account) : Type 0 where
  pub user_id : b.user_id ≡ a.user_id
  pub archetype : b.archetype ≡ a.archetype
  pub email : b.email ≡ a.email
  pub secret : b.totp_confirmed ≡ true → is_some b.totp_secret ≡ true

module _ (lower : String → String) (u : ℕ) (a b : Account) (p : Provider) where
  pub store_account-IsIndexed :
      lookup u p.accounts ≡ some a
      → Replaces a b
      → IsIndexed lower p
      → IsIndexed lower (store_account u b p).1
  unfolding store_account
  store_account-IsIndexed found r h = record {
    ids = λ v c e. ground (arith, lookup-insert u v b p.accounts, h.ids v c, h.ids u a, r.user_id);
    complete = λ v c e. ground (
      arith,
      lookup-insert u v b p.accounts,
      h.complete v c,
      h.complete u a,
      r.archetype,
      r.email,
    );
    sound = λ k v e.
        let t = h.sound k v e in
        record {
          target = if u == v then b else t.target;
          found = ground (arith, lookup-insert u v b p.accounts, t.found);
          key = ground (arith, t.key, t.found, r.archetype, r.email);
        };
    sessions = λ s q e.
        let t = h.sessions s q e in
        record {
          id = t.id;
          owner = if u == q.user_id then b else t.owner;
          found = ground (arith, lookup-insert u q.user_id b p.accounts, t.found);
          archetype = ground (arith, t.archetype, t.found, r.archetype);
        };
    secrets = λ v c e t. ground (arith, lookup-insert u v b p.accounts, h.secrets v c, r.secret);
  }

  -- Replacing an account leaves `DisabledIsOut` alone, if it disables nobody.
  pub store_account-DisabledIsOut :
      lookup u p.accounts ≡ some a
      → b.disabled ≡ a.disabled
      → DisabledIsOut p
      → DisabledIsOut (store_account u b p).1
  unfolding store_account
  store_account-DisabledIsOut found same h = record {
    at = λ s r c e f d.
        ground (arith, lookup-insert u r.user_id b p.accounts, h.at s r c e, h.at s r a e);
  }

-- Every session of `p'` is one of `p`, but may be revoked since.
pub record SessionsFrom (p p' : Provider) : Type 0 where
  pub accounts : p'.accounts ≡ p.accounts
  pub email_index : p'.email_index ≡ p.email_index
  pub before :
      (s : ℕ) (q : SessionRecord)
      → lookup s p'.sessions ≡ some q
      → (r : SessionRecord) × (lookup s p.sessions ≡ some r)
        × (q.user_id ≡ r.user_id)
        × (q.archetype ≡ r.archetype)
        × (q.session_id ≡ r.session_id)
        × (r.revoked ≡ true → q.revoked ≡ true)

module _ (p p' : Provider) (f : SessionsFrom p p') where
  pub SessionsFrom-IsIndexed : (lower : String → String) → IsIndexed lower p → IsIndexed lower p'
  SessionsFrom-IsIndexed lower h = record {
    ids = λ u a e. h.ids u a (ground (arith, f.accounts));
    complete = λ u a e. ground (arith, f.accounts, f.email_index, h.complete u a);
    sound = λ k v e.
        let t = h.sound k v (ground (arith, f.email_index)) in
        record { target = t.target; found = ground (arith, f.accounts, t.found); key = t.key };
    sessions = λ s q e.
        let (r, old, same_user, same_archetype, same_id, _) = f.before s q e in
        let t = h.sessions s r old in
        record {
          id = same_id ∙ t.id;
          owner = t.owner;
          found = ground (arith, f.accounts, t.found, same_user);
          archetype = same_archetype ∙ t.archetype;
        };
    secrets = λ u a e. h.secrets u a (ground (arith, f.accounts));
  }

  pub SessionsFrom-DisabledIsOut : DisabledIsOut p → DisabledIsOut p'
  SessionsFrom-DisabledIsOut h = record {
    at = λ s q a e found d.
        let (r, old, same_user, _, _, stays) = f.before s q e in
        stays (h.at s r a old (ground (arith, f.accounts, same_user)) d);
  }

pub revoke_all_sessions-SessionsFrom :
    (u : ℕ) (p : Provider) → SessionsFrom p (revoke_all_sessions u p).1
unfolding revoke_all_sessions
revoke_all_sessions-SessionsFrom u p = record {
  accounts = refl;
  email_index = refl;
  before = λ s q e.
      let (r, old, new) =
        option_map-eq-some (revoke_if_of u) (lookup s p.sessions) q
          (sym (lookup-map_values (revoke_if_of u) s p.sessions) ∙ e) in
      (r, old, ground (arith, new), ground (arith, new), ground (arith, new), ground (arith, new));
}

revoke_found-SessionsFrom :
    (s : ℕ) (o : Option SessionRecord) (p : Provider)
    → lookup s p.sessions ≡ o
    → SessionsFrom p (revoke_found s o p).1
unfolding revoke_found
revoke_found-SessionsFrom s none p _ = record {
  accounts = refl;
  email_index = refl;
  before = λ s' q e. (q, e, refl, refl, refl, λ h. h);
}
revoke_found-SessionsFrom s (some r) p found = record {
  accounts = refl;
  email_index = refl;
  before = λ s' q e.
      let written = lookup-insert s s' (record r { revoked = true }) p.sessions in
      elim (Bool-cases (s == s')) [
        | inl same ↦ (
          r,
          ground arith,
          ground (arith, written),
          ground (arith, written),
          ground (arith, written),
          ground (arith, written),
        )
        | inr other ↦ (q, ground (arith, written), refl, refl, refl, λ h. h)
      ];
}

pub revoke_session-SessionsFrom : (s : ℕ) (p : Provider) → SessionsFrom p (revoke_session s p).1
unfolding revoke_session
revoke_session-SessionsFrom s p = revoke_found-SessionsFrom s (lookup s p.sessions) p refl
