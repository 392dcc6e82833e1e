-- ===== src/Auth/Provider/Flows.antt =====
-- Sequences of calls of the provider: registration and login, a change of password, the enrolment of
-- a second factor, the end of an account.
use trustlist_core.Base.{
  ℕ, String, ◌≡◌, refl, true, false, Option, some, arith, ℕ-eq, String-eq, Pair-eq, if◌then◌else◌,
  Bool-cases, Option-cases, inl, inr,
}
use trustlist_core.Base.Dict.{lookup, has, insert, lookup-insert_self, lookup-map_values}
use trustlist_core.Base.Result.{ok, err}
use trustlist_core.Auth.Errors.{
  auth_error, account_disabled, session_revoked, totp_already_enrolled,
}
use trustlist_core.Auth.Rbac.Model.{Archetype, Archetype-eq}
use trustlist_core.Auth.External.{External, HashVerifies}
use trustlist_core.Auth.Provider.{
  ProviderUser, TotpEnrolment, Account, SessionRecord, Provider, account_view, account, account_at,
  get_session, issue_session, disable_account, revoke_all_sessions, revoke_if_of,
}
use trustlist_core.Auth.Provider.Credentials.{
  register, check_credential, authenticate_at, authenticate, verify_password, verify_code,
  change_password, enrol_totp, verify_with, verify_totp, default_valid_window, is_verified,
}
use trustlist_core.Auth.Provider.Valid.{key_of}

module _ (x : External) where
  -- Once an address is registered for an archetype, registering it again in any case of its letters
  -- raises AuthError and changes nothing.
  pub register_twice :
      (salt u salt' u' : ℕ) (a : Archetype) (email email' password password' : String)
      (p : Provider) (user : ProviderUser)
      → (register x salt u a email password p).0 ≡ ok user
      → x.lower email' ≡ x.lower email
      → let p' = (register x salt u a email password p).1 in
        register x salt' u' a email' password' p' ≡ (err auth_error, p')
  unfolding register
  register_twice salt u salt' u' a email email' password password' p user e same =
      elim (Bool-cases (has (a, x.lower email) p.email_index)) [
        | inl taken ↦ absurd (ground arith)
        | inr free ↦ rw (free, same, lookup-insert_self (a, x.lower email) u p.email_index)
      ]

  -- If a password verifies against each of its own hashes, a registration that returns lets its owner
  -- in: the same password with the address in any case
  -- authenticates, and returns the account that the registration returned.
  pub register-authenticate :
      HashVerifies x
      → (salt u salt' : ℕ) (a : Archetype) (email email' password : String) (p : Provider)
        (user : ProviderUser)
      → (register x salt u a email password p).0 ≡ ok user
      → x.lower email' ≡ x.lower email
      → (authenticate x salt' a email' password (register x salt u a email password p).1).0
        ≡ ok user
  unfolding register authenticate authenticate_at account_at check_credential verify_password
      is_verified
  register-authenticate good salt u salt' a email email' password p user e same =
      elim (Bool-cases (has (a, x.lower email) p.email_index)) [
        | inl taken ↦ absurd (ground arith)
        | inr free ↦
            rw
              (
                free,
                same,
                lookup-insert_self (a, x.lower email) u p.email_index,
                lookup-insert_self u _ p.accounts,
              )
              (ground (arith, good.verifies salt password))
      ]

  -- If a password verifies against each of its own hashes, then after a change of password the new
  -- password lets in an account that the index names, unless it is disabled.
  pub change_password-authenticate :
      HashVerifies x
      → (salt u salt' : ℕ) (a : Account) (password : String) (p : Provider)
      → lookup u p.accounts ≡ some a
      → lookup (key_of x.lower a) p.email_index ≡ some u
      → (authenticate x salt' a.archetype a.email password
          (change_password x salt u password p).1).0
        ≡ (if a.disabled then err account_disabled else ok (account_view a))
  unfolding change_password authenticate authenticate_at account_at account check_credential
      verify_password is_verified
  change_password-authenticate good salt u salt' a password p found entry =
      rw (found, entry, lookup-insert_self u _ p.accounts)
        (ground (arith, good.verifies salt password))

  -- The account at `u` waits for a code of `secret`.
  abbrev Pending : ℕ → String → Provider → Type 0
  Pending u secret p =
      (a : Account) × (lookup u p.accounts ≡ some a) × (a.totp_secret ≡ some secret)

  abbrev Enrolled : ℕ → Provider → Type 0
  Enrolled u p = (a : Account) × (lookup u p.accounts ≡ some a) × (a.totp_confirmed ≡ true)

  enrol_totp-Pending :
      (random u : ℕ) (p : Provider) (enrolment : TotpEnrolment)
      → (enrol_totp x random u p).0 ≡ ok enrolment
      → Pending u enrolment.secret (enrol_totp x random u p).1
  unfolding enrol_totp
  enrol_totp-Pending random u p enrolment e = elim (Option-cases (lookup u p.accounts)) [
    | inl missing ↦ absurd (ground arith)
    | inr (a, found) ↦ (
      record a { totp_secret = some (x.random_base32 random); totp_confirmed = false },
      ground (
        arith,
        lookup-insert_self u
            (record a { totp_secret = some (x.random_base32 random); totp_confirmed = false })
            p.accounts,
      ),
      ground arith,
    )
  ]

  verify_totp-Pending :
      (now u : ℕ) (code secret : String) (p : Provider)
      → Pending u secret p
      → ((verify_totp x now u code p).0 ≡ ok (verify_code x now secret code default_valid_window))
        × ((verify_totp x now u code p).0 ≡ ok true → Enrolled u (verify_totp x now u code p).1)
  unfolding verify_totp verify_with
  verify_totp-Pending now u code secret p (a, found, held) = (
    rw (found, held) (ground arith),
    λ e. (
      record a { totp_confirmed = true },
      rw (found, held)
          (ground (arith, lookup-insert_self u (record a { totp_confirmed = true }) p.accounts)),
      refl,
    ),
  )

  enrol_totp-Enrolled :
      (random u : ℕ) (p : Provider)
      → Enrolled u p
      → (enrol_totp x random u p).0 ≡ err totp_already_enrolled
  unfolding enrol_totp
  enrol_totp-Enrolled random u p (a, found, confirmed) = rw (found, confirmed)

  -- After `enrol_totp` has returned a secret, `verify_totp` judges a code by that secret.
  pub enrol-verify :
      (random now u : ℕ) (code : String) (p : Provider) (enrolment : TotpEnrolment)
      → (enrol_totp x random u p).0 ≡ ok enrolment
      → (verify_totp x now u code (enrol_totp x random u p).1).0
        ≡ ok (verify_code x now enrolment.secret code default_valid_window)
  enrol-verify random now u code p enrolment e =
      (verify_totp-Pending now u code enrolment.secret (enrol_totp x random u p).1
        (enrol_totp-Pending random u p enrolment e)).0

  -- Once a code has confirmed an enrolment, a further `enrol_totp` raises TotpAlreadyEnrolled.
  pub enrol-verify-enrol :
      (random now random' u : ℕ) (code : String) (p : Provider) (enrolment : TotpEnrolment)
      → (enrol_totp x random u p).0 ≡ ok enrolment
      → let p' = (enrol_totp x random u p).1 in
        (verify_totp x now u code p').0 ≡ ok true
        → (enrol_totp x random' u (verify_totp x now u code (enrol_totp x random u p).1).1).0
          ≡ err totp_already_enrolled
  enrol-verify-enrol random now random' u code p enrolment e right =
      enrol_totp-Enrolled random' u _ (
        (verify_totp-Pending now u code enrolment.secret (enrol_totp x random u p).1
            (enrol_totp-Pending random u p enrolment e)).1
          right)

-- The body of `revoke_all_sessions` revokes each session of the account.
pub get_session-revoke_all :
    (now s u : ℕ) (r : SessionRecord) (p : Provider)
    → lookup s p.sessions ≡ some r
    → r.user_id ≡ u
    → (get_session now s (revoke_all_sessions u p).1).0 ≡ err session_revoked
unfolding get_session revoke_all_sessions
get_session-revoke_all now s u r p found of_u =
    ground (arith, lookup-map_values (revoke_if_of u) s p.sessions)

-- After a `disable_account` that returns, `get_session` raises SessionRevoked for each session that the
-- account had.
pub disable_account-ends_sessions :
    (u : ℕ) (p : Provider)
    → (disable_account u p).0 ≡ ok tt
    → (now s : ℕ) (r : SessionRecord) → lookup s p.sessions ≡ some r
    → r.user_id ≡ u
    → (get_session now s (disable_account u p).1).0 ≡ err session_revoked
unfolding disable_account
disable_account-ends_sessions u p e now s r live of_u = elim (Option-cases (lookup u p.accounts)) [
  | inl missing ↦ absurd (ground arith)
  | inr (a, found) ↦
      let disabled : Provider = record p {
        accounts = insert u (record a { disabled = true }) p.accounts;
      } in
      rw found (get_session-revoke_all now s u r disabled live of_u)
]

-- After a `disable_account` that returns, `issue_session` for the account raises AccountDisabled and
-- changes nothing.
pub disable_account-issue_session :
    (u : ℕ) (p : Provider)
    → (disable_account u p).0 ≡ ok tt
    → (now s : ℕ) (device : Option String)
    → issue_session now s u device (disable_account u p).1
      ≡ (err account_disabled, (disable_account u p).1)
unfolding disable_account issue_session
disable_account-issue_session u p e now s device = elim (Option-cases (lookup u p.accounts)) [
  | inl missing ↦ absurd (ground arith)
  | inr (a, found) ↦ rw (found, lookup-insert_self u (record a { disabled = true }) p.accounts)
]
