-- ===== src/Auth/Provider/Protocol/SecondFactor.antt =====
-- auth/trustlist_auth/fake_provider.py: the methods on the second factor, against the protocol.
use trustlist_core.Base.{
  ℕ, String, ◌≡◌, refl, sym, subst, ◌∙◌, true, some, arith, ℕ-eq, String-eq, Pair-eq, Bool-cases,
  Option-cases, inl, inr,
}
use trustlist_core.Base.Dict.{lookup, has, lookup-insert_self}
use trustlist_core.Base.Result.{ok, err, ok_injective}
use trustlist_core.Auth.Errors.{totp_not_enrolled, totp_already_enrolled}
use trustlist_core.Auth.Rbac.Model.{Archetype, Archetype-eq}
use trustlist_core.Auth.External.{External}
use trustlist_core.Auth.Provider as Provider
use trustlist_core.Auth.Provider.{Account, SessionRecord, Session, ProviderUser}
use trustlist_core.Auth.Provider.Credentials as Credentials
use trustlist_core.Auth.Provider.Flows.{enrol-verify}
use trustlist_core.Auth.Provider.Protocol.{TotpLaws}
use trustlist_core.Auth.Provider.Protocol.InMemory.{in_memory_provider, in_memory_insight}
use trustlist_core.Auth.Provider.Protocol.Accounts.{register_free, new_account}

module _ (x : External) (s : Provider.Provider) where
  not_enrolled :
      (salt u now : ℕ) (a : Archetype) (email password code : String) (user : ProviderUser)
      → (Credentials.register x salt u a email password s).0 ≡ ok user
      → (Credentials.verify_totp x now user.user_id code
          (Credentials.register x salt u a email password s).1).0
        ≡ err totp_not_enrolled
  unfolding Credentials.register Credentials.verify_totp Credentials.verify_with Provider.account
  not_enrolled salt u now a email password code user e =
      elim (Bool-cases (has (a, x.lower email) s.email_index)) [
        | inl found ↦ absurd (ground arith)
        | inr free ↦
            subst
              (λ v.
                (Credentials.verify_totp x now v.user_id code
                  (Credentials.register x salt u a email password s).1).0
                ≡ err totp_not_enrolled)
              (ok_injective (sym (register_free x s salt u a email password free) ∙ e))
              (rw (free, lookup-insert_self u (new_account x s salt u a email password) s.accounts)
                refl)
      ]

  enrolled :
      (random u : ℕ) (user : ProviderUser)
      → (Provider.get_user u s).0 ≡ ok user
      → user.totp_enrolled ≡ true
      → (Credentials.enrol_totp x random u s).0 ≡ err totp_already_enrolled
  unfolding Provider.get_user Provider.account Credentials.enrol_totp
  enrolled random u user e on = elim (Option-cases (lookup u s.accounts)) [
    | inl missing ↦ absurd (ground (arith, e, missing))
    | inr (a, found) ↦ ground (arith, e, found, on)
  ]

  completed :
      (now u : ℕ) (code : String)
      → (Credentials.verify_totp x now u code s).0 ≡ ok true
      → (user : ProviderUser) × ((Provider.get_user u (Credentials.verify_totp x now u code s).1).0
          ≡ ok user)
        × (user.totp_enrolled ≡ true)
  unfolding Credentials.verify_totp Credentials.verify_with Provider.account Provider.store_account
      Provider.get_user
  completed now u code e = elim (Option-cases (lookup u s.accounts)) [
    | inl missing ↦ absurd (ground (arith, e, missing))
    | inr (a, found) ↦ elim (Option-cases a.totp_secret) [
      | inl none_stored ↦ absurd (ground (arith, e, found, none_stored))
      | inr (secret, stored) ↦
          elim (Bool-cases
            (Credentials.verify_code x now secret code Credentials.default_valid_window)) [
              | inr wrong ↦ absurd (ground (arith, e, found, stored, wrong))
              | inl right ↦ (
                Provider.account_view (record a { totp_confirmed = true }),
                rw
                    (
                      found,
                      stored,
                      right,
                      lookup-insert_self u
                          (record a { totp_secret = some secret; totp_confirmed = true })
                          s.accounts,
                    )
                    refl,
                refl,
              )
            ]
    ]
  ]

pub in_memory-TotpLaws : (x : External) → TotpLaws (in_memory_provider x) (in_memory_insight x)
unfolding in_memory_provider in_memory_insight
in_memory-TotpLaws x = record {
  not_enrolled =
      λ salt u now a email password code s. not_enrolled x s salt u now a email password code;
  pending = λ random now u code s. enrol-verify x random now u code s;
  enrolled = λ random u s. enrolled x s random u;
  completed = λ now u code s. completed x s now u code;
}
