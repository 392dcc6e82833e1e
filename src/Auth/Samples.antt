-- ===== src/Auth/Samples.antt =====
-- Concrete test data: stand-ins for the third-party functions, one account and one session.
use trustlist_core.Base.{true, false, none, [], ◌∷◌, ◌==◌, ==_iff, String-eq, if◌then◌else◌, arith}
use trustlist_core.Auth.Rbac.Model.{operator}
use trustlist_core.Auth.Database.{ColumnTypes}
use trustlist_core.Auth.External.{External, HashVerifies, verified, verify_mismatch}
use trustlist_core.Auth.Provider.{Account, SessionRecord, Provider}

-- A password is its own hash, the one valid code is "123456", and the lower case of one address is
-- known.
abbrev pub sample : External
sample = record {
  argon2_hash = λ salt p. p;
  argon2_verify = λ stored p. if stored == p then verified else verify_mismatch;
  argon2_needs_rehash = λ stored. false;
  random_base32 = λ n. "JBSWY3DPEHPK3PXP";
  totp_provisioning_uri = λ secret name issuer. "otpauth://totp/TrustList";
  totp_verify = λ secret candidate window now. candidate == "123456";
  lower = λ s. if s == "Ada@Example.org" then "ada@example.org" else s;
  without_spaces = λ s. s;
  is_digit = λ s. true;
}

pub sample-HashVerifies : HashVerifies sample
sample-HashVerifies = record { verifies = λ salt p. ground (arith, ==_iff p p) }

abbrev pub ada : Account
ada = record {
  user_id = 1;
  archetype = operator;
  email = "Ada@Example.org";
  password_hash = "correct horse";
  email_verified = false;
  disabled = false;
  totp_secret = none;
  totp_confirmed = false;
}

abbrev pub no_accounts : Provider
no_accounts = record { session_ttl = 100; accounts = []; email_index = []; sessions = [] }

abbrev pub one_account : Provider
one_account = record no_accounts {
  accounts = (1, ada) ∷ [];
  email_index = ((operator, "ada@example.org"), 1) ∷ [];
}

abbrev pub session_record : SessionRecord
session_record = record {
  session_id = 50;
  user_id = 1;
  archetype = operator;
  issued_at = 10;
  expires_at = 110;
  device_fingerprint = none;
  revoked = false;
}

abbrev pub one_session : Provider
one_session = record one_account { sessions = (50, session_record) ∷ [] }

-- Columns that take every text.
abbrev pub all_readable : ColumnTypes
all_readable = record { is_inet = λ s. true; is_jsonb = λ details. true; is_text = λ s. true }
