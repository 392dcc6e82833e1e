-- ===== src/Auth/External.antt =====
-- What the authentication library calls and this repository does not contain: argon2-cffi, pyotp,
-- and those methods of Python's `str` that rest on Unicode tables. The random salt, secret and UUID
-- and the reading of the clock are arguments of the calls that draw them.
use trustlist_core.Base.{ℕ, String, Bool, ◌≡◌}

-- What argon2's `PasswordHasher.verify` does: return, or raise one of the three exceptions.
pub data Verification : Type 0 where
  verified verify_mismatch verification_error invalid_hash : Verification

pub record External : Type 0 where
  -- `PasswordHasher.hash`, with the salt that it draws
  pub argon2_hash : ℕ → String → String
  -- `PasswordHasher.verify` and `check_needs_rehash`
  pub argon2_verify : String → String → Verification
  pub argon2_needs_rehash : String → Bool
  -- `pyotp.random_base32`, by the random number that it draws
  pub random_base32 : ℕ → String
  -- `pyotp.TOTP(secret, …).provisioning_uri(name, issuer_name)`
  pub totp_provisioning_uri : String → String → String → String
  -- `pyotp.TOTP(secret, …).verify(code, valid_window)` at a time
  pub totp_verify : String → String → ℕ → ℕ → Bool
  -- `s.lower()`, `s.strip().replace(" ", "")`, `s.isdigit()`
  pub lower : String → String
  pub without_spaces : String → String
  pub is_digit : String → Bool

-- argon2-cffi documents that a password verifies against each of its own hashes.
pub record HashVerifies (x : External) : Type 0 where
  pub verifies :
      (salt : ℕ) (p : String) → x.argon2_verify (x.argon2_hash salt p) p ≡ Verification.verified
