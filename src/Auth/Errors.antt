-- ===== src/Auth/Errors.antt =====
-- auth/trustlist_auth/errors.py: the exceptions of the library, and the exceptions of Python and of
-- the database driver that its methods let through. Messages are not modelled.
use trustlist_core.Base.{Bool, true, false}

-- The constructors up to `role_scope_error` are the classes of errors.py, `auth_error` the base
-- class itself.
pub data Error : Type 0 where
  auth_error authentication_failed account_disabled email_not_verified : Error
  session_not_found session_revoked : Error
  totp_not_enrolled totp_already_enrolled totp_verification_failed : Error
  token_invalid token_expired : Error
  unknown_role unknown_permission role_scope_error : Error
  value_error key_error type_error unicode_error integrity_error data_error : Error

-- `isinstance(exc, AuthError)`
unfoldable pub is_auth_error : Error → Bool
is_auth_error value_error = false
is_auth_error key_error = false
is_auth_error type_error = false
is_auth_error unicode_error = false
is_auth_error integrity_error = false
is_auth_error data_error = false
is_auth_error _ = true
