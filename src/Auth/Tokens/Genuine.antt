-- ===== src/Auth/Tokens/Genuine.antt =====
-- What a token must be to be accepted.
use Prim.Native.String.{◌∷◌, ◌++◌}
use trustlist_core.Base.{
  ℕ, String, ◌≡◌, refl, ap, ◌∙◌, Bool, true, false, not, ◌&&◌, some, ◌==◌, String-eq, ==_iff, arith,
}
use trustlist_core.Base.Json.{Json}
use trustlist_core.Base.Result.{ok, err, raise_if, or_raise, split_ok, or_raise-ok}
use trustlist_core.Auth.Errors.{
  Error, token_invalid, token_expired, type_error, unicode_error, is_auth_error,
}
use trustlist_core.Auth.Tokens.{
  ℤ, Codec, VerificationClaim, is_ascii, three_parts, check_signature, is_past, claim_in,
  TokenSigner, sign, opened, verify_email_verification_token,
}

-- What a token that verified has: three parts, of which the last is the signature of the others, an
-- expiry that has not passed, and a payload that holds the claim.
pub record IsGenuine (py : Codec) (signer : TokenSigner py) (token : String) (moment : ℕ)
    (claim : VerificationClaim) : Type 0 where
  pub payload_b64 : String
  pub expiry_b64 : String
  pub signature : String
  pub expiry : ℤ
  pub payload : Json
  pub parts : three_parts token ≡ some (payload_b64, expiry_b64, signature)
  pub signed : sign py signer payload_b64 expiry_b64 ≡ ok signature
  pub read : opened py payload_b64 expiry_b64 ≡ ok (expiry, payload)
  pub not_past : is_past moment expiry ≡ false
  pub claimed : claim_in payload ≡ ok claim

raise_if-ok : (b : Bool) (raised : Error) → raise_if b raised ≡ ok tt → b ≡ false
raise_if-ok true raised returned = cc
raise_if-ok false raised returned = refl

check_signature-ok :
    (expected signature : String)
    → check_signature expected signature ≡ ok tt
    → expected ≡ signature
unfolding check_signature
check_signature-ok expected signature returned =
    let (done, guarded, compared) =
      split_ok (raise_if (not (is_ascii expected && is_ascii signature)) type_error) _ tt
        returned in
    ground (
      arith,
      raise_if-ok (not (expected == signature)) token_invalid compared,
      ==_iff expected signature,
    )

-- Only a signed token is accepted: if `verify_email_verification_token` returns a claim, the token has
-- three parts, its third part is the signature of the first two under the signer's secret, its expiry
-- has not passed, and its payload holds the claim.
pub verify-IsGenuine :
    (py : Codec) (signer : TokenSigner py) (token : String) (moment : ℕ) (claim : VerificationClaim)
    → verify_email_verification_token py signer token moment ≡ ok claim
    → IsGenuine py signer token moment claim
unfolding verify_email_verification_token
verify-IsGenuine py signer token moment claim b0 =
    let ((a, b, signature), x1, b1) =
      split_ok (or_raise (three_parts token) token_invalid) _ claim b0 in
    let (expected, x2, b2) = split_ok (sign py signer a b) _ claim b1 in
    let (checked, x3, b3) = split_ok (check_signature expected signature) _ claim b2 in
    let ((expiry, payload), x4, b4) = split_ok (opened py a b) _ claim b3 in
    let (current, x5, b5) = split_ok (raise_if (is_past moment expiry) token_expired) _ claim b4 in
    record {
      payload_b64 = a;
      expiry_b64 = b;
      signature = signature;
      expiry = expiry;
      payload = payload;
      parts = or_raise-ok (three_parts token) token_invalid (a, b, signature) x1;
      signed = x2 ∙ ap ok (check_signature-ok expected signature x3);
      read = x4;
      not_past = raise_if-ok (is_past moment expiry) token_expired x5;
      claimed = b5;
    }

-- A token with three parts, of which the first two have a character outside ASCII, raises
-- UnicodeEncodeError, which is no error of the library.
pub verify-unicode :
    (py : Codec) (signer : TokenSigner py) (token a b signature : String) (moment : ℕ)
    → three_parts token ≡ some (a, b, signature)
    → is_ascii (a ++ "." ∷ b) ≡ false
    → (verify_email_verification_token py signer token moment ≡ err unicode_error)
      × (is_auth_error unicode_error ≡ false)
unfolding verify_email_verification_token sign is_auth_error
verify-unicode py signer token a b signature moment parts outside = (rw (parts, outside) refl, refl)
