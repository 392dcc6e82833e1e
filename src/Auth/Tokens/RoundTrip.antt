-- ===== src/Auth/Tokens/RoundTrip.antt =====
-- A token that was issued is accepted until it expires, and only signed tokens are accepted.
use Prim.Native.String.{◌∷◌, ◌++◌}
use trustlist_core.Base.{
  ℕ, ◌+◌, ◌*◌, ◌%◌, ◌≤◌, String, ◌≡◌, refl, sym, ap, ◌∙◌, true, some, String-eq, ==_iff,
  if◌then◌else◌, ltb, arith,
}
use trustlist_core.Base.Json.{Json, text, object, Fields, find}
use trustlist_core.Base.Result.{ok, err, ◌>>=◌}
use trustlist_core.Auth.Errors.{token_expired}
use trustlist_core.Auth.Tokens.{
  pos, Codec, VerificationClaim, len, pad, missing_to_four, rstrip, three_parts, with_first,
  with_second, with_third, claim_dict, expiry_second, check_signature, is_past, as_text, text_at,
  claim_in, b64encode, b64decode, TokenSigner, sign, issue_email_verification_token, opened,
  verify_email_verification_token,
}
use trustlist_core.Auth.Tokens.Segments.{
  all_safe, rstrip-append, missing_lem, cut-dot, cut-safe, is_ascii-safe, is_ascii-dot,
}

-- A text of URL-safe base64: letters of its alphabet, padded to a multiple of four.
pub record IsSegment (s : String) : Type 0 where
  pub core : String
  pub padding : ℕ
  pub shape : s ≡ core ++ pad padding
  pub safe : all_safe core ≡ true
  pub short : padding ≤ 2
  pub whole : (len core + padding) % 4 ≡ 0

-- base64 writes such texts, and reads what it writes.
pub record Codes (py : Codec) : Type 1 where
  pub segment : (raw : py.Bytes) → IsSegment (py.b64encode raw)
  pub b64decode-encode : (raw : py.Bytes) → py.b64decode (py.b64encode raw) ≡ some raw

-- json reads the dict of a claim that it wrote, and `int` the number that `str` wrote.
pub record Carries (py : Codec) (claim : VerificationClaim) (expiry : ℕ) : Type 1 where
  pub fields : Fields
  pub loaded : py.loads (py.dumps_sorted (claim_dict claim)) ≡ some (object fields)
  pub user_id : find "user_id" fields ≡ some (text claim.user_id)
  pub email : find "email" fields ≡ some (text claim.email)
  pub read : py.read_decimal (py.decimal expiry) ≡ some (pos expiry)

module _ (py : Codec) (codes : Codes py) where
  b64encode-core : (raw : py.Bytes) → b64encode py raw ≡ (codes.segment raw).core
  unfolding b64encode
  b64encode-core raw =
      let s = codes.segment raw in ap rstrip s.shape ∙ rstrip-append s.core s.padding s.safe

  b64encode-safe : (raw : py.Bytes) → all_safe (b64encode py raw) ≡ true
  b64encode-safe raw = ap all_safe (b64encode-core raw) ∙ (codes.segment raw).safe

  -- `_b64decode` reads what `_b64encode` writes: the padding that was stripped is put back.
  pub b64decode-b64encode : (raw : py.Bytes) → b64decode py (b64encode py raw) ≡ some raw
  unfolding b64decode
  b64decode-b64encode raw =
      let s = codes.segment raw in
      ap (λ t. py.b64decode (t ++ pad (missing_to_four (len t)))) (b64encode-core raw)
      ∙ ap (λ n. py.b64decode (s.core ++ pad n))
          (missing_lem (len s.core) s.padding s.short s.whole)
      ∙ ap py.b64decode (sym s.shape)
      ∙ codes.b64decode-encode raw

  module _ (signer : TokenSigner py) where
    abbrev mac : String → String → String
    mac a b = b64encode py (py.hmac_sha256 signer.secret (a ++ "." ∷ b))

    sign-safe :
        (a b : String) → all_safe a ≡ true → all_safe b ≡ true → sign py signer a b ≡ ok (mac a b)
    unfolding sign
    sign-safe a b safe_a safe_b = rw (is_ascii-dot a b safe_a (is_ascii-safe b safe_b)) refl

    three_parts-safe :
        (a b c : String)
        → all_safe a ≡ true
        → all_safe b ≡ true
        → all_safe c ≡ true
        → three_parts (a ++ "." ∷ (b ++ "." ∷ c)) ≡ some (a, b, c)
    unfolding three_parts with_first with_second with_third
    three_parts-safe a b c safe_a safe_b safe_c =
        ap with_first (cut-dot a (b ++ "." ∷ c) safe_a)
        ∙ ap (with_second a) (cut-dot b c safe_b)
        ∙ ap (with_third a b) (cut-safe c safe_c)

    check_signature-same : (s : String) → all_safe s ≡ true → check_signature s s ≡ ok tt
    unfolding check_signature
    check_signature-same s safe = ground (arith, is_ascii-safe s safe, ==_iff s s)

    opened-issued :
        (claim : VerificationClaim) (expiry : ℕ) (carries : Carries py claim expiry)
        → opened py
            (b64encode py (py.dumps_sorted (claim_dict claim)))
            (b64encode py (py.decimal expiry))
          ≡ ok (pos expiry, object carries.fields)
    unfolding opened
    opened-issued claim expiry carries =
        rw
          (
            b64decode-b64encode (py.decimal expiry),
            carries.read,
            b64decode-b64encode (py.dumps_sorted (claim_dict claim)),
            carries.loaded,
          )
          refl

    claim_in-fields :
        (claim : VerificationClaim) (expiry : ℕ) (carries : Carries py claim expiry)
        → claim_in (object carries.fields) ≡ ok claim
    unfolding claim_in text_at as_text
    claim_in-fields claim expiry carries = rw (carries.user_id, carries.email) refl

    verify-signed :
        (a b : String) (expiry : ℕ) (payload : Json) (claim : VerificationClaim) (later : ℕ)
        → all_safe a ≡ true
        → all_safe b ≡ true
        → opened py a b ≡ ok (pos expiry, payload)
        → claim_in payload ≡ ok claim
        → verify_email_verification_token py signer (a ++ "." ∷ (b ++ "." ∷ mac a b)) later
          ≡ (if ltb (expiry * 1000000) later then err token_expired else ok claim)
    unfolding verify_email_verification_token is_past
    verify-signed a b expiry payload claim later safe_a safe_b reads claimed =
        let safe_mac = b64encode-safe (py.hmac_sha256 signer.secret (a ++ "." ∷ b)) in
        rw
          (
            three_parts-safe a b (mac a b) safe_a safe_b safe_mac,
            sign-safe a b safe_a safe_b,
            check_signature-same (mac a b) safe_mac,
            reads,
            claimed,
          )
          (ground arith)

    -- Issuing a token never fails, and the token verifies to the claim that it was issued for until
    -- its expiry, the moment of issue plus the lifetime, cut to whole seconds; after that it raises
    -- TokenExpired. base64 has to write segments that it reads, and json and int to read the claim
    -- and the expiry that they wrote.
    pub issue-verify :
        (claim : VerificationClaim) (ttl moment later : ℕ)
        → Carries py claim (expiry_second moment ttl)
        → (issue_email_verification_token py signer claim ttl moment >>= λ token.
            verify_email_verification_token py signer token later)
          ≡ (if ltb (expiry_second moment ttl * 1000000) later then err token_expired else ok claim)
    unfolding issue_email_verification_token
    issue-verify claim ttl moment later carries =
        let expiry = expiry_second moment ttl in
        let a = b64encode py (py.dumps_sorted (claim_dict claim)) in
        let b = b64encode py (py.decimal expiry) in
        let safe_a = b64encode-safe (py.dumps_sorted (claim_dict claim)) in
        let safe_b = b64encode-safe (py.decimal expiry) in
        rw (sign-safe a b safe_a safe_b) (
          verify-signed a b expiry (object carries.fields) claim later safe_a safe_b
            (opened-issued claim expiry carries) (claim_in-fields claim expiry carries))
