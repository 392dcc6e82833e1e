-- ===== src/Auth/Tokens/Examples.antt =====
-- The theorems of this directory for a codec of three byte strings.
use trustlist_core.Base.{
  String, ◌≡◌, refl, false, Option, none, some, ◌==◌, String-eq, arith, if◌then◌else◌,
}
use trustlist_core.Base.Json.{text, object, Fields, no_fields, field, find}
use trustlist_core.Base.Result.{ok, ◌>>=◌}
use trustlist_core.Auth.Tokens.{
  pos, Codec, VerificationClaim, default_email_token_ttl, len, rstrip, pad, missing_to_four,
  is_ascii, cut, with_third, with_second, with_first, three_parts, expiry_second, check_signature,
  is_past, as_text, text_at, claim_in, b64encode, b64decode, TokenSigner, sign,
  issue_email_verification_token, opened, verify_email_verification_token,
}
use trustlist_core.Auth.Tokens.RoundTrip.{IsSegment, Codes, Carries, issue-verify}
use trustlist_core.Auth.Tokens.Genuine.{IsGenuine, verify-IsGenuine}

data Bytes : Type 0 where
  claim_bytes expiry_bytes mac_bytes : Bytes

abbrev ada : VerificationClaim
ada = record { user_id = "u1"; email = "ada@example.org" }

abbrev ada_fields : Fields
ada_fields = field "email" (text "ada@example.org") (field "user_id" (text "u1") no_fields)

abbrev encoded : Bytes → String
encoded claim_bytes = "QQ=="
encoded expiry_bytes = "QUI="
encoded mac_bytes = "QUJD"

abbrev decoded : String → Option Bytes
decoded s =
    if s == "QQ=="
    then some claim_bytes
    else if s == "QUI="
    then some expiry_bytes
    else if s == "QUJD"
    then some mac_bytes
    else none

abbrev codec : Codec
codec = record {
  Bytes = Bytes;
  is_empty = λ b. false;
  b64encode = encoded;
  b64decode = decoded;
  hmac_sha256 = λ secret message. mac_bytes;
  dumps_sorted = λ j. claim_bytes;
  loads = λ b. some (object ada_fields);
  decimal = λ n. expiry_bytes;
  read_decimal = λ b. some (pos 86400);
}

encoded-IsSegment : (b : Bytes) → IsSegment (encoded b)
unfolding pad len
encoded-IsSegment claim_bytes = record {
  core = "QQ";
  padding = 2;
  shape = refl;
  safe = refl;
  short = omega arith;
  whole = refl;
}
encoded-IsSegment expiry_bytes = record {
  core = "QUI";
  padding = 1;
  shape = refl;
  safe = refl;
  short = omega arith;
  whole = refl;
}
encoded-IsSegment mac_bytes = record {
  core = "QUJD";
  padding = 0;
  shape = refl;
  safe = refl;
  short = omega arith;
  whole = refl;
}

reads_back : (b : Bytes) → decoded (encoded b) ≡ some b
reads_back claim_bytes = refl
reads_back expiry_bytes = refl
reads_back mac_bytes = refl

codec-Codes : Codes codec
codec-Codes = record { segment = encoded-IsSegment; b64decode-encode = reads_back }

abbrev signer : TokenSigner codec
signer = record { secret = mac_bytes }

carried : Carries codec ada (expiry_second 5 default_email_token_ttl)
unfolding find expiry_second
carried = record { fields = ada_fields; loaded = refl; user_id = refl; email = refl; read = refl }

issue-verify_example :
    (issue_email_verification_token codec signer ada default_email_token_ttl 5 >>= λ token.
    verify_email_verification_token codec signer token 7)
    ≡ ok ada
unfolding expiry_second
issue-verify_example = issue-verify codec codec-Codes signer ada default_email_token_ttl 5 7 carried

accepted : verify_email_verification_token codec signer "QQ.QUI.QUJD" 7 ≡ ok ada
unfolding verify_email_verification_token three_parts with_first with_second with_third cut sign
    is_ascii b64encode rstrip check_signature opened b64decode missing_to_four len pad is_past
    claim_in text_at as_text find
accepted = refl

verify-IsGenuine_example : IsGenuine codec signer "QQ.QUI.QUJD" 7 ada
verify-IsGenuine_example = verify-IsGenuine codec signer "QQ.QUI.QUJD" 7 ada accepted
