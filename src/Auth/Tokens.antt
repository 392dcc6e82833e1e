-- ===== src/Auth/Tokens.antt =====
-- auth/trustlist_auth/tokens.py: `TokenSigner` and its tokens. base64, hmac, json, and the printing and
-- reading of integers are a record of parameters. A moment and a lifetime are counted in microseconds,
-- a timestamp in seconds; a lifetime is not negative.
pub mod Segments
pub mod RoundTrip
pub mod Genuine
mod Examples
use Prim.Native.Char.{Char, code}
use Prim.Native.String.{[], ◌∷◌, ◌++◌}
use trustlist_core.Base.{
  ℕ, zero, suc, ◌+◌, ◌-◌, ◌*◌, ◌/◌, ◌%◌, String, Bool, true, false, not, ◌&&◌, Option, none, some,
  List, ◌==◌, String-eq, if◌then◌else◌, ltb, nat_eq,
}
use trustlist_core.Base.Json.{Json, text, object, Fields, no_fields, field, find}
use trustlist_core.Base.Result.{Result, ok, err, raise_if, or_raise, ◌>>=◌, ◌>>◌}
use trustlist_core.Auth.Errors.{
  Error, token_invalid, token_expired, value_error, type_error, unicode_error,
}

-- Python's integers
pub data ℤ : Type 0 where
  pos : ℕ → ℤ
  negsuc : ℕ → ℤ

pub record Codec : Type 1 where
  pub Bytes : Type 0
  -- `not b`
  pub is_empty : Bytes → Bool
  -- `base64.urlsafe_b64encode(b)`, decoded as ASCII, and `base64.urlsafe_b64decode(s)`, where none is
  -- a ValueError
  pub b64encode : Bytes → String
  pub b64decode : String → Option Bytes
  -- `hmac.new(secret, s.encode("ascii"), hashlib.sha256).digest()`
  pub hmac_sha256 : Bytes → String → Bytes
  -- `json.dumps(x, separators=(",", ":"), sort_keys=True).encode("utf-8")` and `json.loads(b)`
  pub dumps_sorted : Json → Bytes
  pub loads : Bytes → Option Json
  -- `str(n).encode("ascii")` and `int(b.decode("ascii"))`
  pub decimal : ℕ → Bytes
  pub read_decimal : Bytes → Option ℤ

-- `VerificationClaim`
pub record VerificationClaim : Type 0 where
  pub user_id : String
  pub email : String

-- `DEFAULT_EMAIL_TOKEN_TTL`
abbrev pub default_email_token_ttl : ℕ
default_email_token_ttl = 24 * 60 * 60 * 1000000

-- `len(s)`
unfoldable pub len : String → ℕ
len [] = 0
len (c ∷ s) = suc (len s)

-- `s.rstrip("=")`
unfoldable pub rstrip : String → String
rstrip [] = ""
rstrip (c ∷ s) = let rest = rstrip s in if nat_eq (code c) 61 && (rest == "") then "" else c ∷ rest

-- `"=" * n`
unfoldable pub pad : ℕ → String
pad zero = ""
pad (suc n) = "=" ∷ pad n

-- `-n % 4`
unfoldable pub missing_to_four : ℕ → ℕ
missing_to_four n = (4 - n % 4) % 4

-- `all(ord(c) < 128 for c in s)`, where the codec "ascii" and `compare_digest` do not raise
unfoldable pub is_ascii : String → Bool
is_ascii [] = true
is_ascii (c ∷ s) = ltb (code c) 128 && is_ascii s

-- the first piece of `s.split(".")` and the rest of the text, if there is a dot
unfoldable pub cut : String → String × Option String
cut [] = ("", none)
cut (c ∷ s) =
    let (piece, rest) = cut s in if nat_eq (code c) 46 then ("", some s) else (c ∷ piece, rest)

-- `token.split(".")`, when it has three parts; a part and the rest come from `cut`
unfoldable pub with_third :
    String → String → String × Option String → Option (String × String × String)
with_third first second (third, none) = some (first, second, third)
with_third first second (third, some rest) = none

unfoldable pub with_second : String → String × Option String → Option (String × String × String)
unfolding cut with_third
with_second first (second, none) = none
with_second first (second, some rest) = with_third first second (cut rest)

unfoldable pub with_first : String × Option String → Option (String × String × String)
unfolding cut with_second
with_first (first, none) = none
with_first (first, some rest) = with_second first (cut rest)

unfoldable pub three_parts : String → Option (String × String × String)
unfolding cut with_first
three_parts token = with_first (cut token)

-- the payload of a claim
unfoldable pub claim_dict : VerificationClaim → Json
claim_dict claim =
    object (field "user_id" (text claim.user_id) (field "email" (text claim.email) no_fields))

-- `int(expiry.timestamp())`
unfoldable pub expiry_second : ℕ → ℕ → ℕ
expiry_second moment ttl = (moment + ttl) / 1000000

-- the call of `hmac.compare_digest` and its guard
unfoldable pub check_signature : String → String → Result Error (Unit {0})
unfolding is_ascii
check_signature expected signature = do
  raise_if (not (is_ascii expected && is_ascii signature)) type_error
  raise_if (not (expected == signature)) token_invalid

-- `moment.timestamp() > expiry_ts`
unfoldable pub is_past : ℕ → ℤ → Bool
is_past moment (pos expiry) = ltb (expiry * 1000000) moment
is_past moment (negsuc n) = true

-- `payload.get(k)`, when it is text
unfoldable pub as_text : Option Json → Option String
as_text (some (text s)) = some s
as_text _ = none

unfoldable pub text_at : String → Fields → Option String
unfolding as_text
text_at k fs = as_text (find k fs)

-- the end of `verify_email_verification_token`
unfoldable pub claim_in : Json → Result Error VerificationClaim
unfolding text_at
claim_in (object fs) = do
  user_id ← or_raise (text_at "user_id" fs) token_invalid
  email ← or_raise (text_at "email" fs) token_invalid
  ok (record { user_id = user_id; email = email })
claim_in _ = err token_invalid

module _ (py : Codec) where
  -- `_b64encode`
  unfoldable pub b64encode : py.Bytes → String
  unfolding rstrip
  b64encode raw = rstrip (py.b64encode raw)

  -- `_b64decode`
  unfoldable pub b64decode : String → Option py.Bytes
  unfolding missing_to_four len pad
  b64decode s = py.b64decode (s ++ pad (missing_to_four (len s)))

  pub record TokenSigner : Type 0 where
    pub secret : py.Bytes

  -- `__init__`
  unfoldable pub new_signer : py.Bytes → Result Error TokenSigner
  new_signer secret =
      if py.is_empty secret then err value_error else ok (record { secret = secret })

  -- `_sign`
  unfoldable pub sign : TokenSigner → String → String → Result Error String
  unfolding b64encode is_ascii
  sign signer payload_b64 expiry_b64 =
      let message = payload_b64 ++ "." ∷ expiry_b64 in
      if is_ascii message
      then ok (b64encode (py.hmac_sha256 signer.secret message))
      else err unicode_error

  -- `issue_email_verification_token`
  unfoldable pub issue_email_verification_token :
      TokenSigner → VerificationClaim → ℕ → ℕ → Result Error String
  unfolding b64encode sign claim_dict expiry_second
  issue_email_verification_token signer claim ttl moment =
      let payload_b64 = b64encode (py.dumps_sorted (claim_dict claim)) in
      let expiry_b64 = b64encode (py.decimal (expiry_second moment ttl)) in
      do
        signature ← sign signer payload_b64 expiry_b64
        ok (payload_b64 ++ "." ∷ (expiry_b64 ++ "." ∷ signature))

  -- the `try`: the expiry and the payload
  unfoldable pub opened : String → String → Result Error (ℤ × Json)
  unfolding b64decode
  opened payload_b64 expiry_b64 = do
    expiry_raw ← or_raise (b64decode expiry_b64) token_invalid
    expiry ← or_raise (py.read_decimal expiry_raw) token_invalid
    payload_raw ← or_raise (b64decode payload_b64) token_invalid
    payload ← or_raise (py.loads payload_raw) token_invalid
    ok (expiry, payload)

  -- `verify_email_verification_token`
  unfoldable pub verify_email_verification_token :
      TokenSigner → String → ℕ → Result Error VerificationClaim
  unfolding three_parts sign check_signature opened is_past claim_in
  verify_email_verification_token signer token moment = do
    (payload_b64, expiry_b64, signature) ← or_raise (three_parts token) token_invalid
    expected ← sign signer payload_b64 expiry_b64
    check_signature expected signature
    (expiry, payload) ← opened payload_b64 expiry_b64
    raise_if (is_past moment expiry) token_expired
    claim_in payload
