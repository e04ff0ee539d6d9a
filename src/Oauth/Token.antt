-- ===== src/Oauth/Token.antt =====
-- services/oauth/token.go: the issue and the check of a token. Bytes are texts; the base64, the
-- HMAC, the JSON of the claims and the split at the dots, all of Go's library, are parameters.
use Prim.Native.String.{◌++◌}
use aerarium_agentic_banking.Common.{
  ℕ, ◌+◌, String, ◌==◌, Bool, true, false, not, Option, none, some, List, [], ◌∷◌, ltb, contains,
  if◌then◌else◌, Result, ok, err,
}
use aerarium_agentic_banking.Common.Int.{ℤ, pos, leb_ℤ}

-- In seconds.
abbrev pub token_ttl : ℕ
token_ttl = 3600

pub record Claims : Type 0 where
  pub issuer : String
  pub subject : String
  pub scopes : List String
  pub issued_at : ℤ
  pub expires_at : ℤ
  pub token_id : String

unfoldable pub has_scope : Claims → String → Bool
has_scope c scope = contains c.scopes scope

pub data TokenError : Type 0 where
  token_malformed token_signature token_expired : TokenError

pub record Codec : Type 0 where
  pub encode : String → String
  pub decode : String → Option String
  pub hmac : String → String → String
  pub marshal : Claims → Option String
  pub unmarshal : String → Option Claims
  pub split : String → List String
  pub byte_count : String → ℕ

pub record Issuer : Type 0 where
  pub issuer : String
  pub signing_key : String
  pub previous_key : String

-- The number of bytes of a key that is too short.
unfoldable pub new_issuer : Codec → String → String → String → Result ℕ Issuer
new_issuer o issuer signing_key previous_key =
    if ltb (o.byte_count signing_key) 32
    then err (o.byte_count signing_key)
    else ok (record { issuer = issuer; signing_key = signing_key; previous_key = previous_key })

abbrev pub fixed_header : String
fixed_header = "{\"alg\":\"HS256\",\"typ\":\"JWT\"}"

unfoldable pub sign : Codec → String → String → String
sign o key input = o.encode (o.hmac key input)

abbrev pub claims_of : Issuer → ℕ → String → List String → String → Claims
claims_of i now client scopes token_id = record {
  issuer = i.issuer;
  subject = client;
  scopes = scopes;
  issued_at = pos now;
  expires_at = pos (now + token_ttl);
  token_id = token_id;
}

abbrev pub signing_input : Codec → String → String
signing_input o payload = o.encode fixed_header ++ ("." ++ o.encode payload)

unfoldable pub with_payload : Codec → Issuer → Claims → Option String → Option (String × Claims)
with_payload o i c none = none
with_payload o i c (some payload) =
    some (signing_input o payload ++ ("." ++ sign o i.signing_key (signing_input o payload)), c)

-- The token and its claims, unless these cannot be written.
unfoldable pub issue : Codec → Issuer → ℕ → String → List String → String → Option (String × Claims)
unfolding with_payload
issue o i now client scopes token_id =
    let c = claims_of i now client scopes token_id in with_payload o i c (o.marshal c)

-- The key in use, or the one before if there is one.
unfoldable pub signature_matches : Codec → Issuer → String → String → Bool
signature_matches o i input signature =
    if sign o i.signing_key input == signature
    then true
    else if i.previous_key == ""
    then false
    else sign o i.previous_key input == signature

abbrev pub is_header : Option String → Bool
is_header none = false
is_header (some h) = h == fixed_header

unfoldable pub check_claims : Issuer → ℕ → Option Claims → Result TokenError Claims
check_claims i now none = err token_malformed
check_claims i now (some c) =
    if not (c.issuer == i.issuer)
    then err token_signature
    else if leb_ℤ c.expires_at (pos now)
    then err token_expired
    else ok c

unfoldable pub check_payload : Codec → Issuer → ℕ → Option String → Result TokenError Claims
check_payload o i now none = err token_malformed
check_payload o i now (some payload) = check_claims i now (o.unmarshal payload)

unfoldable pub check_parts : Codec → Issuer → ℕ → List String → Result TokenError Claims
check_parts o i now (header ∷ payload ∷ signature ∷ []) =
    if not (is_header (o.decode header))
    then err token_malformed
    else if not (signature_matches o i (header ++ ("." ++ payload)) signature)
    then err token_signature
    else check_payload o i now (o.decode payload)
check_parts o i now _ = err token_malformed

unfoldable pub verify : Codec → Issuer → ℕ → String → Result TokenError Claims
unfolding check_parts check_payload check_claims
verify o i now token = check_parts o i now (o.split token)
