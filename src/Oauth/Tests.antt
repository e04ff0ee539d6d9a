-- ===== src/Oauth/Tests.antt =====
-- A token, a rotation of a secret, and a request that is answered.
use aerarium_agentic_banking.Common.{
  ◌+◌, ◌≤◌, String, ◌≡◌, ◌≢◌, ◌↔◌, refl, inr, true, none, some, [], ◌∷◌, arith, eq_iff, ltb,
  if◌then◌else◌, ok, err,
}
use aerarium_agentic_banking.Common.Int.{pos}
use aerarium_agentic_banking.Common.Action.{healthy}
use aerarium_agentic_banking.Oauth.Token.{
  token_ttl, Claims, token_expired, Codec, Issuer, fixed_header, claims_of, issue, sign,
  signature_matches, check_claims, check_payload, check_parts, verify,
}
use aerarium_agentic_banking.Oauth.Verified.{ReadsBack, IsAccepted, issue-verify, verify-IsAccepted}
use aerarium_agentic_banking.Oauth.Store.{
  ClientRow, Tables, ConsentRequest, consent_pending, find_row, bad_secret, authenticate,
  rotate_secret, secret_grace_window,
}
use aerarium_agentic_banking.Oauth.Consent.{
  check_grantable, approve_consent_request, reject_consent_request,
}
use aerarium_agentic_banking.Oauth.Secrets.{rotate_secret_window}
use aerarium_agentic_banking.Oauth.Resolved.{
  NotMore, check_grantable_iff, Answered, here, next, rejected, Calls-Answered,
}

abbrev bank : Issuer
bank = record { issuer = "bank"; signing_key = "new"; previous_key = "old" }

abbrev before : Issuer
before = record { issuer = "bank"; signing_key = "old"; previous_key = "" }

abbrev claims : Claims
claims = claims_of before 100 "mercatus" ("accounts" ∷ []) "t1"

-- A codec that knows one token.
abbrev codec : Codec
codec = record {
  encode = λ b. b;
  decode = λ s. some s;
  hmac = λ key input. "mac";
  marshal = λ c. some "claims";
  unmarshal = λ s. some claims;
  split = λ s. fixed_header ∷ "claims" ∷ "mac" ∷ [];
  byte_count = λ s. 32;
}

reads : ReadsBack codec claims "claims" "mac"
reads = record {
  decode_header = refl;
  decode_payload = refl;
  split_parts = refl;
  unmarshal_payload = refl;
}

old_not_empty : ◌≢◌ {A = String} "old" ""
old_not_empty = ground (arith, eq_iff "old" "")

-- Signed with the key that has since become the one before.
issue-verify_example :
    (token : String) × (c : Claims) × (issue codec before 100 "mercatus" ("accounts" ∷ []) "t1"
      ≡ some (token, c))
    × (verify codec bank 200 token
        ≡ (if ltb 200 (100 + token_ttl) then ok c else err token_expired))
issue-verify_example =
    issue-verify codec before bank 100 200 "mercatus" ("accounts" ∷ []) "t1" refl reads refl
      (inr (old_not_empty, refl))

accepted : verify codec bank 200 "any" ≡ ok claims
unfolding verify check_parts check_payload check_claims signature_matches sign
accepted = refl

verify-IsAccepted_example : IsAccepted codec bank 200 "any" claims
verify-IsAccepted_example = verify-IsAccepted codec bank 200 "any" accepted

abbrev mercatus : ClientRow
mercatus = record {
  client = record {
    id = "mercatus";
    name = "Mercatus";
    scopes = "accounts" ∷ [];
    master_account_id = "";
    active = true;
  };
  secret_hash = "one";
  previous_secret_hash = none;
  previous_expires_at = none;
}

abbrev asked : ConsentRequest
asked = record {
  id = "c1";
  client_id = "mercatus";
  handoff_code = "csr_1";
  requested_max_per_operation = some (pos 50);
  requested_max_total = none;
  currency = "USD";
  purpose = "shopping";
  agent_id = "";
  agent_name = "";
  status = consent_pending;
  mandate_id = "";
  account_id = "";
  created_at = 10;
  expires_at = 3610;
  resolved_at = none;
}

abbrev tables : Tables
tables = record { clients = mercatus ∷ []; accounts = []; consents = asked ∷ [] }

mercatus_found : find_row "mercatus" (mercatus ∷ []) ≡ some mercatus
unfolding find_row
mercatus_found = refl

one_not_two : ◌≢◌ {A = String} "one" "two"
one_not_two = ground (arith, eq_iff "one" "two")

rotate_secret_window_example :
    ((rotate_secret (λ s. s) (some "two") 100 "mercatus" (healthy tables)).0 ≡ ok "two")
    × ((authenticate
          (λ s. s)
          700000
          "mercatus"
          "two"
          (rotate_secret (λ s. s) (some "two") 100 "mercatus" (healthy tables)).1).0
        ≡ ok mercatus.client)
    × ((authenticate
          (λ s. s)
          700000
          "mercatus"
          "one"
          (rotate_secret (λ s. s) (some "two") 100 "mercatus" (healthy tables)).1).0
        ≡ (if ltb (100 + secret_grace_window) 700000 then err bad_secret else ok mercatus.client))
rotate_secret_window_example =
    rotate_secret_window (λ s. s) tables "mercatus" "one" "two" 100 700000 mercatus_found refl refl
      one_not_two

check_grantable_iff_example : (check_grantable 20 asked (some (pos 40)) none ≡ none) ↔ (
    (asked.status ≡ consent_pending)
    × (20 ≤ asked.expires_at)
    × (NotMore (some (pos 40)) (some (pos 50)) × NotMore none none))
check_grantable_iff_example = check_grantable_iff 20 asked (some (pos 40)) none

abbrev answered : Tables
answered = (approve_consent_request 30 "c1" "m1" "a1" (healthy tables)).1.state

abbrev again : Tables
again = (reject_consent_request 40 "c1" (healthy answered)).1.state

Calls-Answered_example : Answered answered.consents again.consents
Calls-Answered_example = Calls-Answered (next here (rejected [] 40 "c1"))
