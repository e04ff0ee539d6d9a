-- ===== src/Oauth/Consent.antt =====
-- services/oauth/consent.go: what a platform asks a holder for, and the holder's answer.
use Prim.Native.String.{◌++◌ as ◌++ₛ◌}
use aerarium_agentic_banking.Common.{
  ℕ, ◌+◌, String, ◌==◌, Bool, true, false, not, ◌&&◌, ◌||◌, Option, none, some, List, [], ◌∷◌, ◌++◌,
  ltb, if◌then◌else◌, Result, ok, err,
}
use aerarium_agentic_banking.Common.Int.{ℤ, ltb_ℤ}
use aerarium_agentic_banking.Common.Action.{
  ◌>>=◌, ◌>>◌, return, query, statement, raise_if, or_raise,
}
use aerarium_agentic_banking.Oauth.Store.{
  OauthError, consent_not_found, consent_resolved, consent_expired, limit_above_requested,
  statement_failed, no_entropy, ConsentStatus, consent_pending, consent_approved, consent_rejected,
  consent_expired_status, ConsentRequest, Tables, Act, is_some,
}

-- In seconds.
abbrev pub consent_request_ttl : ℕ
consent_request_ttl = 3600

abbrev pub is_pending : ConsentStatus → Bool
is_pending consent_pending = true
is_pending _ = false

unfoldable pub observed_status : ℕ → ConsentRequest → ConsentStatus
observed_status now c =
    if is_pending c.status && ltb c.expires_at now then consent_expired_status else c.status

unfoldable pub find_consent : String → List ConsentRequest → Option ConsentRequest
find_consent id [] = none
find_consent id (c ∷ l) = if c.id == id then some c else find_consent id l

pub handoff_taken : String → List ConsentRequest → Bool
handoff_taken code [] = false
handoff_taken code (c ∷ l) = (c.handoff_code == code) || handoff_taken code l

abbrev pub new_request : String → String → ℕ → ConsentRequest → ConsentRequest
new_request id handoff now req = record req {
  id = id;
  handoff_code = "csr_" ++ₛ handoff;
  status = consent_pending;
  created_at = now;
  expires_at = now + consent_request_ttl;
}

-- A new row has neither mandate nor account nor resolution.
unfoldable pub insert_consent : ConsentRequest → Tables → Result {0, 0} OauthError Unit × Tables
unfolding handoff_taken
insert_consent c t =
    if is_some (find_consent c.id t.consents) || handoff_taken c.handoff_code t.consents
    then (err statement_failed, t)
    else (
      ok tt,
      record t {
        consents =
            t.consents ++ (record c { mandate_id = ""; account_id = ""; resolved_at = none } ∷ []);
      },
    )

unfoldable pub new_consent_request :
    Option String → String → ℕ → ConsentRequest → Act ConsentRequest
new_consent_request generated id now req = do
  handoff ← or_raise no_entropy generated
  statement statement_failed (insert_consent (new_request id handoff now req))
  return (new_request id handoff now req)

-- By the code that the holder has, or the identifier that the platform has.
unfoldable pub by_id_or_handoff : String → List ConsentRequest → Option ConsentRequest
by_id_or_handoff key [] = none
by_id_or_handoff key (c ∷ l) =
    if (c.handoff_code == key) || (c.id == key) then some c else by_id_or_handoff key l

unfoldable pub find_consent_request : String → Act ConsentRequest
find_consent_request key =
    query statement_failed (λ t. by_id_or_handoff key t.consents) >>= or_raise consent_not_found

unfoldable pub by_mandate : String → List ConsentRequest → Option ConsentRequest
by_mandate mandate [] = none
by_mandate mandate (c ∷ l) = if c.mandate_id == mandate then some c else by_mandate mandate l

unfoldable pub consent_for_mandate : (String → Bool) → String → Act ConsentRequest
consent_for_mandate is_uuid mandate = do
  raise_if (not (is_uuid mandate)) consent_not_found
  found ← query statement_failed (λ t. by_mandate mandate t.consents)
  or_raise consent_not_found found

-- No limit asked for is exceeded by nothing; no limit granted exceeds any that was asked for.
abbrev pub exceeds : Option ℤ → Option ℤ → Bool
exceeds granted none = false
exceeds none (some requested) = true
exceeds (some granted) (some requested) = ltb_ℤ requested granted

unfoldable pub check_limits : ConsentRequest → Option ℤ → Option ℤ → Option OauthError
check_limits c per_operation total =
    if exceeds per_operation c.requested_max_per_operation
    then some limit_above_requested
    else if exceeds total c.requested_max_total
    then some limit_above_requested
    else none

unfoldable pub by_status : ConsentRequest → Option ℤ → Option ℤ → ConsentStatus → Option OauthError
unfolding check_limits
by_status c per_operation total consent_pending = check_limits c per_operation total
by_status c per_operation total consent_expired_status = some consent_expired
by_status c per_operation total _ = some consent_resolved

-- `nil`, or the error.
unfoldable pub check_grantable : ℕ → ConsentRequest → Option ℤ → Option ℤ → Option OauthError
unfolding by_status
check_grantable now c per_operation total = by_status c per_operation total (observed_status now c)

-- `UPDATE … WHERE id = $1 AND status = 'PENDING'`, and whether a row was affected.
unfoldable pub resolve_rows :
    String → (ConsentRequest → ConsentRequest) → List ConsentRequest → List ConsentRequest
resolve_rows id f [] = []
resolve_rows id f (c ∷ l) =
    let rest = resolve_rows id f l in
    if (c.id == id) && is_pending c.status then f c ∷ rest else c ∷ rest

unfoldable pub has_pending : String → List ConsentRequest → Bool
has_pending id [] = false
has_pending id (c ∷ l) = ((c.id == id) && is_pending c.status) || has_pending id l

unfoldable pub resolve :
    String → (ConsentRequest → ConsentRequest) → Tables → Result {0, 0} OauthError Unit × Tables
resolve id f t =
    if has_pending id t.consents
    then (ok tt, record t { consents = resolve_rows id f t.consents })
    else (err consent_resolved, t)

abbrev pub approved_with : String → String → ℕ → ConsentRequest → ConsentRequest
approved_with mandate account now c = record c {
  status = consent_approved;
  mandate_id = mandate;
  account_id = account;
  resolved_at = some now;
}

abbrev pub rejected_at : ℕ → ConsentRequest → ConsentRequest
rejected_at now c = record c { status = consent_rejected; resolved_at = some now }

unfoldable pub approve_consent_request : ℕ → String → String → String → Act Unit
approve_consent_request now id mandate account =
    statement statement_failed (resolve id (approved_with mandate account now))

unfoldable pub reject_consent_request : ℕ → String → Act Unit
reject_consent_request now id = statement statement_failed (resolve id (rejected_at now))
