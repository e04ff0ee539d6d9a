-- ===== src/Kyc/Sim.antt =====
-- adapters/kyc/sim/sim.go: the simulated providers. The lock makes each call one step; the
-- identifiers that are generated are a parameter, one for each call that is charged.
use Prim.Native.String.{◌++◌}
use aerarium_agentic_banking.Common.{
  ℕ, suc, ◌-◌, String, ◌≡◌, refl, true, false, Option, none, some, List, [], ltb, eq_refl,
  if◌then◌else◌, Result, ok, err, Dict, lookup, insert, lookup-insert, Bool-cases, inl, inr,
}
use aerarium_agentic_banking.Kyc.Port.{
  KycError, provider_unavailable, Applicant, identity_verified, identity_rejected,
  identity_inconclusive, IdentityResult, screening_clear, screening_hit, ScreeningResult,
  IdentityVerifier, SanctionsScreener,
}

pub record SimVerifier : Type 0 where
  pub outcomes : Dict IdentityResult
  pub cache : Dict IdentityResult
  pub fail_next : ℕ
  pub calls : ℕ

unfoldable pub new_verifier : SimVerifier
new_verifier = record { outcomes = []; cache = []; fail_next = 0; calls = 0 }

unfoldable pub set_outcome : String → IdentityResult → SimVerifier → SimVerifier
set_outcome number result v = record v { outcomes = insert number result v.outcomes }

unfoldable pub fail_next_verifications : ℕ → SimVerifier → SimVerifier
fail_next_verifications n v = record v { fail_next = n }

unfoldable pub verifications : SimVerifier → ℕ
verifications v = v.calls

abbrev or_verified : Option IdentityResult → IdentityResult
or_verified (some result) = result
or_verified none = record {
  outcome = identity_verified;
  provider_ref = "";
  liveness_passed = true;
  detail = "documento válido y prueba de vida superada";
}

-- The result of a document, under the reference that this verification gets.
abbrev pub verified_as : (ℕ → String) → Applicant → SimVerifier → IdentityResult
verified_as new_id applicant v =
    record (or_verified (lookup applicant.document_number v.outcomes)) {
      provider_ref = "idv-" ++ new_id v.calls;
    }

verify_new :
    (ℕ → String) → String → Applicant → SimVerifier → Result KycError IdentityResult × SimVerifier
verify_new new_id reference applicant v =
    if ltb 0 v.fail_next
    then (err (provider_unavailable "timeout"), record v { fail_next = v.fail_next - 1 })
    else (
      ok (verified_as new_id applicant v),
      record v {
        calls = suc v.calls;
        cache = insert reference (verified_as new_id applicant v) v.cache;
      },
    )

verify_cached :
    (ℕ → String)
    → String
    → Applicant
    → Option IdentityResult
    → SimVerifier
    → Result KycError IdentityResult × SimVerifier
verify_cached new_id reference applicant (some result) v = (ok result, v)
verify_cached new_id reference applicant none v = verify_new new_id reference applicant v

unfoldable pub verify :
    (ℕ → String) → String → Applicant → SimVerifier → Result KycError IdentityResult × SimVerifier
unfolding verify_cached verify_new
verify new_id reference applicant v =
    verify_cached new_id reference applicant (lookup reference v.cache) v

unfoldable pub rejected : String → IdentityResult
rejected detail = record {
  outcome = identity_rejected;
  provider_ref = "";
  liveness_passed = false;
  detail = detail;
}

unfoldable pub inconclusive : String → IdentityResult
inconclusive detail = record {
  outcome = identity_inconclusive;
  provider_ref = "";
  liveness_passed = true;
  detail = detail;
}

pub record SimScreener : Type 0 where
  pub watchlist : Dict (List String)
  pub cache : Dict ScreeningResult
  pub fail_next : ℕ
  pub calls : ℕ

unfoldable pub new_screener : SimScreener
new_screener = record { watchlist = []; cache = []; fail_next = 0; calls = 0 }

unfoldable pub add_to_watchlist : String → List String → SimScreener → SimScreener
add_to_watchlist number lists s = record s { watchlist = insert number lists s.watchlist }

unfoldable pub fail_next_screenings : ℕ → SimScreener → SimScreener
fail_next_screenings n s = record s { fail_next = n }

unfoldable pub screenings : SimScreener → ℕ
screenings s = s.calls

abbrev pub screened_as : String → Option (List String) → ScreeningResult
screened_as reference none = record {
  outcome = screening_clear;
  provider_ref = reference;
  lists = [];
  detail = "sin coincidencias";
}
screened_as reference (some lists) = record {
  outcome = screening_hit;
  provider_ref = reference;
  lists = lists;
  detail = "coincidencia por nombre y documento";
}

abbrev screening_of : (ℕ → String) → Applicant → SimScreener → ScreeningResult
screening_of new_id applicant s =
    screened_as ("scr-" ++ new_id s.calls) (lookup applicant.document_number s.watchlist)

screen_new :
    (ℕ → String) → String → Applicant → SimScreener → Result KycError ScreeningResult × SimScreener
screen_new new_id reference applicant s =
    if ltb 0 s.fail_next
    then (err (provider_unavailable "timeout"), record s { fail_next = s.fail_next - 1 })
    else (
      ok (screening_of new_id applicant s),
      record s {
        calls = suc s.calls;
        cache = insert reference (screening_of new_id applicant s) s.cache;
      },
    )

screen_cached :
    (ℕ → String)
    → String
    → Applicant
    → Option ScreeningResult
    → SimScreener
    → Result KycError ScreeningResult × SimScreener
screen_cached new_id reference applicant (some result) s = (ok result, s)
screen_cached new_id reference applicant none s = screen_new new_id reference applicant s

unfoldable pub screen :
    (ℕ → String) → String → Applicant → SimScreener → Result KycError ScreeningResult × SimScreener
unfolding screen_cached screen_new
screen new_id reference applicant s =
    screen_cached new_id reference applicant (lookup reference s.cache) s

-- The simulations as the two interfaces.
abbrev pub sim_verifier : (ℕ → String) → IdentityVerifier
sim_verifier new_id = record { State = SimVerifier; name = "sim-identity"; verify = verify new_id }

abbrev pub sim_screener : (ℕ → String) → SanctionsScreener
sim_screener new_id = record { State = SimScreener; name = "sim-screening"; screen = screen new_id }

verify_new_kept :
    (new_id : ℕ → String) (reference : String) (applicant : Applicant) (v : SimVerifier)
    {result : IdentityResult}
    → (verify_new new_id reference applicant v).0 ≡ ok result
    → lookup reference (verify_new new_id reference applicant v).1.cache ≡ some result
unfolding verify_new
verify_new_kept new_id reference applicant v {result} h = elim (Bool-cases (ltb 0 v.fail_next)) [
  | inl down ↦ let z = rw down at h in cc
  | inr up ↦ let z = rw up at h in rw (up, lookup-insert, eq_refl) cc
]

verify_cached_kept :
    (new_id : ℕ → String) (reference : String) (applicant : Applicant) (o : Option IdentityResult)
    (v : SimVerifier) {result : IdentityResult}
    → lookup reference v.cache ≡ o
    → (verify_cached new_id reference applicant o v).0 ≡ ok result
    → lookup reference (verify_cached new_id reference applicant o v).1.cache ≡ some result
unfolding verify_cached
verify_cached_kept new_id reference applicant (some r) v k h = cc
verify_cached_kept new_id reference applicant none v k h =
    verify_new_kept new_id reference applicant v h

-- A verification that was answered is answered again in the same way under its reference, whoever
-- the applicant is then, and the provider, its count of charged calls included, does not change.
pub verify_again :
    (new_id : ℕ → String) (reference : String) (applicant other : Applicant) (v : SimVerifier)
    {result : IdentityResult}
    → (verify new_id reference applicant v).0 ≡ ok result
    → verify new_id reference other (verify new_id reference applicant v).1
      ≡ (ok result, (verify new_id reference applicant v).1)
unfolding verify
verify_again new_id reference applicant other v h =
    rw (verify_cached_kept new_id reference applicant _ v refl h) refl
