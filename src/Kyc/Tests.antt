-- ===== src/Kyc/Tests.antt =====
-- A verification that comes again under its reference.
use aerarium_agentic_banking.Common.{ℕ, String, ◌≡◌, refl, true, ok}
use aerarium_agentic_banking.Kyc.Port.{Applicant, IdentityResult, identity_verified}
use aerarium_agentic_banking.Kyc.Sim.{new_verifier, verify, verify_again}

abbrev ana : Applicant
ana = record {
  full_name = "Ana";
  document_type = "DNI";
  document_number = "44";
  date_of_birth = 9000;
  country_code = "PE";
}

abbrev numbered : ℕ → String
numbered n = "x"

abbrev found_valid : IdentityResult
found_valid = record {
  outcome = identity_verified;
  provider_ref = "idv-x";
  liveness_passed = true;
  detail = "documento válido y prueba de vida superada";
}

first_answer : (verify numbered "app:1" ana new_verifier).0 ≡ ok found_valid
unfolding verify new_verifier
first_answer = refl

verify_again_example :
    verify numbered "app:1" ana (verify numbered "app:1" ana new_verifier).1
    ≡ (ok found_valid, (verify numbered "app:1" ana new_verifier).1)
verify_again_example = verify_again numbered "app:1" ana ana new_verifier first_answer
