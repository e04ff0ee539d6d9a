-- ===== src/Kyc/Port.antt =====
-- adapters/kyc/port.go: what a provider of identity checks and one of screenings answer.
use aerarium_agentic_banking.Common.{ℕ, String, Bool, List, Result}

-- `ErrProviderUnavailable`, wrapped, or another failure.
pub data KycError : Type 0 where
  provider_unavailable : String → KycError
  provider_failed : String → KycError

-- The date of birth as a number of days.
pub record Applicant : Type 0 where
  pub full_name : String
  pub document_type : String
  pub document_number : String
  pub date_of_birth : ℕ
  pub country_code : String

pub data IdentityOutcome : Type 0 where
  identity_verified identity_rejected identity_inconclusive : IdentityOutcome

abbrev pub identity_text : IdentityOutcome → String
identity_text identity_verified = "verified"
identity_text identity_rejected = "rejected"
identity_text identity_inconclusive = "inconclusive"

pub record IdentityResult : Type 0 where
  pub outcome : IdentityOutcome
  pub provider_ref : String
  pub liveness_passed : Bool
  pub detail : String

pub data ScreeningOutcome : Type 0 where
  screening_clear screening_hit : ScreeningOutcome

abbrev pub screening_text : ScreeningOutcome → String
screening_text screening_hit = "hit"
screening_text screening_clear = "clear"

pub record ScreeningResult : Type 0 where
  pub outcome : ScreeningOutcome
  pub provider_ref : String
  pub lists : List String
  pub detail : String

-- The two interfaces, with the state that the provider keeps.
pub record IdentityVerifier : Type 1 where
  pub State : Type 0
  pub name : String
  pub verify : String → Applicant → State → Result KycError IdentityResult × State

pub record SanctionsScreener : Type 1 where
  pub State : Type 0
  pub name : String
  pub screen : String → Applicant → State → Result KycError ScreeningResult × State
