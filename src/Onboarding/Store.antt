-- ===== src/Onboarding/Store.antt =====
-- services/onboarding/model.go and store.go: the applications and their steps, with the statements
-- on the two tables of schema.sql. A null column is the empty text that it is read as.
pub mod Rows
use aerarium_agentic_banking.Common.{
  ℕ, String, ◌==◌, Bool, true, false, not, ◌&&◌, ◌||◌, Option, none, some, List, [], ◌∷◌, ◌++◌,
  if◌then◌else◌, Result, ok, err,
}
use aerarium_agentic_banking.Common.Action.{
  Action, ◌>>=◌, ◌>>◌, query, exec, statement, or_raise, raise_if, return,
}
use aerarium_agentic_banking.Core.Errors.{CoreError}
use aerarium_agentic_banking.Kyc.Port.{Applicant, KycError}

pub data Status : Type 0 where
  in_progress manual_review approved rejected : Status

pub data Step : Type 0 where
  identity_verification sanctions_screening decision account_opening : Step
  manual_review_decision : Step

abbrev pub status_text : Status → String
status_text in_progress = "in_progress"
status_text manual_review = "manual_review"
status_text approved = "approved"
status_text rejected = "rejected"

abbrev pub step_text : Step → String
step_text identity_verification = "identity_verification"
step_text sanctions_screening = "sanctions_screening"
step_text decision = "decision"
step_text account_opening = "account_opening"
step_text manual_review_decision = "manual_review_decision"

abbrev pub same_step : Step → Step → Bool
same_step identity_verification identity_verification = true
same_step sanctions_screening sanctions_screening = true
same_step decision decision = true
same_step account_opening account_opening = true
same_step manual_review_decision manual_review_decision = true
same_step _ _ = false

abbrev pub is_rejected : Status → Bool
is_rejected rejected = true
is_rejected _ = false

-- The order of execution.
abbrev pub pipeline : List Step
pipeline = identity_verification ∷ sanctions_screening ∷ decision ∷ account_opening ∷ []

pub record Application : Type 0 where
  pub id : String
  pub external_ref : String
  pub customer_id : String
  pub product_code : String
  pub status : Status
  pub applicant : Applicant
  pub account_id : String
  pub decision_reason : String

pub record StepRecord : Type 0 where
  pub step : Step
  pub outcome : String
  pub provider : String
  pub provider_ref : String
  pub detail : String

pub record SubmitRequest : Type 0 where
  pub external_ref : String
  pub customer_id : String
  pub product_code : String
  pub account_code : String
  pub applicant : Applicant

-- The errors of the component, those of the providers and of the core among them.
pub data OnboardingError : Type 0 where
  missing_external_ref missing_codes unknown_step not_found statement_failed : OnboardingError
  not_in_review : Status → OnboardingError
  kyc_error : KycError → OnboardingError
  core_error : CoreError → OnboardingError

-- A row of the steps, with its application.
abbrev pub StepRow : Type 0
StepRow = String × StepRecord

abbrev pub or_else : {A : Type 0} → Option A → Option A → Option A
or_else none o = o
or_else (some a) _ = some a

-- The application with an id, and the one with an external reference.
unfoldable pub find : String → List Application → Option Application
find id [] = none
find id (a ∷ l) = if a.id == id then some a else find id l

unfoldable pub find_ref : String → List Application → Option Application
find_ref ref [] = none
find_ref ref (a ∷ l) = if a.external_ref == ref then some a else find_ref ref l

abbrev pub is_some : {A : Type 0} → Option A → Bool
is_some none = false
is_some (some _) = true

-- `UPDATE … WHERE id = $1`
unfoldable pub update : String → (Application → Application) → List Application → List Application
update id f [] = []
update id f (a ∷ l) = let rest = update id f l in if a.id == id then f a ∷ rest else a ∷ rest

-- The rows of an application, in the order of their insertion.
unfoldable pub steps_of : String → List StepRow → List StepRecord
steps_of id [] = []
steps_of id ((key, r) ∷ l) = let rest = steps_of id l in if key == id then r ∷ rest else rest

-- The map from a step to its record: a later record takes the place of an earlier one.
abbrev pub Done : Type 0
Done = Step → Option StepRecord

unfoldable pub done_of : List StepRecord → Step → Option StepRecord
done_of [] s = none
done_of (r ∷ l) s = or_else (done_of l s) (if same_step r.step s then some r else none)

abbrev same_document : Applicant → Applicant → Bool
same_document x y =
    (x.country_code == y.country_code)
    && (x.document_type == y.document_type)
    && (x.document_number == y.document_number)

unfoldable pub other_live : Application → List Application → Bool
other_live app [] = false
other_live app (a ∷ l) =
    (same_document app.applicant a.applicant && not (a.id == app.id) && not (is_rejected a.status))
    || other_live app l

-- `INSERT … ON CONFLICT (application_id, step) DO NOTHING`
unfoldable pub insert_step : String → StepRecord → List StepRow → List StepRow
insert_step id r l = if is_some (done_of (steps_of id l) r.step) then l else l ++ ((id, r) ∷ [])

-- `INSERT … ON CONFLICT (external_ref) DO NOTHING`
unfoldable pub insert_application : Application → List Application → List Application
insert_application a l = if is_some (find_ref a.external_ref l) then l else l ++ (a ∷ [])

-- The tables, the core and the providers, as one state.
pub record World (Core Identity Screening : Type 0) : Type 0 where
  pub applications : List Application
  pub steps : List StepRow
  pub core : Core
  pub identity : Identity
  pub screening : Screening

abbrev pub Do : Type 0 → Type 0 → Type 0 → Type 0 → Type 0
Do Core Identity Screening = Action (World Core Identity Screening) OnboardingError

module _ {Core Identity Screening : Type 0} where
  abbrev read_found : Option Application → Do Core Identity Screening Application
  read_found = or_raise not_found

  unfoldable pub get : String → Do Core Identity Screening Application
  get id = query statement_failed (λ w. find id w.applications) >>= read_found

  unfoldable pub by_external_ref : String → Do Core Identity Screening Application
  by_external_ref ref = query statement_failed (λ w. find_ref ref w.applications) >>= read_found

  -- The statement fails too if the id is taken.
  unfoldable pub insert_new :
      Application
      → World Core Identity Screening
      → Result {0, 0} OnboardingError Unit × World Core Identity Screening
  insert_new a w =
      if is_some (find a.id w.applications)
      then (err statement_failed, w)
      else (ok tt, record w { applications = insert_application a w.applications })

  unfoldable pub create : Application → Do Core Identity Screening Application
  create a = do statement statement_failed (insert_new a); by_external_ref a.external_ref

  unfoldable pub has_other_live_application : Application → Do Core Identity Screening Bool
  has_other_live_application app = query statement_failed (λ w. other_live app w.applications)

  unfoldable pub update_status : String → Status → String → Do Core Identity Screening Unit
  update_status id status reason = exec statement_failed (λ w. record w {
    applications =
        update id (λ a. record a { status = status; decision_reason = reason }) w.applications;
  })

  unfoldable pub set_account : String → String → Do Core Identity Screening Unit
  set_account id account_id = exec statement_failed (λ w. record w {
    applications =
        update id (λ a. record a { status = approved; account_id = account_id }) w.applications;
  })

  unfoldable pub record_step : String → StepRecord → Do Core Identity Screening Unit
  record_step id r = exec statement_failed (λ w. record w { steps = insert_step id r w.steps })

  unfoldable pub steps : String → Do Core Identity Screening (List StepRecord)
  steps id = query statement_failed (λ w. steps_of id w.steps)

  unfoldable pub completed_steps : String → Do Core Identity Screening Done
  completed_steps id = do records ← steps id; return (done_of records)
