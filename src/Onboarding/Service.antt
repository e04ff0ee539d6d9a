-- ===== src/Onboarding/Service.antt =====
-- services/onboarding/service.go: an application goes through the steps of the pipeline, each of
-- which is recorded, and may be taken up again after an error.
pub mod Frame
pub mod Trail
pub mod Approved
pub mod Decided
pub mod Resumed
use Prim.Native.String.{◌++◌}
use aerarium_agentic_banking.Common.{
  String, Bool, true, false, not, ◌||◌, ◌==◌, Option, none, some, List, [], ◌∷◌, if◌then◌else◌,
  Result, ok, err,
}
use aerarium_agentic_banking.Common.Action.{◌>>=◌, ◌>>◌, return, fail, call, raise_if}
use aerarium_agentic_banking.Core.Errors.{Sentinel, CoreError, already_exists}
use aerarium_agentic_banking.Core.Client.{Core, Account, open_customer_account, get_account}
use aerarium_agentic_banking.Kyc.Port.{
  KycError, IdentityResult, identity_rejected, identity_inconclusive, identity_text,
  ScreeningOutcome, ScreeningResult, screening_hit, screening_clear, screening_text,
  IdentityVerifier, SanctionsScreener,
}
use aerarium_agentic_banking.Onboarding.Store.{
  Status, in_progress, manual_review, approved, rejected, Step, identity_verification,
  sanctions_screening, decision, account_opening, manual_review_decision, step_text, pipeline,
  Application, StepRecord, SubmitRequest, OnboardingError, missing_external_ref, missing_codes,
  unknown_step, not_in_review, kyc_error, core_error, Done, is_some, World, Do, get, create,
  has_other_live_application, update_status, set_account, record_step, steps, completed_steps,
}

abbrev pub is_final : Status → Bool
is_final approved = true
is_final rejected = true
is_final _ = false

abbrev pub is_review : Status → Bool
is_review manual_review = true
is_review _ = false

-- `len(done) == 0`
abbrev pub none_done : Done → Bool
none_done done = not (
    is_some (done identity_verification)
    || is_some (done sanctions_screening)
    || is_some (done decision)
    || is_some (done account_opening)
    || is_some (done manual_review_decision))

-- The outcome of a step, which is empty if the step has no record.
abbrev pub outcome_of : Option StepRecord → String
outcome_of none = ""
outcome_of (some r) = r.outcome

abbrev pub recorded : Step → String → String → String → String → StepRecord
recorded step outcome provider provider_ref detail = record {
  step = step;
  outcome = outcome;
  provider = provider;
  provider_ref = provider_ref;
  detail = detail;
}

-- The same reference for every try of a step.
unfoldable pub provider_ref : Application → Step → String
provider_ref app step = "app:" ++ (app.id ++ (":" ++ step_text step))

abbrev wrap_kyc : {A : Type 0} → Result KycError A → Result OnboardingError A
wrap_kyc (ok a) = ok a
wrap_kyc (err e) = err (kyc_error e)

-- `%v` of a list of texts.
abbrev lists_text : List String → String
lists_text [] = ""
lists_text (l ∷ []) = l
lists_text (l ∷ rest) = l ++ (" " ++ lists_text rest)

abbrev screening_detail : ScreeningOutcome → ScreeningResult → String
screening_detail screening_hit r = r.detail ++ (" (listas: [" ++ (lists_text r.lists ++ "])"))
screening_detail screening_clear r = r.detail

abbrev is_already_exists : Sentinel → Bool
is_already_exists already_exists = true
is_already_exists _ = false

-- What the criteria say of the outcomes of the two checks.
pub data Verdict : Type 0 where
  go_on : Verdict
  finish_as : String → String → Status → Verdict

unfoldable pub verdict_of : String → String → Verdict
verdict_of identity screening =
    if identity == identity_text identity_rejected
    then finish_as "rejected" "verificación de identidad no superada" rejected
    else if identity == identity_text identity_inconclusive
    then finish_as "manual_review" "verificación de identidad no concluyente" manual_review
    else if screening == screening_text screening_hit
    then finish_as "manual_review" "coincidencia en listas: requiere análisis de cumplimiento"
        manual_review
    else go_on

module _ (C : Core) (V : IdentityVerifier) (S : SanctionsScreener) where
  abbrev pub State : Type 0
  State = World (Core.State C) (IdentityVerifier.State V) (SanctionsScreener.State S)

  abbrev pub Act : Type 0 → Type 0
  Act = Do (Core.State C) (IdentityVerifier.State V) (SanctionsScreener.State S)

  unfoldable pub verify_identity : Application → Act IdentityResult
  verify_identity app = call λ w.
      let a =
        IdentityVerifier.verify V (provider_ref app identity_verification) app.applicant
          w.identity in
      (wrap_kyc a.0, record w { identity = a.1 })

  unfoldable pub screen_applicant : Application → Act ScreeningResult
  screen_applicant app = call λ w.
      let a =
        SanctionsScreener.screen S (provider_ref app sanctions_screening) app.applicant
          w.screening in
      (wrap_kyc a.0, record w { screening = a.1 })

  -- The calls to the core, with the error as a value.
  unfoldable pub try_open : Application → String → Act (Result CoreError Account)
  try_open app code = call λ w.
      let a =
        open_customer_account C code app.applicant.full_name app.customer_id app.product_code
          w.core in
      (ok a.0, record w { core = a.1 })

  unfoldable pub try_get : String → Act (Result CoreError Account)
  try_get code = call λ w. let a = get_account C code w.core in (ok a.0, record w { core = a.1 })

  pub account_or_fail : Result CoreError Account → Act String
  account_or_fail (ok a) = return a.id
  account_or_fail (err e) = fail (core_error e)

  pub after_open : String → Result CoreError Account → Act String
  after_open code (ok a) = return a.id
  after_open code (err e) =
      if is_already_exists e.sentinel then try_get code >>= account_or_fail else fail (core_error e)

  unfoldable pub open_account : Application → String → Act String
  open_account app code = try_open app code >>= after_open code

  unfoldable pub finish : Application → Step → String → String → Status → Act Unit
  finish app step outcome reason status = do
    record_step app.id (recorded step outcome "policy" "" reason)
    update_status app.id status reason

  pub by_verdict : Application → Verdict → Act Bool
  by_verdict app go_on = do
    record_step app.id (
        recorded decision "approved" "policy" ""
          "identidad verificada y screening sin coincidencias")
    return false
  by_verdict app (finish_as outcome reason status) = do
    finish app decision outcome reason status
    return true

  unfoldable pub decide : Application → Done → Act Bool
  decide app done =
      by_verdict app (
        verdict_of (outcome_of (done identity_verification))
          (outcome_of (done sanctions_screening)))

  -- A step of the pipeline; `true` says to stop. The application in hand, whose status the code
  -- sets too, is not read after that.
  unfoldable pub run_step : Application → String → Done → Step → Act Bool
  run_step app code done identity_verification = do
    r ← verify_identity app
    record_step app.id (
        recorded identity_verification (identity_text r.outcome) (IdentityVerifier.name V)
          r.provider_ref r.detail)
    return false
  run_step app code done sanctions_screening = do
    r ← screen_applicant app
    record_step app.id (
        recorded sanctions_screening (screening_text r.outcome) (SanctionsScreener.name S)
          r.provider_ref (screening_detail r.outcome r))
    return false
  run_step app code done decision = decide app done
  run_step app code done account_opening = do
    account_id ← open_account app code
    record_step app.id (recorded account_opening "opened" "core" account_id "")
    set_account app.id account_id
    return false
  run_step app code done manual_review_decision = fail unknown_step

  -- The steps that are left, of which those with a record are passed over.
  pub run_steps : Application → String → Done → List Step → Act Unit
  run_steps app code done [] = return tt
  run_steps app code done (s ∷ rest) = if is_some (done s) then run_steps app code done rest else do
    stop ← run_step app code done s
    if stop then return tt else (completed_steps app.id >>= λ later. run_steps app code later rest)

  pub run_pipeline : Application → String → Done → Act Application
  run_pipeline app code done = do run_steps app code done pipeline; get app.id

  -- A person has one live application; asked of an application that has not begun.
  pub unless_duplicate : Application → String → Done → Bool → Act Application
  unless_duplicate app code done duplicate =
      if duplicate
      then (finish app decision "manual_review"
            "el documento tiene otra alta vigente: posible duplicado" manual_review
          >> get app.id)
      else run_pipeline app code done

  pub begin : Application → String → Done → Act Application
  begin app code done =
      if none_done done
      then (has_other_live_application app >>= unless_duplicate app code done)
      else run_pipeline app code done

  pub advance_live : Application → String → Act Application
  advance_live app code = do done ← completed_steps app.id; begin app code done

  unfoldable pub advance : Application → String → Act Application
  advance app code = if is_final app.status then return app else advance_live app code

  abbrev pub new_application : String → SubmitRequest → Application
  new_application id req = record {
    id = id;
    external_ref = req.external_ref;
    customer_id = req.customer_id;
    product_code = req.product_code;
    status = in_progress;
    applicant = req.applicant;
    account_id = "";
    decision_reason = "";
  }

  -- The first argument is the identifier that is generated.
  unfoldable pub submit : String → SubmitRequest → Act Application
  submit id req = do
    raise_if (req.external_ref == "") missing_external_ref
    raise_if (req.product_code == "" || req.account_code == "") missing_codes
    app ← create (new_application id req)
    advance app req.account_code

  unfoldable pub resume : String → String → Act Application
  resume id code = do app ← get id; advance app code

  unfoldable pub approve_manually : String → String → String → Act Application
  approve_manually id reviewer code = do
    app ← get id
    raise_if (not (is_review app.status)) (not_in_review app.status)
    record_step app.id (
        recorded manual_review_decision "approved" reviewer ""
          "coincidencia de listas descartada por análisis humano")
    update_status app.id in_progress ""
    advance (record app { status = in_progress }) code

  unfoldable pub reject_manually : String → String → String → Act Application
  reject_manually id reviewer reason = do
    app ← get id
    record_step app.id (recorded manual_review_decision "rejected" reviewer "" reason)
    update_status app.id rejected reason
    get app.id

  unfoldable pub audit_trail : String → Act (List StepRecord)
  audit_trail id = steps id
