-- ===== src/Onboarding/Service/Frame.antt =====
-- What every operation on applications keeps: it is enough that the changes it is made of keep it.
use aerarium_agentic_banking.Common.{
  String, Bool, false, ◌==◌, List, [], ◌∷◌, Result, ok, err, Bool-cases, inl, inr,
}
use aerarium_agentic_banking.Common.Action.{
  ◌>>◌, return, Keeps, return-Keeps, fail-Keeps, raise_if-Keeps, or_raise-Keeps, query-Keeps,
  exec-Keeps, statement-Keeps, call-Keeps, bind-Keeps, if-Keeps,
}
use aerarium_agentic_banking.Core.Errors.{CoreError}
use aerarium_agentic_banking.Core.Client.{Core, Account}
use aerarium_agentic_banking.Kyc.Port.{IdentityVerifier, SanctionsScreener}
use aerarium_agentic_banking.Onboarding.Store.{
  Status, in_progress, manual_review, rejected, Step, identity_verification, sanctions_screening,
  decision, account_opening, manual_review_decision, Application, StepRecord, SubmitRequest,
  OnboardingError, Done, update, insert_step, insert_application, get, by_external_ref, create,
  insert_new, is_some, find, has_other_live_application, update_status, set_account, record_step,
  steps, completed_steps,
}
use aerarium_agentic_banking.Onboarding.Service.{
  State, none_done, recorded, Verdict, go_on, finish_as, verdict_of, verify_identity,
  screen_applicant, try_open, try_get, account_or_fail, after_open, open_account, finish,
  by_verdict, decide, run_step, run_steps, run_pipeline, unless_duplicate, begin, advance_live,
  advance, new_application, submit, resume, approve_manually, reject_manually,
}

-- A status that the service sets by itself, other than the approval.
pub data Unapproved : Status → Type 0 where
  again : Unapproved in_progress
  review : Unapproved manual_review
  refused : Unapproved rejected

-- No verdict approves.
abbrev IsCautious : Verdict → Type 0
IsCautious go_on = Unit
IsCautious (finish_as outcome reason status) = Unapproved status

verdict-IsCautious : (identity screening : String) → IsCautious (verdict_of identity screening)
unfolding verdict_of
verdict-IsCautious identity screening = elim (Bool-cases (identity == "rejected")) [
  | inl e ↦ rw e refused
  | inr e ↦ rw e (elim (Bool-cases (identity == "inconclusive")) [
    | inl f ↦ rw f review
    | inr f ↦
        rw f (elim (Bool-cases (screening == "hit")) [ inl g ↦ rw g review | inr g ↦ rw g tt ])
  ])
]

module _ (C : Core) (V : IdentityVerifier) (S : SanctionsScreener) where
  pub record IsFrame (R : State C V S → State C V S → Type 0) : Type 0 where
    pub steady : (s : State C V S) → R s s
    pub follow : (s t u : State C V S) → R s t → R t u → R s u
    pub identity :
        (s : State C V S) (i : IdentityVerifier.State V) → R s (record s { identity = i })
    pub screening :
        (s : State C V S) (i : SanctionsScreener.State S) → R s (record s { screening = i })
    pub core : (s : State C V S) (c : Core.State C) → R s (record s { core = c })
    pub step :
        (s : State C V S) (id : String) (r : StepRecord)
        → R s (record s { steps = insert_step id r s.steps })
    pub status :
        (s : State C V S) (id reason : String) {x : Status}
        → Unapproved x
        → R s (record s {
          applications =
              update id (λ a. record a { status = x; decision_reason = reason }) s.applications;
        })
    pub application :
        (s : State C V S) (id : String) (req : SubmitRequest)
        → R s (record s {
          applications = insert_application (new_application C V S id req) s.applications;
        })
    pub account :
        (id account_id : String)
        → Keeps R {E = OnboardingError} (
            record_step id (recorded account_opening "opened" "core" account_id "")
            >> (set_account id account_id >> return false))

  module _ {R : State C V S → State C V S → Type 0} (F : IsFrame R) where
    open F use {steady, follow}

    get-Keeps : (id : String) → Keeps R {E = OnboardingError} (get id)
    unfolding get
    get-Keeps id = bind-Keeps R follow (query-Keeps R steady _ _) (λ o. or_raise-Keeps R steady _ o)

    record_step-Keeps :
        (id : String) (r : StepRecord) → Keeps R {E = OnboardingError} (record_step id r)
    unfolding record_step
    record_step-Keeps id r = exec-Keeps R steady _ _ (λ s. IsFrame.step F s id r)

    update_status-Keeps :
        (id reason : String) {x : Status}
        → Unapproved x
        → Keeps R {E = OnboardingError} (update_status id x reason)
    unfolding update_status
    update_status-Keeps id reason u = exec-Keeps R steady _ _ (λ s. IsFrame.status F s id reason u)

    completed_steps-Keeps : (id : String) → Keeps R {E = OnboardingError} (completed_steps id)
    unfolding completed_steps steps
    completed_steps-Keeps id =
        bind-Keeps R follow (query-Keeps R steady _ _) (λ l. return-Keeps R steady _)

    insert_new_keeps :
        (id : String) (req : SubmitRequest) (s : State C V S)
        → R s (insert_new (new_application C V S id req) s).1
    unfolding insert_new
    insert_new_keeps id req s = elim (Bool-cases (is_some (find id s.applications))) [
      | inl e ↦ rw e (steady s)
      | inr e ↦ rw e (IsFrame.application F s id req)
    ]

    create-Keeps :
        (id : String) (req : SubmitRequest)
        → Keeps R {E = OnboardingError} (create (new_application C V S id req))
    unfolding create by_external_ref
    create-Keeps id req =
        bind-Keeps R follow (statement-Keeps R steady _ _ (insert_new_keeps id req))
          λ _. bind-Keeps R follow (query-Keeps R steady _ _) (λ o. or_raise-Keeps R steady _ o)

    account_or_fail-Keeps : (a : Result CoreError Account) → Keeps R (account_or_fail C V S a)
    unfolding account_or_fail
    account_or_fail-Keeps (ok a) = return-Keeps R steady _
    account_or_fail-Keeps (err e) = fail-Keeps R steady _

    try_get-Keeps : (code : String) → Keeps R (try_get C V S code)
    unfolding try_get
    try_get-Keeps code = call-Keeps R _ (λ s. IsFrame.core F s _)

    after_open-Keeps :
        (code : String) (a : Result CoreError Account) → Keeps R (after_open C V S code a)
    unfolding after_open
    after_open-Keeps code (ok a) = return-Keeps R steady _
    after_open-Keeps code (err e) =
        if-Keeps R _ (bind-Keeps R follow (try_get-Keeps code) account_or_fail-Keeps)
          (fail-Keeps R steady _)

    open_account-Keeps : (app : Application) (code : String) → Keeps R (open_account C V S app code)
    unfolding open_account try_open
    open_account-Keeps app code =
        bind-Keeps R follow (call-Keeps R _ (λ s. IsFrame.core F s _)) (after_open-Keeps code)

    finish-Keeps :
        (app : Application) (s : Step) (outcome reason : String) {x : Status}
        → Unapproved x
        → Keeps R (finish C V S app s outcome reason x)
    unfolding finish
    finish-Keeps app s outcome reason u =
        bind-Keeps R follow (record_step-Keeps _ _) (λ _. update_status-Keeps _ reason u)

    by_verdict-Keeps :
        (app : Application) (v : Verdict) → IsCautious v → Keeps R (by_verdict C V S app v)
    unfolding by_verdict
    by_verdict-Keeps app go_on u =
        bind-Keeps R follow (record_step-Keeps _ _) (λ _. return-Keeps R steady _)
    by_verdict-Keeps app (finish_as outcome reason x) u =
        bind-Keeps R follow (finish-Keeps app _ outcome reason u) (λ _. return-Keeps R steady _)

    run_step-Keeps :
        (app : Application) (code : String) (done : Done) (s : Step)
        → Keeps R (run_step C V S app code done s)
    unfolding run_step verify_identity screen_applicant decide
    run_step-Keeps app code done identity_verification =
        bind-Keeps R follow (call-Keeps R _ (λ s. IsFrame.identity F s _))
          λ r. bind-Keeps R follow (record_step-Keeps _ _) (λ _. return-Keeps R steady _)
    run_step-Keeps app code done sanctions_screening =
        bind-Keeps R follow (call-Keeps R _ (λ s. IsFrame.screening F s _))
          λ r. bind-Keeps R follow (record_step-Keeps _ _) (λ _. return-Keeps R steady _)
    run_step-Keeps app code done decision = by_verdict-Keeps app _ (verdict-IsCautious _ _)
    run_step-Keeps app code done account_opening =
        bind-Keeps R follow (open_account-Keeps app code) (IsFrame.account F app.id)
    run_step-Keeps app code done manual_review_decision = fail-Keeps R steady _

    run_steps-Keeps :
        (app : Application) (code : String) (done : Done) (l : List Step)
        → Keeps R (run_steps C V S app code done l)
    unfolding run_steps
    run_steps-Keeps app code done [] = return-Keeps R steady _
    run_steps-Keeps app code done (s ∷ l) = if-Keeps R _ (run_steps-Keeps app code done l) (
        bind-Keeps R follow (run_step-Keeps app code done s) λ stop.
          if-Keeps R stop (return-Keeps R steady _) (
            bind-Keeps R follow (completed_steps-Keeps app.id)
              (λ later. run_steps-Keeps app code later l)))

    run_pipeline-Keeps :
        (app : Application) (code : String) (done : Done)
        → Keeps R (run_pipeline C V S app code done)
    unfolding run_pipeline
    run_pipeline-Keeps app code done =
        bind-Keeps R follow (run_steps-Keeps app code done _) (λ _. get-Keeps app.id)

    advance-Keeps : (app : Application) (code : String) → Keeps R (advance C V S app code)
    unfolding advance advance_live begin unless_duplicate has_other_live_application
    advance-Keeps app code = if-Keeps R _ (return-Keeps R steady _) (
        bind-Keeps R follow (completed_steps-Keeps app.id) λ done.
          if-Keeps R (none_done done)
            (bind-Keeps R follow (query-Keeps R steady _ _) λ duplicate.
              if-Keeps R duplicate
                (bind-Keeps R follow (finish-Keeps app _ _ _ review) (λ _. get-Keeps app.id))
                (run_pipeline-Keeps app code done))
            (run_pipeline-Keeps app code done))

    pub submit-Keeps : (id : String) (req : SubmitRequest) → Keeps R (submit C V S id req)
    unfolding submit
    submit-Keeps id req = bind-Keeps R follow (raise_if-Keeps R steady _ _) λ _.
        bind-Keeps R follow (raise_if-Keeps R steady _ _)
          λ _. bind-Keeps R follow (create-Keeps id req) (λ app. advance-Keeps app req.account_code)

    pub resume-Keeps : (id code : String) → Keeps R (resume C V S id code)
    unfolding resume
    resume-Keeps id code = bind-Keeps R follow (get-Keeps id) (λ app. advance-Keeps app code)

    pub approve_manually-Keeps :
        (id reviewer code : String) → Keeps R (approve_manually C V S id reviewer code)
    unfolding approve_manually
    approve_manually-Keeps id reviewer code = bind-Keeps R follow (get-Keeps id) λ app.
        bind-Keeps R follow (raise_if-Keeps R steady _ _) λ _.
          bind-Keeps R follow (record_step-Keeps _ _)
            λ _. bind-Keeps R follow (update_status-Keeps _ _ again) (λ _. advance-Keeps _ code)

    pub reject_manually-Keeps :
        (id reviewer reason : String) → Keeps R (reject_manually C V S id reviewer reason)
    unfolding reject_manually
    reject_manually-Keeps id reviewer reason = bind-Keeps R follow (get-Keeps id) λ app.
        bind-Keeps R follow (record_step-Keeps _ _)
          λ _. bind-Keeps R follow (update_status-Keeps _ _ refused) (λ _. get-Keeps app.id)

  -- A call of the service, with any of its statements failing, and what a sequence of calls reaches.
  pub data Call (s : State C V S) : State C V S → Type 0 where
    submitted :
        (faults : List Bool) (id : String) (req : SubmitRequest)
        → Call s (submit C V S id req (record { state = s; faults = faults })).1.state
    resumed :
        (faults : List Bool) (id code : String)
        → Call s (resume C V S id code (record { state = s; faults = faults })).1.state
    approved_by :
        (faults : List Bool) (id reviewer code : String)
        → Call s
            (approve_manually C V S id reviewer code
              (record { state = s; faults = faults })).1.state
    rejected_by :
        (faults : List Bool) (id reviewer reason : String)
        → Call s
            (reject_manually C V S id reviewer reason
              (record { state = s; faults = faults })).1.state

  pub data Calls (s : State C V S) : State C V S → Type 0 where
    here : Calls s s
    next : {t u : State C V S} → Calls s t → Call t u → Calls s u

  module _ {R : State C V S → State C V S → Type 0} (F : IsFrame R) where
    Call-frame : {s t : State C V S} → Call s t → R s t
    Call-frame (submitted faults id req) = Keeps.holds (submit-Keeps F id req) _
    Call-frame (resumed faults id code) = Keeps.holds (resume-Keeps F id code) _
    Call-frame (approved_by faults id reviewer code) =
        Keeps.holds (approve_manually-Keeps F id reviewer code) _
    Call-frame (rejected_by faults id reviewer reason) =
        Keeps.holds (reject_manually-Keeps F id reviewer reason) _

    pub Calls-frame : {s t : State C V S} → Calls s t → R s t
    Calls-frame {s} here = IsFrame.steady F s
    Calls-frame {s} (next {t} {u} c d) = IsFrame.follow F s t u (Calls-frame c) (Call-frame d)
