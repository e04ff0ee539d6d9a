-- ===== src/Onboarding/Service/Decided.antt =====
-- What becomes of a new application when nothing fails.
use aerarium_agentic_banking.Common.{
  String, ◌≡◌, ◌==◌, ◌||◌, false, some, none, Result, ok, List, [], ◌∷◌, ◌++◌,
}
use aerarium_agentic_banking.Common.Action.{Db}
use aerarium_agentic_banking.Core.Client.{Core, Account, open_customer_account}
use aerarium_agentic_banking.Kyc.Port.{
  IdentityVerifier, SanctionsScreener, IdentityResult, ScreeningResult, identity_text,
  screening_text, IdentityOutcome, identity_verified, identity_rejected, identity_inconclusive,
  ScreeningOutcome, screening_clear, screening_hit,
}
use aerarium_agentic_banking.Onboarding.Store.{
  manual_review, approved, rejected, OnboardingError, Step, StepRow, identity_verification,
  sanctions_screening, decision, Application, StepRecord, SubmitRequest, find, find_ref,
  insert_step, other_live, steps,
}
use aerarium_agentic_banking.Onboarding.Store.Rows.{record_of}
use aerarium_agentic_banking.Onboarding.Service.{
  State, Verdict, screening_detail, finish_as, go_on, new_application, provider_ref, recorded,
  is_final,
}
use aerarium_agentic_banking.Onboarding.Service.Resumed.{opened_as}

abbrev approval_record : StepRecord
approval_record =
    recorded decision "approved" "policy" "" "identidad verificada y screening sin coincidencias"

module _ (C : Core) (V : IdentityVerifier) (S : SanctionsScreener) where
  -- A request with its codes, whose reference and identifier are new, and whose document no other
  -- live application has.
  pub record IsNew (id : String) (req : SubmitRequest) (s : State C V S) : Type 0 where
    pub ref_given : (req.external_ref == "") ≡ false
    pub codes_given : (req.product_code == "" || req.account_code == "") ≡ false
    pub id_new : find id s.applications ≡ none
    pub ref_new : find_ref req.external_ref s.applications ≡ none
    pub no_steps : (step : Step) → record_of id step s.steps ≡ none
    pub alone :
        other_live
          (new_application C V S id req)
          (s.applications ++ (new_application C V S id req ∷ []))
        ≡ false

  -- What a verdict makes of the application and of the core.
  abbrev Ruled :
      Application
      → Account
      → State C V S
      → Core.State C
      → Verdict
      → Result OnboardingError Application × Db (State C V S)
      → Type 0
  Ruled app acc s core' go_on out = (out.0 ≡ ok (opened_as acc.id app)) × (out.1.state.core ≡ core')
  Ruled app acc s core' (finish_as outcome reason x) out =
      (out.0 ≡ ok (record app { status = x; decision_reason = reason }))
      × (out.1.state.core ≡ s.core)

  -- What the bank promises of the two checks' outcomes: nobody is approved but a person who is
  -- verified and on no list; a rejected identity is refused, and anything else is left to a person.
  abbrev pub Decided :
      Application
      → Account
      → State C V S
      → Core.State C
      → IdentityOutcome
      → ScreeningOutcome
      → Result OnboardingError Application × Db (State C V S)
      → Type 0
  Decided app acc s core' identity_verified screening_clear out =
      (out.0 ≡ ok (record app { status = approved; account_id = acc.id }))
      × (out.1.state.core ≡ core')
  Decided app acc s core' identity_verified screening_hit out =
      (out.0
        ≡ ok (record app {
          status = manual_review;
          decision_reason = "coincidencia en listas: requiere análisis de cumplimiento";
        }))
      × (out.1.state.core ≡ s.core)
  Decided app acc s core' identity_inconclusive _ out =
      (out.0
        ≡ ok (record app {
          status = manual_review;
          decision_reason = "verificación de identidad no concluyente";
        }))
      × (out.1.state.core ≡ s.core)
  Decided app acc s core' identity_rejected _ out =
      (out.0
        ≡ ok (record app {
          status = rejected;
          decision_reason = "verificación de identidad no superada";
        }))
      × (out.1.state.core ≡ s.core)

  module _ (app : Application) (code : String) (s : State C V S)
      (found : find app.id s.applications ≡ some app) (live : is_final app.status ≡ false)
      (no_steps : (step : Step) → record_of app.id step s.steps ≡ none)
      (alone : other_live app s.applications ≡ false) {r : IdentityResult} {q : ScreeningResult}
      {i : IdentityVerifier.State V} {c : SanctionsScreener.State S}
      (verified : IdentityVerifier.verify V
          (provider_ref app identity_verification)
          app.applicant
          s.identity
        ≡ (ok r, i))
      {acc : Account} {core' : Core.State C}
      (opens : open_customer_account C code app.applicant.full_name app.customer_id app.product_code
          s.core
        ≡ (ok acc, core'))
      (screened : SanctionsScreener.screen S
          (provider_ref app sanctions_screening)
          app.applicant
          s.screening
        ≡ (ok q, c)) where
    abbrev identity_record : StepRecord
    identity_record =
        recorded identity_verification (identity_text r.outcome) (IdentityVerifier.name V)
          r.provider_ref r.detail

    abbrev screening_record : StepRecord
    screening_record =
        recorded sanctions_screening (screening_text q.outcome) (SanctionsScreener.name S)
          q.provider_ref (screening_detail q.outcome q)

    abbrev once : List StepRow
    once = insert_step app.id identity_record s.steps

    abbrev twice : List StepRow
    twice = insert_step app.id screening_record once

    abbrev checked : State C V S
    checked = record s { steps = twice; identity = i; screening = c }
