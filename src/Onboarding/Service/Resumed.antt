-- ===== src/Onboarding/Service/Resumed.antt =====
-- An application that is taken up again after its first three steps.
use aerarium_agentic_banking.Common.{
  String, ◌≡◌, false, some, none, eq_refl, refl, ok, Bool-cases, inl, inr,
}
use aerarium_agentic_banking.Common.Action.{
  healthy, ◌>>=◌, then_with, return, query, exec, call, or_raise,
}
use aerarium_agentic_banking.Core.Client.{Core, Account, open_customer_account}
use aerarium_agentic_banking.Kyc.Port.{IdentityVerifier, SanctionsScreener}
use aerarium_agentic_banking.Onboarding.Store.{
  approved, identity_verification, sanctions_screening, decision, account_opening, Application,
  StepRecord, find, update, insert_step, get, steps, completed_steps, record_step, set_account,
}
use aerarium_agentic_banking.Onboarding.Store.Rows.{record_of, find-update}
use aerarium_agentic_banking.Onboarding.Service.{
  State, is_final, recorded, try_open, after_open, open_account, run_step, run_steps, run_pipeline,
  begin, advance_live, advance, resume,
}

abbrev pub opened_as : String → Application → Application
opened_as account_id a = record a { status = approved; account_id = account_id }

module _ (C : Core) (V : IdentityVerifier) (S : SanctionsScreener) where
  -- An application that is neither approved nor rejected, with records of the first three steps,
  -- whatever their outcomes, and none of the opening: taken up again, with no statement failing and
  -- a core that opens the account, it is approved, without a call to either provider.
  pub resume_opens :
      (code : String) (s : State C V S) (a : Application) {i c d : StepRecord} {acc : Account}
      {core' : Core.State C}
      → find a.id s.applications ≡ some a
      → is_final a.status ≡ false
      → record_of a.id identity_verification s.steps ≡ some i
      → record_of a.id sanctions_screening s.steps ≡ some c
      → record_of a.id decision s.steps ≡ some d
      → record_of a.id account_opening s.steps ≡ none
      → open_customer_account C code a.applicant.full_name a.customer_id a.product_code s.core
        ≡ (ok acc, core')
      → resume C V S a.id code (healthy s) ≡ (
        ok (opened_as acc.id a),
        healthy (record s {
          applications = update a.id (opened_as acc.id) s.applications;
          steps = insert_step a.id (recorded account_opening "opened" "core" acc.id "") s.steps;
          core = core';
        }),
      )
  unfolding resume advance advance_live begin run_pipeline run_steps run_step open_account try_open
      after_open get completed_steps steps record_step set_account ◌>>=◌ then_with return query exec
      call or_raise
  resume_opens code s a {acc = acc} found live i c d o opens =
      rw
        (
          found,
          live,
          i,
          c,
          d,
          o,
          opens,
          find-update a.id a.id (opened_as acc.id) (λ b. refl) s.applications,
          eq_refl,
          found,
        )
        refl

  -- An application that is not approved, though the opening of its account is on record, stays so:
  -- taken up again with no statement failing, it is returned as it is.
  pub resume_stays :
      (code : String) (s : State C V S) (a : Application) {i c d o : StepRecord}
      → find a.id s.applications ≡ some a
      → record_of a.id identity_verification s.steps ≡ some i
      → record_of a.id sanctions_screening s.steps ≡ some c
      → record_of a.id decision s.steps ≡ some d
      → record_of a.id account_opening s.steps ≡ some o
      → resume C V S a.id code (healthy s) ≡ (ok a, healthy s)
  unfolding resume advance advance_live begin run_pipeline run_steps get completed_steps steps ◌>>=◌
      then_with return query or_raise
  resume_stays code s a found i c d o = elim (Bool-cases (is_final a.status)) [
    | inl x ↦ rw (found, x) refl
    | inr x ↦ rw (found, x, i, c, d, o, found) refl
  ]
