-- ===== src/Onboarding/Service/Trail.antt =====
-- The record of the steps, which is the evidence behind a decision.
use aerarium_agentic_banking.Common.{String, ◌≡◌, List, some}
use aerarium_agentic_banking.Common.Action.{exec-Keeps, bind-Keeps, return-Keeps}
use aerarium_agentic_banking.Core.Client.{Core}
use aerarium_agentic_banking.Kyc.Port.{IdentityVerifier, SanctionsScreener}
use aerarium_agentic_banking.Onboarding.Store.{
  Step, StepRecord, StepRow, steps_of, insert_step, record_step, set_account,
}
use aerarium_agentic_banking.Onboarding.Store.Rows.{
  record_of, IsPrefix, prefix_refl, prefix_trans, steps_grow, record_stays,
}
use aerarium_agentic_banking.Onboarding.Service.{State}
use aerarium_agentic_banking.Onboarding.Service.Frame.{IsFrame, Calls, Calls-frame}

-- Each application's records go on, in their order, and no step gets another record.
pub record GoesOn (before after : List StepRow) : Type 0 where
  pub longer : (id : String) → IsPrefix (steps_of id before) (steps_of id after)
  pub stays :
      (id : String) (s : Step) {q : StepRecord}
      → record_of id s before ≡ some q
      → record_of id s after ≡ some q

GoesOn-refl : (l : List StepRow) → GoesOn l l
GoesOn-refl l = record { longer = λ id. prefix_refl (steps_of id l); stays = λ id s h. h }

step_GoesOn : (id : String) (r : StepRecord) (l : List StepRow) → GoesOn l (insert_step id r l)
step_GoesOn id r l = record {
  longer = λ j. steps_grow id j r l;
  stays = λ j s h. record_stays id j r s l h;
}

module _ (C : Core) (V : IdentityVerifier) (S : SanctionsScreener) where
  GoesOn-follow :
      (s t u : State C V S)
      → GoesOn s.steps t.steps
      → GoesOn t.steps u.steps
      → GoesOn s.steps u.steps
  GoesOn-follow s t u a b = record {
    longer = λ id. prefix_trans _ _ _ (GoesOn.longer a id) (GoesOn.longer b id);
    stays = λ id st h. GoesOn.stays b id st (GoesOn.stays a id st h);
  }

  GoesOn-IsFrame : IsFrame C V S (λ s t. GoesOn s.steps t.steps)
  unfolding record_step set_account
  GoesOn-IsFrame = record {
    steady = λ s. GoesOn-refl s.steps;
    follow = GoesOn-follow;
    identity = λ s i. GoesOn-refl s.steps;
    screening = λ s i. GoesOn-refl s.steps;
    core = λ s c. GoesOn-refl s.steps;
    step = λ s id r. step_GoesOn id r s.steps;
    status = λ s id reason u. GoesOn-refl s.steps;
    application = λ s id req. GoesOn-refl s.steps;
    account = λ id account_id.
        bind-Keeps _ GoesOn-follow
          (exec-Keeps _ (λ s. GoesOn-refl s.steps) _ _ (λ s. step_GoesOn id _ s.steps))
          (λ _.
            bind-Keeps _ GoesOn-follow
              (exec-Keeps _ (λ s. GoesOn-refl s.steps) _ _ (λ s. GoesOn-refl s.steps))
              (λ _. return-Keeps _ (λ s. GoesOn-refl s.steps) _));
  }

  -- Through any sequence of calls, with any statements failing, the records of an application
  -- only grow at the end, and a step keeps the record that it has.
  pub trail_kept : {s t : State C V S} → Calls C V S s t → GoesOn s.steps t.steps
  trail_kept = Calls-frame C V S GoesOn-IsFrame
