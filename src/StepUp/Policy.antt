-- ===== src/StepUp/Policy.antt =====
-- The policy behind the decisions on the holder's transfers.
use aerarium_agentic_banking.Common.{
  ℕ, String, ◌≡◌, ◌≢◌, ◌↔◌, refl, inl, inr, true, false, some, List, [], ◌∷◌, ◌==◌, ◌&&◌, arith,
  eq_iff, eq_refl, Result, ok, err, Bool-cases,
}
use aerarium_agentic_banking.Common.Int.{ℤ, ◌<ℤ◌, leb_ℤ}
use aerarium_agentic_banking.Control.{
  Request, Decision, ControlError, allow, confirm, action_transfer, actor_holder, catalog,
  for_holder, evaluate,
}
use aerarium_agentic_banking.StepUp.{Payee, known, required, remember, without}

-- The outcome of a decision that was reached.
abbrev pub outcome_of : Result ControlError Decision → String
outcome_of (ok d) = d.outcome
outcome_of (err e) = ""

confirm_ne_allow : ◌≢◌ {A = String} confirm allow
confirm_ne_allow = ground (arith, eq_iff confirm allow)

-- A transfer that the holder asks for, when the table of payees can be read, is allowed without a
-- confirmation exactly if its amount is below the threshold and its payee is known.
pub holder_transfer_iff :
    (threshold : ℤ) (payees : List Payee) (now : ℕ) (req : Request)
    → req.actor.kind ≡ actor_holder
    → req.action ≡ action_transfer
    → (outcome_of (evaluate (some (required threshold payees false)) now req) ≡ allow)
      ↔ ((req.amount_micros <ℤ threshold) × (known payees req.customer_id req.counterparty ≡ true))
unfolding evaluate for_holder catalog required
holder_transfer_iff threshold payees now req holder transfer =
    rw (transfer, holder)
      (elim (Bool-cases (leb_ℤ threshold req.amount_micros)) [
        | inl large ↦ rw large (λ h. absurd (confirm_ne_allow h), λ h. ground arith)
        | inr small ↦ rw small (elim (Bool-cases (known payees req.customer_id req.counterparty)) [
          | inl met ↦ rw met (λ _. (ground arith, refl), λ _. refl)
          | inr unmet ↦ rw unmet (λ h. absurd (confirm_ne_allow h), λ h. cc)
        ])
      ])

without-known :
    (customer account other payee : String) (l : List Payee)
    → (customer == other && account == payee) ≡ false
    → known l other payee ≡ true
    → known (without customer account l) other payee ≡ true
unfolding known without
without-known customer account other payee [] d h = h
without-known customer account other payee (p ∷ l) d h = ground (
  arith,
  eq_iff p.customer_id customer,
  eq_iff p.account_id account,
  eq_iff p.customer_id other,
  eq_iff p.account_id payee,
  eq_iff customer other,
  eq_iff account payee,
  without-known customer account other payee l d,
)

-- A payee that was remembered is known, and those of before stay known.
pub remember-known :
    (customer account other payee : String) (payees : List Payee)
    → known payees other payee ≡ true
    → (known (remember customer account payees) customer account ≡ true)
      × (known (remember customer account payees) other payee ≡ true)
unfolding remember known
remember-known customer account other payee payees h = (
  rw (eq_refl customer, eq_refl account) refl,
  elim (Bool-cases (customer == other && account == payee)) [
    | inl same ↦ rw same refl
    | inr differs ↦ rw differs (without-known customer account other payee payees differs h)
  ],
)
