-- ===== src/StepUp.antt =====
-- services/stepup/stepup.go: which transfers ask for a confirmation, and the payees that a
-- customer's transfers have made known. A statement may fail, and then changes nothing.
pub mod Policy
mod Tests
use aerarium_agentic_banking.Common.{
  ℕ, ◌-◌, String, Bool, true, false, ◌&&◌, Option, none, some, List, [], ◌∷◌, ◌==◌, eqb,
  if◌then◌else◌, Result, ok, err,
}
use aerarium_agentic_banking.Common.Int.{ℤ, pos, leb_ℤ}
use aerarium_agentic_banking.Control.{Transfer, ControlError, policy_failed}

abbrev pub reason_new_payee : String
reason_new_payee = "new_payee"

abbrev pub reason_amount : String
reason_amount = "amount"

abbrev pub default_threshold : ℤ
default_threshold = pos 200000000

-- A row of `identity.known_payees`, the most recently used first.
pub record Payee : Type 0 where
  pub customer_id : String
  pub account_id : String

abbrev pub same_payee : Payee → String → String → Bool
same_payee p customer_id account_id = p.customer_id == customer_id && p.account_id == account_id

unfoldable pub known : List Payee → String → String → Bool
known [] customer_id account_id = false
known (p ∷ l) customer_id account_id =
    if same_payee p customer_id account_id then true else known l customer_id account_id

-- The amount comes first: from the threshold on, the payees are not asked.
unfoldable pub required : ℤ → List Payee → Bool → Transfer → Result ControlError String
required threshold payees fails t =
    if leb_ℤ threshold t.amount_micros
    then ok reason_amount
    else if fails
    then err policy_failed
    else if known payees t.customer_id t.to_account_id
    then ok ""
    else ok reason_new_payee

without : String → String → List Payee → List Payee
without customer_id account_id [] = []
without customer_id account_id (p ∷ l) =
    let rest = without customer_id account_id l in
    if same_payee p customer_id account_id then rest else p ∷ rest

-- `ON CONFLICT … DO UPDATE SET last_used_at = now()`: the payee becomes the most recent one.
unfoldable pub remember : String → String → List Payee → List Payee
unfolding without
remember customer_id account_id payees =
    record { customer_id = customer_id; account_id = account_id }
    ∷ without customer_id account_id payees

unfoldable pub recent : String → ℕ → List Payee → List String
recent customer_id limit [] = []
recent customer_id limit (p ∷ l) =
    let fewer = recent customer_id (limit - 1) l in
    let same = recent customer_id limit l in
    if eqb limit 0 then [] else if p.customer_id == customer_id then p.account_id ∷ fewer else same
