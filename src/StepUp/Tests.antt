-- ===== src/StepUp/Tests.antt =====
-- A customer's transfers to a known payee.
use aerarium_agentic_banking.Common.{◌≡◌, ◌↔◌, refl, true, false, none, some, List, [], ◌∷◌}
use aerarium_agentic_banking.Common.Int.{pos, ◌<ℤ◌}
use aerarium_agentic_banking.Control.{Request, allow, action_transfer, evaluate}
use aerarium_agentic_banking.StepUp.{Payee, known, required, remember, recent, default_threshold}
use aerarium_agentic_banking.StepUp.Policy.{outcome_of, holder_transfer_iff}

abbrev beto_known : List Payee
beto_known = record { customer_id = "ana"; account_id = "beto" } ∷ []

abbrev ana_pays : Request
ana_pays = record {
  customer_id = "ana";
  actor = record { kind = "holder"; id = "phone" };
  action = action_transfer;
  amount_micros = pos 5000000;
  counterparty = "beto";
  operation = "";
  grant = none;
}

holder_transfer_iff_example :
    (outcome_of (evaluate (some (required default_threshold beto_known false)) 7 ana_pays) ≡ allow)
    ↔ ((pos 5000000 <ℤ default_threshold) × (known beto_known "ana" "beto" ≡ true))
holder_transfer_iff_example = holder_transfer_iff default_threshold beto_known 7 ana_pays refl refl

beto_met : known beto_known "ana" "beto" ≡ true
unfolding known
beto_met = refl

most_recent_first : recent "ana" 1 (remember "ana" "carla" beto_known) ≡ "carla" ∷ []
unfolding recent remember
most_recent_first = refl
