-- ===== src/Cards/Sim.antt =====
-- adapters/cards/sim/sim.go: the simulated processor, which also serves as the directory. The lock
-- makes each call one step; a generated identifier is an argument.
pub mod Issue
use Prim.Native.String.{◌++◌}
use aerarium_agentic_banking.Common.{
  ℕ, ◌%◌, ◌/◌, String, Option, none, some, [], length, Result, ok, err, Dict, lookup, insert, eqb,
  if◌then◌else◌,
}
use aerarium_agentic_banking.Common.Int.{ℤ}
use aerarium_agentic_banking.Cards.Port.{
  CardStatus, card_active, Card, DirectoryError, unknown_card, IssueCardRequest,
  AuthorizationRequest, ClearingNotification, ReversalNotification,
}

pub record Processor : Type 0 where
  pub by_id : Dict Card
  pub issue : Dict String

unfoldable pub new_processor : Processor
new_processor = record { by_id = []; issue = [] }

abbrev digit : ℕ → String
digit n =
    if eqb n 0
    then "0"
    else if eqb n 1
    then "1"
    else if eqb n 2
    then "2"
    else if eqb n 3
    then "3"
    else if eqb n 4
    then "4"
    else if eqb n 5
    then "5"
    else if eqb n 6
    then "6"
    else if eqb n 7
    then "7"
    else if eqb n 8
    then "8"
    else "9"

-- `fmt.Sprintf("%04d", n)` of a number below 10000.
abbrev four_digits : ℕ → String
four_digits n =
    digit (n / 1000) ++ (digit (n / 100 % 10) ++ (digit (n / 10 % 10) ++ digit (n % 10)))

-- A missing key of a Go map reads as the zero value.
abbrev or_zero_card : Option Card → Card
or_zero_card (some card) = card
or_zero_card none = record { id = ""; account_id = ""; last_four = ""; status = card_active }

abbrev new_card : String → IssueCardRequest → Processor → Card
new_card uuid req p = record {
  id = "card-" ++ uuid;
  account_id = req.account_id;
  last_four = four_digits (length p.by_id % 10000);
  status = card_active;
}

issue_once : String → String → IssueCardRequest → Option String → Processor → Card × Processor
issue_once uuid reference req (some card_id) p = (or_zero_card (lookup card_id p.by_id), p)
issue_once uuid reference req none p =
    let card = new_card uuid req p in
    (card, record { by_id = insert card.id card p.by_id; issue = insert reference card.id p.issue })

unfoldable pub issue_card : String → String → IssueCardRequest → Processor → Card × Processor
unfolding issue_once
issue_card uuid reference req p = issue_once uuid reference req (lookup reference p.issue) p

set_found : String → CardStatus → Option Card → Processor → Option DirectoryError × Processor
set_found card_id status none p = (some unknown_card, p)
set_found card_id status (some card) p =
    (none, record p { by_id = insert card_id (record card { status = status }) p.by_id })

unfoldable pub set_status : String → CardStatus → Processor → Option DirectoryError × Processor
unfolding set_found
set_status card_id status p = set_found card_id status (lookup card_id p.by_id) p

or_unknown : Option Card → Result DirectoryError Card
or_unknown (some card) = ok card
or_unknown none = err unknown_card

unfoldable pub card : Processor → String → Result DirectoryError Card
unfolding or_unknown
card p card_id = or_unknown (lookup card_id p.by_id)

-- A purchase, and what the network sends in its three moments.
pub record Purchase : Type 0 where
  pub network_transaction_id : String
  pub card_id : String
  pub amount_micros : ℤ
  pub currency : String
  pub merchant_name : String

unfoldable pub new_purchase : String → String → ℤ → String → String → Purchase
new_purchase uuid card_id amount_micros currency merchant = record {
  network_transaction_id = "net-" ++ uuid;
  card_id = card_id;
  amount_micros = amount_micros;
  currency = currency;
  merchant_name = merchant;
}

abbrev pub authorization : ℕ → Purchase → AuthorizationRequest
authorization now p = record {
  network_transaction_id = p.network_transaction_id;
  card_id = p.card_id;
  amount_micros = p.amount_micros;
  currency = p.currency;
  merchant_name = p.merchant_name;
  requested_at = now;
}

abbrev pub clearing : ℕ → String → ℤ → Purchase → ClearingNotification
clearing now uuid final_amount_micros p = record {
  network_transaction_id = p.network_transaction_id;
  clearing_id = "clr-" ++ uuid;
  final_amount_micros = final_amount_micros;
  currency = p.currency;
  settled_at = now;
}

abbrev pub reversal : String → String → Purchase → ReversalNotification
reversal uuid reason p = record {
  network_transaction_id = p.network_transaction_id;
  reversal_id = "rev-" ++ uuid;
  reason = reason;
}
