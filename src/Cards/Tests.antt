-- ===== src/Cards/Tests.antt =====
-- Purchases on a core in memory.
use mathlib.Core.Path.{subst}
use aerarium_agentic_banking.Common.{
  ◌≡◌, refl, ◌≢◌, true, false, none, some, [], ◌∷◌, arith, eq_iff, ok, lookup, Option, inl, inr,
  Bool-cases, ◌==◌, List, String, ap,
}
use aerarium_agentic_banking.Common.Int.{pos, ◌-ℤ◌, wrap64}
use aerarium_agentic_banking.Core.Entry.{Entry}
use aerarium_agentic_banking.Core.Client.{post}
use aerarium_agentic_banking.Core.Book.{IsSound}
use aerarium_agentic_banking.Core.Errors.{
  translate, sentinel_for_reason, reason_from, sentinel_for_code,
}
use aerarium_agentic_banking.Core.Memory.{Store, empty, memory, memory_post, refuses, loses_reply}
use aerarium_agentic_banking.Core.Memory.Laws.{memory_IsLedger, Same}
use aerarium_agentic_banking.Cards.Port.{
  Card, card_active, CardDirectory, AuthorizationRequest, ClearingNotification,
  ReversalNotification, IssueCardRequest, decline_system_error,
}
use aerarium_agentic_banking.Cards.Store.{
  Row, Table, status_held, status_cleared, reserved_row, scan, get, reserve, mark_cleared,
  mark_held, drop,
}
use aerarium_agentic_banking.Cards.Service.{
  Accounts, ClearingResult, approval, declined, to_authorization, authorize, clear, reverse,
}
use aerarium_agentic_banking.Cards.Service.Sound.{IsAmount, IsChecked, cards-IsSound}
use aerarium_agentic_banking.Cards.Service.Held.{Decided, authorize-Decided}
use aerarium_agentic_banking.Cards.Service.Repeat.{authorize_after_crash}
use aerarium_agentic_banking.Cards.Service.Clearing.{clearing_posting}
use aerarium_agentic_banking.Cards.Service.Conflict.{Stuck, clear_conflicts}
use aerarium_agentic_banking.Cards.Service.Charged.{Charged, AreDistinct, stands, clear-Charged}
use aerarium_agentic_banking.Cards.Service.Terminal.{rows_stay}
use aerarium_agentic_banking.Cards.Sim.{Processor, card}

abbrev accounts : Accounts
accounts = record { auth_hold_id = "hold"; settlement_id = "network"; overage_id = "overage" }

abbrev ana_card : Card
ana_card = record { id = "c1"; account_id = "ana"; last_four = "0001"; status = card_active }

abbrev directory : CardDirectory
directory = λ id. ok ana_card

abbrev dinner : AuthorizationRequest
dinner = record {
  network_transaction_id = "n1";
  card_id = "c1";
  amount_micros = pos 100;
  currency = "PEN";
  merchant_name = "bistro";
  requested_at = 0;
}

abbrev no_rows : Table
no_rows = record { rows = []; faults = []; now = 7 }

abbrev held_row : Row
held_row = record (reserved_row (to_authorization dinner ana_card) 7) {
  hold_transaction_id = some "tx";
}

abbrev cleared_row : Row
cleared_row = record held_row { status = status_cleared; cleared_amount_micros = some (pos 100) }

abbrev one_row : Row → Table
one_row row = record { rows = ("n1", row) ∷ []; faults = []; now = 9 }

-- With the tip.
abbrev with_tip : ClearingNotification
with_tip = record {
  network_transaction_id = "n1";
  clearing_id = "k1";
  final_amount_micros = pos 120;
  currency = "PEN";
  settled_at = 9;
}

abbrev given_up : ReversalNotification
given_up = record { network_transaction_id = "n1"; reversal_id = "r1"; reason = "expired" }

approved :
    (authorize memory directory accounts "visa" dinner (empty, no_rows)).0
    ≡ ok (approval "tx-card:visa:auth:n1")
unfolding authorize post memory_post reserve mark_held
approved = refl

-- The posting is made and the core's answer lost: declined, without a row.
declined_but_held :
    let (o, (c, t)) =
      authorize memory directory accounts "visa" dinner
        (record empty { plan = some loses_reply ∷ [] }, no_rows) in
    (o ≡ ok (declined decline_system_error)) × (t.rows ≡ [])
unfolding authorize post memory_post reserve drop translate sentinel_for_reason reason_from
    sentinel_for_code
declined_but_held = (refl, refl)

authorize-Decided_example :
    let (o, w) = authorize memory directory accounts "visa" dinner (empty, no_rows) in
    Decided memory directory accounts "visa" dinner ana_card [] o w.0.book w.1.rows
authorize-Decided_example =
    authorize-Decided memory directory accounts "visa" memory_IsLedger dinner ana_card refl empty
      no_rows refl refl refl

authorize_after_crash_example :
    let (o, (c, t)) =
      authorize memory directory accounts "visa" dinner
        (empty, one_row (reserved_row (to_authorization dinner ana_card) 7)) in
    (o ≡ ok (record (approval "") { duplicate = true })) × (c ≡ empty)
authorize_after_crash_example =
    authorize_after_crash memory directory accounts "visa" dinner ana_card empty
      (one_row (reserved_row (to_authorization dinner ana_card) 7)) 7 refl refl refl refl refl refl

cleared_ne_held : cleared_row.status ≢ status_held
cleared_ne_held h = cc

-- The core refuses the customer's overage of 20, and the bank advances it.
abbrev out_of_funds : Store
out_of_funds = record empty { plan = some (refuses "POSTING_ERROR_REASON_INSUFFICIENT_FUNDS") ∷ [] }

abbrev advanced : ClearingResult
advanced = record {
  transaction_id = "tx-card:visa:clear:k1";
  final_amount_micros = pos 120;
  returned_micros = pos 0;
  overage_micros = pos 20;
  duplicate = false;
}

bank_advances :
    (clear memory directory accounts "visa" with_tip (out_of_funds, one_row held_row)).0
    ≡ ok advanced
unfolding clear post memory_post get mark_cleared ◌-ℤ◌ wrap64 translate sentinel_for_reason
    reason_from
bank_advances = refl

distinct : AreDistinct memory directory accounts "visa" "ana"
distinct = record {
  customer_ne_hold = ground (arith, eq_iff "ana" "hold");
  customer_ne_settlement = ground (arith, eq_iff "ana" "network");
  customer_ne_overage = ground (arith, eq_iff "ana" "overage");
  hold_ne_settlement = ground (arith, eq_iff "hold" "network");
  hold_ne_overage = ground (arith, eq_iff "hold" "overage");
  settlement_ne_overage = ground (arith, eq_iff "network" "overage");
}

clear-Charged_example :
    Charged
      (pos 100)
      (pos 120)
      (pos 20)
      (stands memory directory accounts "visa" (scan "n1" held_row) [])
      (stands memory directory accounts "visa"
        (scan "n1" held_row)
        (clear memory directory accounts "visa" with_tip (out_of_funds, one_row held_row)).1.0.book)
clear-Charged_example =
    clear-Charged memory directory accounts "visa" memory_IsLedger with_tip out_of_funds
      (one_row held_row) held_row refl refl (omega arith, (omega arith, omega arith))
      (omega arith, (omega arith, omega arith)) distinct refl bank_advances

held_row-IsAmount :
    (r : Row) → ◌≡◌ {A = Option Row} (some held_row) (some r) → IsAmount r.amount_micros
held_row-IsAmount r h =
    subst (λ q. IsAmount (Row.amount_micros q)) (some_row held_row r h)
      (omega arith, (omega arith, omega arith))
  where
    some_row : (a b : Row) → ◌≡◌ {A = Option Row} (some a) (some b) → a ≡ b
    some_row a b h = cc

one_row-IsChecked : IsChecked (one_row held_row)
one_row-IsChecked id r h = elim (Bool-cases ("n1" == id)) [
  | inl same ↦ held_row-IsAmount r (rw same at h)
  | inr other ↦ let z = rw other at h in absurd (no_row r z)
]
  where
    no_row : (r : Row) → ◌≢◌ {A = Option Row} none (some r)
    no_row r h = cc

abbrev for_ana : IssueCardRequest
for_ana = record { account_id = "ana"; holder_name = "Ana"; virtual_card = true }

abbrev for_beto : IssueCardRequest
for_beto = record { account_id = "beto"; holder_name = "Beto"; virtual_card = false }

abbrev issued : Processor
issued = record { by_id = ("card-u1", ana_card) ∷ []; issue = [] }

issued_known : card issued "card-u1" ≡ ok ana_card
unfolding card
issued_known = refl

-- The clearing of which the bank advanced the overage, whose row was not marked.
abbrev half_done : Store
half_done = record empty {
  book =
      clearing_posting memory directory accounts "visa" with_tip "overage" (scan "n1" held_row)
      ∷ [];
}

abbrev third_account : List Entry → String
third_account (_ ∷ _ ∷ e ∷ _) = e.account_id
third_account _ = ""

not_the_same :
    ¬ Same
      (clearing_posting memory directory accounts "visa" with_tip "ana" (scan "n1" held_row))
      (clearing_posting memory directory accounts "visa" with_tip "overage" (scan "n1" held_row))
not_the_same h = distinct.customer_ne_overage (ap third_account h.1)

clear_conflicts_example :
    let (o, (c, t)) =
      clear memory directory accounts "visa" with_tip (half_done, one_row held_row) in
    Stuck memory directory accounts "visa" memory_IsLedger half_done.book
      (one_row held_row).rows
      o
      c.book
      t.rows
clear_conflicts_example =
    clear_conflicts memory directory accounts "visa" memory_IsLedger with_tip half_done
      (one_row held_row) held_row
      (clearing_posting memory directory accounts "visa" with_tip "overage" (scan "n1" held_row))
      refl refl refl not_the_same

cards-IsSound_example :
    IsSound
      (authorize memory directory accounts "visa" dinner (out_of_funds, one_row held_row)).1.0.book
    × IsSound
        (clear memory directory accounts "visa" with_tip (out_of_funds, one_row held_row)).1.0.book
    × IsSound
        (reverse memory directory accounts "visa" given_up
          (out_of_funds, one_row held_row)).1.0.book
cards-IsSound_example =
    cards-IsSound memory directory accounts "visa" memory_IsLedger dinner with_tip given_up
      out_of_funds (one_row held_row) (omega arith, omega arith) one_row-IsChecked (λ c. refl)

-- A purchase that is held, and one that was cleared.
abbrev two_purchases : Table
two_purchases = record (one_row cleared_row) { rows = ("n2", held_row) ∷ ("n1", cleared_row) ∷ [] }

rows_stay_example :
    (lookup "n2" (authorize memory directory accounts "visa" dinner (empty, two_purchases)).1.1.rows
      ≡ some held_row)
    × (lookup "n1" (clear memory directory accounts "visa" with_tip (empty, two_purchases)).1.1.rows
        ≡ some cleared_row)
    × (lookup "n1"
          (reverse memory directory accounts "visa" given_up (empty, two_purchases)).1.1.rows
        ≡ some cleared_row)
rows_stay_example =
    rows_stay memory directory accounts "visa" "n2" "n1" held_row cleared_row dinner with_tip
      given_up empty two_purchases refl refl cleared_ne_held
