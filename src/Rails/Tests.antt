-- ===== src/Rails/Tests.antt =====
-- The adapter of the rail run on a core in memory and the simulated rail.
use aerarium_agentic_banking.Common.{
  String, ◌≡◌, refl, ◌≢◌, ◌↔◌, true, false, none, [], arith, eq_iff, Result, ok,
}
use aerarium_agentic_banking.Common.Int.{pos}
use aerarium_agentic_banking.Core.Client.{post}
use aerarium_agentic_banking.Core.Book.{IsSound}
use aerarium_agentic_banking.Core.Memory.{Store, empty, memory, memory_post}
use aerarium_agentic_banking.Core.Memory.Laws.{memory_IsLedger}
use aerarium_agentic_banking.Rails.Port.{SendRequest, SendReceipt, InboundCredit, Rail}
use aerarium_agentic_banking.Rails.Service.{
  Accounts, outbound_settled, OutboundRequest, OutboundResult, ServiceError, InboundResult,
  send_outbound, inbound_key, reserve_key, settle_key, reverse_key, handle_inbound_credit,
}
use aerarium_agentic_banking.Rails.Service.Keys.{keys_separate}
use aerarium_agentic_banking.Rails.Service.Phases.{IsFresh, Phases, send_outbound-Phases}
use aerarium_agentic_banking.Rails.Service.Money.{stands, AreDistinct, Moved, send_outbound-Moved}
use aerarium_agentic_banking.Rails.Service.Sound.{rails-IsSound}
use aerarium_agentic_banking.Rails.Service.Retry.{Redelivered, handle_inbound_credit_again}
use aerarium_agentic_banking.Rails.Service.Repeat.{PaidByTheBank, undone, resend_pays_twice}
use aerarium_agentic_banking.Rails.Sim.{
  Outside, SimRail, new, register_alias, reject_next_sends, fail_next_sends, wait, resolve_alias,
  send, sim_rail, AliasDirectory, register, account_id_for_alias, sim_directory,
}
use aerarium_agentic_banking.Rails.Sim.Idempotent.{rearmed}

abbrev outside : Outside
outside = record { cancelled = false; new_id = λ n. "id"; now = 7 }

abbrev rail : Rail
rail = sim_rail "sim" outside

abbrev accounts : Accounts
accounts = record { settlement_id = "settlement"; in_transit_id = "transit" }

abbrev ana_pays : OutboundRequest
ana_pays = record {
  transfer_id = "t1";
  from_account_id = "ana";
  to_alias = "beto@pix";
  amount_micros = pos 5000000;
  currency = "PEN";
  reference = "";
}

abbrev ready : SimRail
ready = register_alias "beto@pix" "Beto" "other" new

settles :
    (send_outbound memory rail accounts ana_pays (empty, ready)).0
    ≡ ok (record { status = outbound_settled; rail_transaction_id = "rail-id"; reason = "" })
unfolding send_outbound post memory_post resolve_alias send register_alias new
settles = refl

ana_distinct : AreDistinct memory rail accounts ana_pays
ana_distinct = record {
  from_ne_transit = ground (arith, eq_iff "ana" "transit");
  from_ne_settlement = ground (arith, eq_iff "ana" "settlement");
  transit_ne_settlement = ground (arith, eq_iff "transit" "settlement");
}

ana_pays-IsFresh : IsFresh memory rail accounts ana_pays []
ana_pays-IsFresh = record { not_reserved = refl; not_settled = refl; not_reversed = refl }

send_outbound-Phases_example :
    let (o, w) = send_outbound memory rail accounts ana_pays (empty, ready) in
    Phases memory rail accounts ana_pays [] o w.0.book
send_outbound-Phases_example =
    send_outbound-Phases memory rail accounts memory_IsLedger ana_pays empty ready ana_pays-IsFresh

send_outbound-Moved_example :
    Moved (pos 5000000) outbound_settled (stands memory rail accounts ana_pays []) (
      stands memory rail accounts ana_pays
        (send_outbound memory rail accounts ana_pays (empty, ready)).1.0.book)
send_outbound-Moved_example =
    send_outbound-Moved memory rail accounts memory_IsLedger ana_pays ana_distinct empty ready
      ana_pays-IsFresh settles

-- An incoming credit of 3 soles for a customer with an alias.
abbrev for_ana : InboundCredit
for_ana = record {
  rail_transaction_id = "r9";
  to_alias = "ana@bank";
  amount_micros = pos 3000000;
  currency = "PEN";
  sender_name = "Beto";
  occurred_at = 1;
}

abbrev anas : AliasDirectory
anas = register "ana@bank" "ana" []

abbrev credited : Result ServiceError InboundResult × (Store × AliasDirectory)
credited = handle_inbound_credit memory rail accounts sim_directory for_ana (empty, anas)

abbrev first_credit : InboundResult
first_credit = record {
  transaction_id = "tx-rail:sim:in:r9";
  account_id = "ana";
  duplicate = false;
}

credited_first : credited.0 ≡ ok first_credit
unfolding handle_inbound_credit post memory_post account_id_for_alias register
credited_first = refl

-- The alias is another account's by the time of the second delivery.
abbrev repointed : AliasDirectory
repointed = register "ana@bank" "eva" anas

handle_inbound_credit_again_example :
    let (y, (c2, _)) =
      handle_inbound_credit memory rail accounts sim_directory for_ana (credited.1.0, repointed) in
    Redelivered first_credit (account_id_for_alias repointed "ana@bank") y
    × (c2.book ≡ credited.1.0.book)
handle_inbound_credit_again_example =
    handle_inbound_credit_again memory rail accounts memory_IsLedger sim_directory for_ana empty
      credited.1.0 anas repointed credited_first refl

-- The rail rejects the order once; the customer sends it again.
abbrev rejected_once : Result ServiceError OutboundResult × (Store × SimRail)
rejected_once = send_outbound memory rail accounts ana_pays (empty, reject_next_sends 1 ready)

comes_back : rejected_once.1.0.book ≡ undone memory rail accounts memory_IsLedger ana_pays []
unfolding send_outbound post memory_post resolve_alias send register_alias new reject_next_sends
comes_back = refl

goes_out :
    (send_outbound memory rail accounts ana_pays rejected_once.1).0
    ≡ ok (record { status = outbound_settled; rail_transaction_id = "rail-id"; reason = "" })
unfolding send_outbound post memory_post resolve_alias send register_alias new reject_next_sends
goes_out = refl

resend_pays_twice_example : PaidByTheBank (pos 5000000) (stands memory rail accounts ana_pays []) (
    stands memory rail accounts ana_pays
      (send_outbound memory rail accounts ana_pays rejected_once.1).1.0.book)
resend_pays_twice_example =
    resend_pays_twice memory rail accounts memory_IsLedger ana_pays ana_distinct rejected_once.1.0
      rejected_once.1.1 [] ana_pays-IsFresh comes_back goes_out refl

abbrev outside_later : Outside
outside_later = record { cancelled = true; new_id = λ n. "another"; now = 9 }

abbrev order : SendRequest
order = record {
  transfer_id = "t1";
  alias = "beto@pix";
  amount_micros = pos 5;
  currency = "PEN";
  reference = "";
}

abbrev other_order : SendRequest
other_order = record {
  transfer_id = "t1";
  alias = "nobody@pix";
  amount_micros = pos 6;
  currency = "PEN";
  reference = "";
}

abbrev receipt : SendReceipt
receipt = record { rail_transaction_id = "rail-id"; accepted_at = 7 }

accepted : (send outside order ready).0 ≡ ok receipt
unfolding send register_alias new
accepted = refl

nothing_to_wait_for : wait outside_later (rearmed 1 1 (send outside order ready).1) ≡ none
unfolding send register_alias new wait fail_next_sends reject_next_sends
nothing_to_wait_for = refl

abbrev one : String
one = "a"

abbrev two : String
two = "b"

keys_separate_example :
    (reserve_key "pix" one ≢ settle_key "pix" two)
    × (reserve_key "pix" one ≢ reverse_key "pix" two)
    × (reverse_key "pix" one ≢ settle_key "pix" two)
    × (inbound_key "pix" one ≢ reserve_key "pix" two)
    × (inbound_key "pix" one ≢ settle_key "pix" two)
    × (inbound_key "pix" one ≢ reverse_key "pix" two)
    × ((reserve_key "pix" one ≡ reserve_key "pix" two) ↔ (one ≡ two))
    × ((settle_key "pix" one ≡ settle_key "pix" two) ↔ (one ≡ two))
    × ((reverse_key "pix" one ≡ reverse_key "pix" two) ↔ (one ≡ two))
    × ((inbound_key "pix" one ≡ inbound_key "pix" two) ↔ (one ≡ two))
keys_separate_example = keys_separate "pix" one "b"

rails-IsSound_example :
    IsSound (send_outbound memory rail accounts ana_pays (empty, ready)).1.0.book
    × IsSound credited.1.0.book
rails-IsSound_example =
    rails-IsSound memory rail accounts memory_IsLedger sim_directory ana_pays for_ana empty ready
      anas (λ c. refl)
