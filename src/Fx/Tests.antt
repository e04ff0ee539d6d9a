-- ===== src/Fx/Tests.antt =====
-- A thousand dollars to soles, on a core in memory.
use aerarium_agentic_banking.Common.{String, ◌≡◌, refl, true, none, [], ◌∷◌, ok}
use aerarium_agentic_banking.Common.Int.{ℤ, pos, ◌+ℤ◌, ◌-ℤ◌, wrap64}
use aerarium_agentic_banking.Core.Client.{Account}
use aerarium_agentic_banking.Core.Book.{IsSound}
use aerarium_agentic_banking.Core.Memory.{Store, memory, empty}
use aerarium_agentic_banking.Core.Memory.Laws.{memory_IsLedger}
use aerarium_agentic_banking.Fx.{Row, Table, quote, convert, priced, finish}
use aerarium_agentic_banking.Fx.Convert.{convert-IsSound}
use aerarium_agentic_banking.Fx.Stored.{Stored, quote-Stored}

abbrev account : String → String → String → Account
account id owner currency = record {
  id = id;
  owner_id = owner;
  parent_account_id = "";
  currency = currency;
}

abbrev bank : Store
bank = record empty {
  accounts =
      ("a-usd", account "a-usd" "ana" "USD")
      ∷ ("a-pen", account "a-pen" "ana" "PEN")
      ∷ ("FX-POSITION-USD", account "p-usd" "" "USD")
      ∷ ("FX-POSITION-PEN", account "p-pen" "" "PEN")
      ∷ [];
}

-- At 3.38 with a spread of 50 basis points: 3363.10 soles, at a cost of 16.90.
thousand_dollars :
    priced (pos 3380000) (pos 50) true (pos 1000000000) ≡ ok (pos 3363100000, pos 16900000)
unfolding finish ◌+ℤ◌ ◌-ℤ◌ wrap64
thousand_dollars = refl

abbrev no_text : ℤ → String
no_text = λ n. ""

quote-Stored_example :
    let (o, (c, t)) =
      quote memory no_text "ana" "a-usd" "a-pen"
        (pos 50)
        (ok (pos 3380000))
        (pos 1000000000)
        "q1"
        5
        (bank, record { rows = []; faults = [] }) in
    Stored memory no_text "ana" (pos 1000000000) o t
quote-Stored_example =
    quote-Stored memory no_text "ana" "a-usd" "a-pen" (pos 50) (ok (pos 3380000)) (pos 1000000000)
      "q1" 5 bank (record { rows = []; faults = [] })

abbrev quoted : Row
quoted = record {
  customer_id = "ana";
  quote = record {
    id = "q1";
    from_account_id = "a-usd";
    to_account_id = "a-pen";
    from_currency = "USD";
    to_currency = "PEN";
    from_micros = pos 1000000000;
    to_micros = pos 3363100000;
    reference_rate = pos 3380000;
    applied_rate = pos 3363100;
    cost_micros = pos 16900000;
    expires_at = 35;
  };
  transaction_id = none;
}

abbrev one_quote : Table
one_quote = record { rows = ("q1", quoted) ∷ []; faults = [] }

convert-IsSound_example : IsSound (convert memory no_text "ana" "q1" 20 (bank, one_quote)).1.0.book
convert-IsSound_example =
    convert-IsSound memory no_text memory_IsLedger "ana" "q1" 20 bank one_quote (λ c. refl)
