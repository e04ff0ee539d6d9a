-- ===== src/Core/Entry.antt =====
-- clients/go/coreclient/client.go: entries and posting results.
use aerarium_agentic_banking.Common.{ℕ, String, Bool}
use aerarium_agentic_banking.Common.Int.{ℤ}

-- The directions that the client writes.
pub data Direction : Type 0 where
  direction_debit direction_credit : Direction

pub record Entry : Type 0 where
  pub account_id : String
  pub direction : Direction
  pub amount_micros : ℤ
  pub currency : String

abbrev pub debit : String → ℤ → String → Entry
debit account_id amount_micros currency = record {
  account_id = account_id;
  direction = Direction.direction_debit;
  amount_micros = amount_micros;
  currency = currency;
}

abbrev pub credit : String → ℤ → String → Entry
credit account_id amount_micros currency = record {
  account_id = account_id;
  direction = Direction.direction_credit;
  amount_micros = amount_micros;
  currency = currency;
}

-- Times are nanoseconds since an epoch.
pub record PostResult : Type 0 where
  pub transaction_id : String
  pub posted_at : ℕ
  pub replayed : Bool
