-- ===== src/Rails/Port.antt =====
-- adapters/rails/port.go: what every rail offers, and the directory of aliases.
use aerarium_agentic_banking.Common.{ℕ, String, Bool, true, false, Result}
use aerarium_agentic_banking.Common.Int.{ℤ}

-- The errors that a rail can express, any other error among them, such as a cancelled context.
pub data RailErrorKind : Type 0 where
  unknown_alias rejected unavailable alias_not_ours other_error : RailErrorKind

-- An error that wraps one of these, with its whole text.
pub record RailError : Type 0 where
  pub kind : RailErrorKind
  pub text : String

pub record AliasTarget : Type 0 where
  pub alias : String
  pub holder_name : String
  pub institution : String

pub record SendRequest : Type 0 where
  pub transfer_id : String
  pub alias : String
  pub amount_micros : ℤ
  pub currency : String
  pub reference : String

pub record SendReceipt : Type 0 where
  pub rail_transaction_id : String
  pub accepted_at : ℕ

pub record InboundCredit : Type 0 where
  pub rail_transaction_id : String
  pub to_alias : String
  pub amount_micros : ℤ
  pub currency : String
  pub sender_name : String
  pub occurred_at : ℕ

-- The port: a rail has a state of its own, which its calls may change.
pub record Rail : Type 1 where
  pub State : Type 0
  pub name : String
  pub resolve_alias : String → State → Result RailError AliasTarget × State
  pub send : SendRequest → State → Result RailError SendReceipt × State

-- The directory of aliases, another port: a call may fail, and may answer otherwise later on.
pub record AccountResolver : Type 1 where
  pub State : Type 0
  pub account_id_for_alias : String → State → Result RailError String × State

-- `errors.Is(err, ErrRejected), errors.Is(err, ErrUnknownAlias)`: the rail has moved nothing.
abbrev pub is_definitive : RailErrorKind → Bool
is_definitive rejected = true
is_definitive unknown_alias = true
is_definitive _ = false
