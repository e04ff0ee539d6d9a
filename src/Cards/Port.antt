-- ===== src/Cards/Port.antt =====
-- adapters/cards/port.go: cards, and what the network sends and is told.
use aerarium_agentic_banking.Common.{ℕ, String, Bool, Result}
use aerarium_agentic_banking.Common.Int.{ℤ}

pub data CardStatus : Type 0 where
  card_active card_frozen card_cancelled : CardStatus

pub record Card : Type 0 where
  pub id : String
  pub account_id : String
  pub last_four : String
  pub status : CardStatus

-- `ErrUnknownCard`, or any other failure of the directory.
pub data DirectoryError : Type 0 where
  unknown_card other_failure : DirectoryError

abbrev pub CardDirectory : Type 0
CardDirectory = String → Result DirectoryError Card

pub record AuthorizationRequest : Type 0 where
  pub network_transaction_id : String
  pub card_id : String
  pub amount_micros : ℤ
  pub currency : String
  pub merchant_name : String
  pub requested_at : ℕ

pub data DeclineReason : Type 0 where
  decline_none decline_insufficient_funds decline_card_frozen : DeclineReason
  decline_card_cancelled decline_unknown_card decline_limit_exceeded : DeclineReason
  decline_system_error : DeclineReason

-- The text that the network is given for a reason.
unfoldable pub reason_text : DeclineReason → String
reason_text decline_insufficient_funds = "insufficient_funds"
reason_text decline_card_frozen = "card_frozen"
reason_text decline_card_cancelled = "card_cancelled"
reason_text decline_unknown_card = "unknown_card"
reason_text decline_limit_exceeded = "limit_exceeded"
reason_text decline_system_error = "system_error"
reason_text decline_none = "none"

pub record AuthorizationDecision : Type 0 where
  pub approved : Bool
  pub reason : DeclineReason
  pub hold_transaction_id : String
  pub duplicate : Bool

pub record ClearingNotification : Type 0 where
  pub network_transaction_id : String
  pub clearing_id : String
  pub final_amount_micros : ℤ
  pub currency : String
  pub settled_at : ℕ

pub record ReversalNotification : Type 0 where
  pub network_transaction_id : String
  pub reversal_id : String
  pub reason : String

pub record IssueCardRequest : Type 0 where
  pub account_id : String
  pub holder_name : String
  pub virtual_card : Bool
