-- ===== src/Cards/Service.antt =====
-- adapters/cards/service.go: a purchase is authorized, and later cleared or reversed.
pub mod Frame
pub mod Sound
pub mod Held
pub mod Repeat
pub mod Clearing
pub mod Charged
pub mod Conflict
pub mod Terminal
use Prim.Native.String.{◌++◌}
use aerarium_agentic_banking.Common.{
  String, Bool, true, false, Option, none, some, List, [], ◌∷◌, ◌++◌ as ◌++ₗ◌, ◌==◌, ◌&&◌,
  if◌then◌else◌, Result, ok, err,
}
use aerarium_agentic_banking.Common.Int.{ℤ, pos, ◌-ℤ◌, leb_ℤ, ltb_ℤ, wrap64}
use aerarium_agentic_banking.Core.Entry.{Entry, PostResult, debit, credit}
use aerarium_agentic_banking.Core.Errors.{
  Sentinel, CoreError, insufficient_funds, transaction_cap_exceeded, balance_cap_exceeded,
  is_insufficient_funds,
}
use aerarium_agentic_banking.Core.Client.{Core, post}
use aerarium_agentic_banking.Cards.Port.{
  CardStatus, card_active, card_frozen, card_cancelled, Card, DirectoryError, unknown_card,
  other_failure, CardDirectory, AuthorizationRequest, DeclineReason, decline_none,
  decline_insufficient_funds, decline_card_frozen, decline_card_cancelled, decline_unknown_card,
  decline_limit_exceeded, decline_system_error, AuthorizationDecision, ClearingNotification,
  ReversalNotification,
}
use aerarium_agentic_banking.Cards.Store.{
  Status, status_held, status_cleared, status_reversed, Authorization, Table, StoreError,
  approvable, get, Reservation, created, existing, reserve, Done, mark_held, mark_cleared,
  mark_reversed, drop,
}

pub record Accounts : Type 0 where
  pub auth_hold_id : String
  pub settlement_id : String
  pub overage_id : String

pub record ClearingResult : Type 0 where
  pub transaction_id : String
  pub final_amount_micros : ℤ
  pub returned_micros : ℤ
  pub overage_micros : ℤ
  pub duplicate : Bool

-- The errors that the three operations return.
pub data ServiceError : Type 0 where
  missing_id : ServiceError
  invalid_amount : ℤ → ServiceError
  store_error : StoreError → ServiceError
  already_reversed already_cleared : String → ServiceError
  posting_clearing releasing_hold : CoreError → ServiceError

abbrev pub auth_key : String → String → String
auth_key network id = "card:" ++ (network ++ (":auth:" ++ id))

abbrev pub clear_key : String → String → String
clear_key network id = "card:" ++ (network ++ (":clear:" ++ id))

abbrev pub reverse_key : String → String → String
reverse_key network id = "card:" ++ (network ++ (":reverse:" ++ id))

abbrev pub declined : DeclineReason → AuthorizationDecision
declined reason = record {
  approved = false;
  reason = reason;
  hold_transaction_id = "";
  duplicate = false;
}

abbrev pub approval : String → AuthorizationDecision
approval hold = record {
  approved = true;
  reason = decline_none;
  hold_transaction_id = hold;
  duplicate = false;
}

-- The answer to an authorization that the network repeats.
abbrev pub repeated : Authorization → AuthorizationDecision
repeated a = record {
  approved = approvable a.status;
  reason = decline_none;
  hold_transaction_id = a.hold_transaction_id;
  duplicate = true;
}

-- The reason for each refusal of the core.
abbrev pub decline_reason : Sentinel → DeclineReason
decline_reason insufficient_funds = decline_insufficient_funds
decline_reason transaction_cap_exceeded = decline_limit_exceeded
decline_reason balance_cap_exceeded = decline_limit_exceeded
decline_reason _ = decline_system_error

abbrev pub to_authorization : AuthorizationRequest → Card → Authorization
to_authorization req card = record {
  network_transaction_id = req.network_transaction_id;
  card_id = req.card_id;
  account_id = card.account_id;
  amount_micros = req.amount_micros;
  currency = req.currency;
  merchant_name = req.merchant_name;
  status = status_held;
  hold_transaction_id = "";
  cleared_amount_micros = pos 0;
  overage_micros = pos 0;
  authorized_at = 0;
}

abbrev pub bool_to : Bool → ℤ → ℤ
bool_to condition value = if condition then value else pos 0

module _ (C : Core) (directory : CardDirectory) (accounts : Accounts) (network : String) where
  open accounts use {auth_hold_id, settlement_id, overage_id}

  -- The states of the core and of the table.
  abbrev pub World : Type 0
  World = Core.State C × Table

  abbrev pub hold_entries : AuthorizationRequest → Card → List Entry
  hold_entries req card =
      debit card.account_id req.amount_micros req.currency
      ∷ credit auth_hold_id req.amount_micros req.currency
      ∷ []

  pub after_drop :
      CoreError → Core.State C → Done × Table → Result ServiceError AuthorizationDecision × World
  after_drop e c (none, t) = (ok (declined (decline_reason e.sentinel)), (c, t))
  after_drop e c (some x, t) = (err (store_error x), (c, t))

  pub after_mark_held :
      PostResult → Core.State C → Done × Table → Result ServiceError AuthorizationDecision × World
  after_mark_held p c (none, t) = (ok (approval p.transaction_id), (c, t))
  after_mark_held p c (some x, t) = (err (store_error x), (c, t))

  pub after_hold :
      AuthorizationRequest
      → Table
      → Result CoreError PostResult × Core.State C
      → Result ServiceError AuthorizationDecision × World
  after_hold req t (ok p, c) =
      after_mark_held p c (mark_held req.network_transaction_id p.transaction_id t)
  after_hold req t (err e, c) = after_drop e c (drop req.network_transaction_id t)

  after_reserve :
      AuthorizationRequest
      → Card
      → Core.State C
      → Result StoreError Reservation × Table
      → Result ServiceError AuthorizationDecision × World
  after_reserve req card c (ok created, t) = after_hold req t (
      post C (auth_key network req.network_transaction_id) "card_authorization_hold"
        (hold_entries req card) req.merchant_name c)
  after_reserve req card c (ok (existing a), t) = (ok (repeated a), (c, t))
  after_reserve req card c (err x, t) = (ok (declined decline_system_error), (c, t))

  with_card :
      AuthorizationRequest
      → Card
      → CardStatus
      → World
      → Result ServiceError AuthorizationDecision × World
  with_card req card card_frozen w = (ok (declined decline_card_frozen), w)
  with_card req card card_cancelled w = (ok (declined decline_card_cancelled), w)
  with_card req card card_active (c, t) =
      after_reserve req card c (reserve (to_authorization req card) t)

  after_directory :
      AuthorizationRequest
      → Result DirectoryError Card
      → World
      → Result ServiceError AuthorizationDecision × World
  after_directory req (ok card) w = with_card req card card.status w
  after_directory req (err unknown_card) w = (ok (declined decline_unknown_card), w)
  after_directory req (err other_failure) w = (ok (declined decline_system_error), w)

  unfoldable pub authorize :
      AuthorizationRequest → World → Result ServiceError AuthorizationDecision × World
  unfolding after_directory with_card after_reserve after_hold after_mark_held after_drop
  authorize req w =
      if req.network_transaction_id == ""
      then (err missing_id, w)
      else if leb_ℤ req.amount_micros (pos 0)
      then (err (invalid_amount req.amount_micros), w)
      else after_directory req (directory req.card_id) w

  -- What a clearing gives back to the customer, and what it takes beyond the hold.
  abbrev pub returned_of : Authorization → ℤ → ℤ
  returned_of a final =
      if ltb_ℤ final a.amount_micros then wrap64 (a.amount_micros -ℤ final) else pos 0

  abbrev pub overage_of : Authorization → ℤ → ℤ
  overage_of a final =
      if ltb_ℤ final a.amount_micros
      then pos 0
      else if ltb_ℤ a.amount_micros final
      then wrap64 (final -ℤ a.amount_micros)
      else pos 0

  -- The two entries of every clearing, and the third if the amounts differ, with the account that
  -- the overage is taken from.
  abbrev pub clearing_entries : String → Authorization → ℤ → List Entry
  clearing_entries overage_account a final =
      debit auth_hold_id a.amount_micros a.currency
      ∷ credit settlement_id final a.currency
      ∷ (if ltb_ℤ final a.amount_micros
          then credit a.account_id (returned_of a final) a.currency ∷ []
          else if ltb_ℤ a.amount_micros final
          then debit overage_account (overage_of a final) a.currency ∷ []
          else [])

  pub post_clearing :
      ClearingNotification
      → String
      → Authorization
      → Core.State C
      → Result CoreError PostResult × Core.State C
  post_clearing n overage_account a c =
      post C (clear_key network n.clearing_id) "card_clearing"
        (clearing_entries overage_account a n.final_amount_micros) a.merchant_name c

  pub after_mark_cleared :
      Authorization
      → ℤ
      → Bool
      → PostResult
      → Core.State C
      → Done × Table
      → Result ServiceError ClearingResult × World
  after_mark_cleared a final absorbed p c (none, t) = (
    ok (record {
      transaction_id = p.transaction_id;
      final_amount_micros = final;
      returned_micros = returned_of a final;
      overage_micros = bool_to absorbed (overage_of a final);
      duplicate = p.replayed;
    }),
    (c, t),
  )
  after_mark_cleared a final absorbed p c (some x, t) = (err (store_error x), (c, t))

  pub after_posting :
      Authorization
      → ℤ
      → Bool
      → Table
      → Result CoreError PostResult × Core.State C
      → Result ServiceError ClearingResult × World
  after_posting a final absorbed t (ok p, c) =
      after_mark_cleared a final absorbed p c
        (mark_cleared a.network_transaction_id final (bool_to absorbed (overage_of a final)) t)
  after_posting a final absorbed t (err e, c) = (err (posting_clearing e), (c, t))

  -- Without the customer's balance for the overage, the bank advances it.
  after_clearing :
      ClearingNotification
      → Authorization
      → Table
      → Result CoreError PostResult × Core.State C
      → Result ServiceError ClearingResult × World
  after_clearing n a t (ok p, c) = after_posting a n.final_amount_micros false t (ok p, c)
  after_clearing n a t (err e, c) =
      if ltb_ℤ (pos 0) (overage_of a n.final_amount_micros) && is_insufficient_funds e.sentinel
      then after_posting a n.final_amount_micros true t (post_clearing n overage_id a c)
      else after_posting a n.final_amount_micros false t (err e, c)

  clear_by_status :
      ClearingNotification
      → Authorization
      → Status
      → World
      → Result ServiceError ClearingResult × World
  clear_by_status n a status_cleared w = (
    ok (record {
      transaction_id = "";
      final_amount_micros = a.cleared_amount_micros;
      returned_micros = pos 0;
      overage_micros = a.overage_micros;
      duplicate = true;
    }),
    w,
  )
  clear_by_status n a status_reversed w = (err (already_reversed a.network_transaction_id), w)
  clear_by_status n a status_held (c, t) = after_clearing n a t (post_clearing n a.account_id a c)

  clear_read :
      ClearingNotification
      → Core.State C
      → Result StoreError Authorization × Table
      → Result ServiceError ClearingResult × World
  clear_read n c (ok a, t) = clear_by_status n a a.status (c, t)
  clear_read n c (err x, t) = (err (store_error x), (c, t))

  unfoldable pub clear : ClearingNotification → World → Result ServiceError ClearingResult × World
  unfolding clear_read clear_by_status after_clearing post_clearing after_posting after_mark_cleared
  clear n (c, t) =
      if n.clearing_id == ""
      then (err missing_id, (c, t))
      else if leb_ℤ n.final_amount_micros (pos 0)
      then (err (invalid_amount n.final_amount_micros), (c, t))
      else clear_read n c (get n.network_transaction_id t)

  abbrev pub release_entries : Authorization → List Entry
  release_entries a =
      debit auth_hold_id a.amount_micros a.currency
      ∷ credit a.account_id a.amount_micros a.currency
      ∷ []

  -- `nil`, or the error.
  pub after_mark_reversed : Core.State C → Done × Table → Option ServiceError × World
  after_mark_reversed c (none, t) = (none, (c, t))
  after_mark_reversed c (some x, t) = (some (store_error x), (c, t))

  pub after_release :
      Authorization
      → Table
      → Result CoreError PostResult × Core.State C
      → Option ServiceError × World
  after_release a t (ok p, c) = after_mark_reversed c (mark_reversed a.network_transaction_id t)
  after_release a t (err e, c) = (some (releasing_hold e), (c, t))

  reverse_by_status :
      ReversalNotification → Authorization → Status → World → Option ServiceError × World
  reverse_by_status n a status_reversed w = (none, w)
  reverse_by_status n a status_cleared w = (some (already_cleared a.network_transaction_id), w)
  reverse_by_status n a status_held (c, t) = after_release a t (
      post C (reverse_key network n.reversal_id) "card_authorization_reversal" (release_entries a)
        n.reason c)

  reverse_read :
      ReversalNotification
      → Core.State C
      → Result StoreError Authorization × Table
      → Option ServiceError × World
  reverse_read n c (ok a, t) = reverse_by_status n a a.status (c, t)
  reverse_read n c (err x, t) = (some (store_error x), (c, t))

  unfoldable pub reverse : ReversalNotification → World → Option ServiceError × World
  unfolding reverse_read reverse_by_status after_release after_mark_reversed
  reverse n (c, t) = reverse_read n c (get n.network_transaction_id t)
