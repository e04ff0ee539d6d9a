-- ===== src/Rails/Service.antt =====
-- adapters/rails/service.go: a transfer out in three phases, and an incoming credit.
pub mod Keys
pub mod Phases
pub mod Money
pub mod Sound
pub mod Retry
pub mod Repeat
use Prim.Native.String.{◌++◌}
use aerarium_agentic_banking.Common.{
  String, Bool, List, [], ◌∷◌, ◌==◌, if◌then◌else◌, Result, ok, err,
}
use aerarium_agentic_banking.Common.Int.{ℤ, pos, leb_ℤ}
use aerarium_agentic_banking.Core.Entry.{Entry, PostResult, debit, credit}
use aerarium_agentic_banking.Core.Errors.{CoreError, error_text}
use aerarium_agentic_banking.Core.Client.{Core, post}
use aerarium_agentic_banking.Rails.Port.{
  RailError, AliasTarget, SendRequest, SendReceipt, InboundCredit, Rail, AccountResolver,
  is_definitive,
}

pub record Accounts : Type 0 where
  pub settlement_id : String
  pub in_transit_id : String

pub data OutboundStatus : Type 0 where
  outbound_settled outbound_reversed outbound_in_transit : OutboundStatus

pub record OutboundRequest : Type 0 where
  pub transfer_id : String
  pub from_account_id : String
  pub to_alias : String
  pub amount_micros : ℤ
  pub currency : String
  pub reference : String

pub record OutboundResult : Type 0 where
  pub status : OutboundStatus
  pub rail_transaction_id : String
  pub reason : String

pub record InboundResult : Type 0 where
  pub transaction_id : String
  pub account_id : String
  pub duplicate : Bool

-- The errors that the two operations return.
pub data ServiceError : Type 0 where
  missing_rail_id missing_transfer_id : ServiceError
  invalid_amount : ℤ → ServiceError
  rail_error : RailError → ServiceError
  crediting reserving reversing : CoreError → ServiceError

abbrev pub inbound_key : String → String → String
inbound_key name rail_tx_id = "rail:" ++ (name ++ (":in:" ++ rail_tx_id))

abbrev pub reserve_key : String → String → String
reserve_key name transfer_id = "rail:" ++ (name ++ (":out-reserve:" ++ transfer_id))

abbrev pub settle_key : String → String → String
settle_key name transfer_id = "rail:" ++ (name ++ (":out-settle:" ++ transfer_id))

abbrev pub reverse_key : String → String → String
reverse_key name transfer_id = "rail:" ++ (name ++ (":out-reverse:" ++ transfer_id))

abbrev pub to_send_request : OutboundRequest → SendRequest
to_send_request req = record {
  transfer_id = req.transfer_id;
  alias = req.to_alias;
  amount_micros = req.amount_micros;
  currency = req.currency;
  reference = req.reference;
}

abbrev outbound : OutboundStatus → String → String → OutboundResult
outbound status rail_transaction_id reason = record {
  status = status;
  rail_transaction_id = rail_transaction_id;
  reason = reason;
}

module _ (C : Core) (R : Rail) (accounts : Accounts) where
  open accounts use {settlement_id, in_transit_id}

  -- The states of the core and of the rail.
  abbrev pub World : Type 0
  World = Core.State C × Rail.State R

  abbrev pub reserve_entries : OutboundRequest → List Entry
  reserve_entries req =
      debit req.from_account_id req.amount_micros req.currency
      ∷ credit in_transit_id req.amount_micros req.currency
      ∷ []

  abbrev pub settle_entries : OutboundRequest → List Entry
  settle_entries req =
      debit in_transit_id req.amount_micros req.currency
      ∷ credit settlement_id req.amount_micros req.currency
      ∷ []

  abbrev pub reverse_entries : OutboundRequest → List Entry
  reverse_entries req =
      debit in_transit_id req.amount_micros req.currency
      ∷ credit req.from_account_id req.amount_micros req.currency
      ∷ []

  after_settle :
      SendReceipt
      → Rail.State R
      → Result CoreError PostResult × Core.State C
      → Result ServiceError OutboundResult × World
  after_settle receipt r (ok _, c) =
      (ok (outbound outbound_settled receipt.rail_transaction_id ""), (c, r))
  after_settle receipt r (err e, c) = (
    ok (
        outbound outbound_in_transit receipt.rail_transaction_id
          ("enviado pero sin asentar el cierre: " ++ error_text e)),
    (c, r),
  )

  after_reverse :
      RailError
      → Rail.State R
      → Result CoreError PostResult × Core.State C
      → Result ServiceError OutboundResult × World
  after_reverse e r (ok _, c) = (ok (outbound outbound_reversed "" e.text), (c, r))
  after_reverse e r (err p, c) = (err (reversing p), (c, r))

  -- The `switch` on what the rail answered.
  after_send :
      OutboundRequest
      → Core.State C
      → Result RailError SendReceipt × Rail.State R
      → Result ServiceError OutboundResult × World
  after_send req c (ok receipt, r) = after_settle receipt r (
      post C (settle_key (Rail.name R) req.transfer_id) "rail_outbound_settle" (settle_entries req)
        receipt.rail_transaction_id c)
  after_send req c (err e, r) =
      if is_definitive e.kind
      then after_reverse e r (
          post C (reverse_key (Rail.name R) req.transfer_id) "rail_outbound_reverse"
            (reverse_entries req) ("reversa: " ++ e.text) c)
      else (ok (outbound outbound_in_transit "" e.text), (c, r))

  after_reserve :
      OutboundRequest
      → Rail.State R
      → Result CoreError PostResult × Core.State C
      → Result ServiceError OutboundResult × World
  after_reserve req r (ok _, c) = after_send req c (Rail.send R (to_send_request req) r)
  after_reserve req r (err e, c) = (err (reserving e), (c, r))

  after_resolve :
      OutboundRequest
      → Core.State C
      → Result RailError AliasTarget × Rail.State R
      → Result ServiceError OutboundResult × World
  after_resolve req c (ok _, r) = after_reserve req r (
      post C (reserve_key (Rail.name R) req.transfer_id) "rail_outbound_reserve"
        (reserve_entries req) (Rail.name R ++ (" -> " ++ req.to_alias)) c)
  after_resolve req c (err e, r) = (err (rail_error e), (c, r))

  unfoldable pub send_outbound :
      OutboundRequest → World → Result ServiceError OutboundResult × World
  unfolding after_resolve after_reserve after_send after_settle after_reverse
  send_outbound req (c, r) =
      if req.transfer_id == ""
      then (err missing_transfer_id, (c, r))
      else if leb_ℤ req.amount_micros (pos 0)
      then (err (invalid_amount req.amount_micros), (c, r))
      else after_resolve req c (Rail.resolve_alias R req.to_alias r)

  abbrev pub inbound_entries : InboundCredit → String → List Entry
  inbound_entries credited account_id =
      debit settlement_id credited.amount_micros credited.currency
      ∷ credit account_id credited.amount_micros credited.currency
      ∷ []

  module _ (D : AccountResolver) where
    after_credit :
        String
        → AccountResolver.State D
        → Result CoreError PostResult × Core.State C
        → Result ServiceError InboundResult × (Core.State C × AccountResolver.State D)
    after_credit account_id d (ok p, c) = (
      ok (record {
        transaction_id = p.transaction_id;
        account_id = account_id;
        duplicate = p.replayed;
      }),
      (c, d),
    )
    after_credit account_id d (err e, c) = (err (crediting e), (c, d))

    after_alias :
        InboundCredit
        → Core.State C
        → Result RailError String × AccountResolver.State D
        → Result ServiceError InboundResult × (Core.State C × AccountResolver.State D)
    after_alias credited c (ok account_id, d) = after_credit account_id d (
        post C (inbound_key (Rail.name R) credited.rail_transaction_id) "rail_inbound_credit"
          (inbound_entries credited account_id) (Rail.name R ++ (": " ++ credited.sender_name)) c)
    after_alias credited c (err e, d) = (err (rail_error e), (c, d))

    unfoldable pub handle_inbound_credit :
        InboundCredit
        → Core.State C × AccountResolver.State D
        → Result ServiceError InboundResult × (Core.State C × AccountResolver.State D)
    unfolding after_alias after_credit
    handle_inbound_credit credited (c, d) =
        if credited.rail_transaction_id == ""
        then (err missing_rail_id, (c, d))
        else if leb_ℤ credited.amount_micros (pos 0)
        then (err (invalid_amount credited.amount_micros), (c, d))
        else after_alias credited c (AccountResolver.account_id_for_alias D credited.to_alias d)
