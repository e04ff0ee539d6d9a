-- ===== src/Core/Client.antt =====
-- clients/go/coreclient/client.go: the calls to the core. The core itself, another program, is an
-- interface: its state, and what each call answers.
use aerarium_agentic_banking.Common.{ℕ, String, Bool, List, map, Result, ok, err}
use aerarium_agentic_banking.Common.Int.{ℤ}
use aerarium_agentic_banking.Core.Entry.{Direction, Entry, PostResult}
use aerarium_agentic_banking.Core.Errors.{GrpcError, CoreError, translate}

pub record Money : Type 0 where
  pub amount_micros : ℤ
  pub currency : String

pub record PbEntry : Type 0 where
  pub account_id : String
  pub direction : Direction
  pub amount : Money

pub record PostRequest : Type 0 where
  pub idempotency_key : String
  pub kind : String
  pub entries : List PbEntry
  pub description : String

pub record PostResponse : Type 0 where
  pub transaction_id : String
  pub posted_at : ℕ
  pub replayed : Bool

-- A failed call: the error and the values of the trailer that names the reason.
pub record Failure : Type 0 where
  pub error : GrpcError
  pub trailer : List String

-- The part of the core's accounts that the services read.
pub record Account : Type 0 where
  pub id : String
  pub owner_id : String
  pub parent_account_id : String
  pub currency : String

-- The core behind its gRPC interface.
pub record Core : Type 1 where
  pub State : Type 0
  pub post_call : PostRequest → State → Result Failure PostResponse × State
  pub get_account_call : String → State → Result Failure Account × State
  pub get_account_by_id_call : String → State → Result Failure Account × State
  pub open_customer_account_call :
      String → String → String → String → State → Result Failure Account × State

abbrev pub to_pb : Entry → PbEntry
to_pb e = record {
  account_id = e.account_id;
  direction = e.direction;
  amount = record { amount_micros = e.amount_micros; currency = e.currency };
}

abbrev typed_error : Failure → CoreError
typed_error f = translate f.error f.trailer

abbrev answer : {A : Type 0} {S : Type 0} → Result Failure A × S → Result CoreError A × S
answer (ok a, s) = (ok a, s)
answer (err f, s) = (err (typed_error f), s)

abbrev pub post_answer :
    {S : Type 0} → Result Failure PostResponse × S → Result CoreError PostResult × S
post_answer (ok r, s) = (
  ok (record { transaction_id = r.transaction_id; posted_at = r.posted_at; replayed = r.replayed }),
  s,
)
post_answer (err f, s) = (err (typed_error f), s)

abbrev pub post_request : String → String → List Entry → String → PostRequest
post_request key kind entries description = record {
  idempotency_key = key;
  kind = kind;
  entries = map to_pb entries;
  description = description;
}

module _ (C : Core) where
  open C use {
    State, post_call, get_account_call, get_account_by_id_call, open_customer_account_call,
  }

  unfoldable pub post :
      String → String → List Entry → String → State → Result CoreError PostResult × State
  post key kind entries description s =
      post_answer (post_call (post_request key kind entries description) s)

  unfoldable pub get_account : String → State → Result CoreError Account × State
  get_account code s = answer (get_account_call code s)

  unfoldable pub get_account_by_id : String → State → Result CoreError Account × State
  get_account_by_id id s = answer (get_account_by_id_call id s)

  unfoldable pub open_customer_account :
      String → String → String → String → State → Result CoreError Account × State
  open_customer_account code name customer_id product_code s =
      answer (open_customer_account_call code name customer_id product_code s)
