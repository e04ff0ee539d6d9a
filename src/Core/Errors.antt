-- ===== src/Core/Errors.antt =====
-- clients/go/coreclient/errors.go: from a gRPC failure to a typed error.
use Prim.Native.String.{◌++◌}
use aerarium_agentic_banking.Common.{
  String, ◌≡◌, ◌↔◌, Bool, true, false, Option, none, some, List, [], ◌∷◌, arith, ◌==◌,
  if◌then◌else◌,
}

-- The sentinel errors. A wrapped error is told by the sentinel that it wraps.
pub data Sentinel : Type 0 where
  invalid idempotency_conflict insufficient_funds balance_cap_exceeded : Sentinel
  transaction_cap_exceeded not_found already_exists credit_limit_exceeded : Sentinel
  credit_line_inactive overpayment unavailable : Sentinel

-- `fmt.Errorf("%w: %s", sentinel, message)`
pub record CoreError : Type 0 where
  pub sentinel : Sentinel
  pub message : String

pub Sentinel-discrete : Discrete Sentinel
Sentinel-discrete = hlevel

abbrev pub is_unavailable : Sentinel → Bool
is_unavailable unavailable = true
is_unavailable _ = false

abbrev pub is_insufficient_funds : Sentinel → Bool
is_insufficient_funds insufficient_funds = true
is_insufficient_funds _ = false

-- `Retryable`
unfoldable pub retryable : CoreError → Bool
retryable e = is_unavailable e.sentinel

pub data Reason : Type 0 where
  reason_unspecified reason_invalid reason_idempotency_conflict : Reason
  reason_insufficient_funds reason_balance_cap_exceeded : Reason
  reason_transaction_cap_exceeded reason_already_exists : Reason
  reason_credit_limit_exceeded reason_credit_line_inactive reason_overpayment : Reason

-- The gRPC codes that the client tells apart; `other_code` is any other.
pub data Code : Type 0 where
  code_not_found code_invalid_argument code_aborted : Code
  code_already_exists code_failed_precondition other_code : Code

-- `status.FromError`: an error that carries no status, or one with a code and a message.
pub data GrpcError : Type 0 where
  no_status : String → GrpcError
  status : Code → String → GrpcError

-- The generated table of the reasons' names, which the client reads a trailer with.
abbrev pub posting_error_reason_value : String → Option Reason
posting_error_reason_value name =
    if name == "POSTING_ERROR_REASON_UNSPECIFIED"
    then some reason_unspecified
    else if name == "POSTING_ERROR_REASON_INVALID"
    then some reason_invalid
    else if name == "POSTING_ERROR_REASON_IDEMPOTENCY_CONFLICT"
    then some reason_idempotency_conflict
    else if name == "POSTING_ERROR_REASON_INSUFFICIENT_FUNDS"
    then some reason_insufficient_funds
    else if name == "POSTING_ERROR_REASON_BALANCE_CAP_EXCEEDED"
    then some reason_balance_cap_exceeded
    else if name == "POSTING_ERROR_REASON_TRANSACTION_CAP_EXCEEDED"
    then some reason_transaction_cap_exceeded
    else if name == "POSTING_ERROR_REASON_ALREADY_EXISTS"
    then some reason_already_exists
    else if name == "POSTING_ERROR_REASON_CREDIT_LIMIT_EXCEEDED"
    then some reason_credit_limit_exceeded
    else if name == "POSTING_ERROR_REASON_CREDIT_LINE_INACTIVE"
    then some reason_credit_line_inactive
    else if name == "POSTING_ERROR_REASON_OVERPAYMENT"
    then some reason_overpayment
    else none

abbrev or_unspecified : Option Reason → Reason
or_unspecified none = reason_unspecified
or_unspecified (some r) = r

-- The values of the reason's trailer, of which the first counts.
unfoldable pub reason_from : List String → Reason
reason_from [] = reason_unspecified
reason_from (name ∷ _) = or_unspecified (posting_error_reason_value name)

unfoldable pub sentinel_for_reason : Reason → Option Sentinel
sentinel_for_reason reason_invalid = some invalid
sentinel_for_reason reason_idempotency_conflict = some idempotency_conflict
sentinel_for_reason reason_insufficient_funds = some insufficient_funds
sentinel_for_reason reason_balance_cap_exceeded = some balance_cap_exceeded
sentinel_for_reason reason_transaction_cap_exceeded = some transaction_cap_exceeded
sentinel_for_reason reason_already_exists = some already_exists
sentinel_for_reason reason_credit_limit_exceeded = some credit_limit_exceeded
sentinel_for_reason reason_credit_line_inactive = some credit_line_inactive
sentinel_for_reason reason_overpayment = some overpayment
sentinel_for_reason reason_unspecified = none

unfoldable pub sentinel_for_code : Code → Sentinel
sentinel_for_code code_not_found = not_found
sentinel_for_code code_invalid_argument = invalid
sentinel_for_code code_aborted = idempotency_conflict
sentinel_for_code code_already_exists = already_exists
sentinel_for_code code_failed_precondition = invalid
sentinel_for_code other_code = unavailable

abbrev or_code : Option Sentinel → Code → Sentinel
or_code (some s) _ = s
or_code none c = sentinel_for_code c

unfoldable pub translate : GrpcError → List String → CoreError
translate (no_status text) trailer = record { sentinel = unavailable; message = text }
translate (status code message) trailer = record {
  sentinel = or_code (sentinel_for_reason (reason_from trailer)) code;
  message = message;
}

-- The text of each sentinel, and of an error that wraps it.
abbrev pub sentinel_text : Sentinel → String
sentinel_text invalid = "solicitud inválida"
sentinel_text idempotency_conflict = "conflicto de idempotencia"
sentinel_text insufficient_funds = "fondos insuficientes"
sentinel_text balance_cap_exceeded = "tope de saldo excedido"
sentinel_text transaction_cap_exceeded = "tope por operación excedido"
sentinel_text not_found = "no encontrado"
sentinel_text already_exists = "ya existe"
sentinel_text credit_limit_exceeded = "límite de crédito excedido"
sentinel_text credit_line_inactive = "línea de crédito inactiva"
sentinel_text overpayment = "el pago supera la deuda"
sentinel_text unavailable = "core no disponible"

abbrev pub error_text : CoreError → String
error_text e = sentinel_text e.sentinel ++ ": " ++ e.message

-- A failure that came with a status may be retried exactly if the trailer names no reason that the
-- client knows and the code is none of the five definitive ones.
pub retryable-translate_iff :
    (code : Code) (message : String) (trailer : List String)
    → (retryable (translate (status code message) trailer) ≡ true)
      ↔ ((reason_from trailer ≡ reason_unspecified) × (code ≡ other_code))
unfolding retryable translate sentinel_for_reason sentinel_for_code
retryable-translate_iff code message trailer = ground arith

-- A reason that the trailer names decides the error, whatever the code.
pub translate-reason :
    (code : Code) (message name : String) (rest : List String) {r : Reason} {s : Sentinel}
    → posting_error_reason_value name ≡ some r
    → sentinel_for_reason r ≡ some s
    → (translate (status code message) (name ∷ rest)).sentinel ≡ s
unfolding translate reason_from
translate-reason code message name rest h k = rw (h, k)
