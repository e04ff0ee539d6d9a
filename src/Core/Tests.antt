-- ===== src/Core/Tests.antt =====
-- The client's errors on concrete answers.
use aerarium_agentic_banking.Common.{◌≡◌, refl, some}
use aerarium_agentic_banking.Core.Errors.{
  insufficient_funds, sentinel_for_reason, reason_insufficient_funds,
}

no_funds : sentinel_for_reason reason_insufficient_funds ≡ some insufficient_funds
unfolding sentinel_for_reason
no_funds = refl
