-- ===== src/Lib.antt =====
-- Verification of the banking services in Go: payment rails, cards, the control layer with its
-- policy of transfers, the forecast, the currency exchange, the onboarding of customers, the
-- platforms' agents and their authorization, over the client of the core ledger.
--
-- The services keep no money. They post balanced entries to the core, a ledger in another program,
-- under idempotency keys, and answer the network, the rail or the customer from what the core says.
--
-- * Core.Entry, Core.Client and Core.Errors model clients/go/coreclient/client.go and errors.go:
--   `debit`, `credit`, `post` (Post), the calls on accounts, `translate` and `retryable`. The core
--   is a parameter, the record `Core` of its state and its calls. Core.Book states what the services
--   rely on, as `IsLedger`: an append-only book, one posting for each key, a retry of the same
--   payload answered as a replay, another payload under the same key refused as a conflict, and any
--   outcome left open when a call ends as unavailable.
--   Core.Memory is a core in memory, which keeps these promises and which the tests run on.
-- * Rails.Port and Rails.Service model adapters/rails/port.go and service.go: `send_outbound`
--   (SendOutbound), in the steps of its three phases, and `handle_inbound_credit`
--   (HandleInboundCredit). The rail and the directory of aliases are parameters, each with a
--   state of its own. Rails.Sim models adapters/rails/sim/sim.go, the simulated rail and the directory
--   in memory.
-- * Cards.Port, Cards.Store and Cards.Service model adapters/cards: `authorize`, `clear` and
--   `reverse`, and the SQL statements of store.go on a table in memory, of which any may fail and
--   then changes nothing. Cards.Sim models adapters/cards/sim/sim.go.
-- * Control models services/control/control.go: `evaluate`, `decide`, `executed`, `execution_of`.
-- * StepUp models services/stepup/stepup.go, the policy that Control asks on a holder's transfers.
-- * Forecast models services/forecast/forecast.go: `project`, `walk`, `options`, `daily_spend`.
-- * Fx models services/fx/fx.go: `quote` (Quote, with its products and quotients), `convert`
--   (Convert) and `owned_pair`.
-- * Kyc models adapters/kyc/port.go and sim/sim.go: the providers of the checks on a customer.
-- * Onboarding models services/onboarding: Onboarding.Store the tables with the statements of
--   store.go, Onboarding.Service `submit`, `resume`, `approve_manually`, `reject_manually` and the
--   pipeline behind them (`advance`, `run_steps`, `run_step`, `decide`, `open_account`), over a core
--   and two providers that are parameters. Onboarding.Service.Frame has the calls as a relation on
--   states, and what every call keeps.
-- * Agents models services/agents: Agents.Rows the tables, Agents.Store agents.go (`register`,
--   `revoke`, `add_key`, `retire_key`, `key_for_signature`), Agents.Intents intents.go.
-- * Oauth models services/oauth: Oauth.Token token.go (`issue`, `verify`), Oauth.Store store.go
--   (`rotate_secret`, `authenticate`, `link_account`), Oauth.Consent consent.go (`check_grantable`
--   and the answers). Base64, HMAC, JSON, SHA-256 and the split at the dots are parameters.
-- * Sessions models services/sessions/sessions.go: `open_session` (Open), `resolve`, `revoke` and
--   `revoke_device`; Sessions.Closed follows a session through any calls.
-- * Aliases models services/aliases/aliases.go: Aliases.Phone the texts (`normalize_phone`,
--   `mask_name`), Aliases.Service the two tables and the operations (`start_verification`, `verify`,
--   `register_verified`, `mine`, `remove`, `resolve`). The hash, the reading of a UUID and the
--   sender of codes are parameters; Aliases.Kept follows a verification through any calls.
-- * Common has what they share: tests, results, dictionaries, the integers with int64's wrap, and in
--   Common.Action the steps of a service over a database, of which any statement may fail and then
--   changes nothing, with transactions; Common.Outcome says what their success tells of the states.
--
-- A Go function with a switch on a result is a step `after_…` by clauses on that result; the state
-- it changes is passed and returned. Contexts, clocks and generated identifiers are arguments, and
-- an error keeps what the callers tell apart. Amounts are integers; where the code subtracts or
-- multiplies them, the result wraps to 64 bits, and the theorems on clearings ask for positive
-- amounts of 64 bits, which the guard and the table's check give. A date is a number of days,
-- because the program makes every date of a forecast a midnight of one zone. The loop of the
-- forecast runs over the days that are left, so it needs no fuel.
--
-- Not modelled: the creation of schemas, the transport of gRPC and HTTP, floating-point numbers
-- (services/ratelimit), generated code, and the services that no file here names.
pub mod Common
pub mod Core
pub mod Rails
pub mod Cards
pub mod Control
pub mod Forecast
pub mod Fx
pub mod Sessions
pub mod StepUp
pub mod Kyc
pub mod Onboarding
pub mod Agents
pub mod Aliases
pub mod Oauth
