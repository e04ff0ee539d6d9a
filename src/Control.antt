-- ===== src/Control.antt =====
-- services/control/control.go: what each actor may do with a customer's money, decided and put on
-- record. A statement on the database may fail, and then changes nothing; the clock, the database
-- and the policy of transfers (services/stepup) stand outside.
pub mod Delegate
pub mod Record
pub mod Trail
mod Tests
use Prim.Native.String.{◌++◌}
use aerarium_agentic_banking.Common.{
  ℕ, ◌-◌, String, Bool, true, false, ◌&&◌, ◌||◌, not, Option, none, some, List, [], ◌∷◌, ◌==◌, eqb,
  ltb, if◌then◌else◌, Result, ok, err, Dict, lookup, insert, contains,
}
use aerarium_agentic_banking.Common.Int.{ℤ, ltb_ℤ}

abbrev pub Level : Type 0
Level = ℕ

abbrev pub level_observe : Level
level_observe = 1

abbrev pub level_recommend : Level
level_recommend = 2

abbrev pub level_mandate : Level
level_mandate = 3

abbrev pub level_human : Level
level_human = 4

-- Actions, kinds of actors, outcomes and reasons are texts in the program.
abbrev pub Action : Type 0
Action = String

abbrev pub action_transfer : Action
action_transfer = "transfer"

abbrev pub action_mandate_payment : Action
action_mandate_payment = "mandate_payment"

abbrev pub action_grant_permission : Action
action_grant_permission = "grant_permission"

-- The level of each action; what is not in the catalog is denied.
unfoldable pub catalog : Action → Option Level
catalog a =
    if a == action_transfer
    then some level_mandate
    else if a == action_mandate_payment
    then some level_mandate
    else if a == action_grant_permission
    then some level_human
    else none

abbrev or_zero : Option Level → Level
or_zero (some l) = l
or_zero none = 0

unfoldable pub level_of : Action → Level
level_of a = or_zero (catalog a)

abbrev pub actor_holder : String
actor_holder = "holder"

pub record Actor : Type 0 where
  pub kind : String
  pub id : String

pub record Grant : Type 0 where
  pub ref : String
  pub level : Level
  pub actions : List Action
  pub max_per_operation : Option ℤ
  pub remaining : Option ℤ
  pub expires_at : ℕ
  pub revoked : Bool

pub record Request : Type 0 where
  pub customer_id : String
  pub actor : Actor
  pub action : Action
  pub amount_micros : ℤ
  pub counterparty : String
  pub operation : String
  pub grant : Option Grant

abbrev pub allow : String
allow = "allow"

abbrev pub confirm : String
confirm = "confirm"

abbrev pub deny : String
deny = "deny"

abbrev pub reason_none : String
reason_none = ""

abbrev pub reason_high_impact : String
reason_high_impact = "high_impact"

abbrev pub reason_unknown_action : String
reason_unknown_action = "unknown_action"

abbrev pub reason_human_only : String
reason_human_only = "human_only"

abbrev pub reason_no_grant : String
reason_no_grant = "no_grant"

abbrev pub reason_grant_inactive : String
reason_grant_inactive = "grant_inactive"

abbrev pub reason_out_of_scope : String
reason_out_of_scope = "out_of_scope"

abbrev pub reason_level_too_low : String
reason_level_too_low = "level_too_low"

abbrev pub reason_over_limit : String
reason_over_limit = "over_limit"

pub record Decision : Type 0 where
  pub outcome : String
  pub reason : String
  pub level : Level

-- The question that is put to the policy of transfers, which answers with a reason to confirm, the
-- empty one for none, or fails.
pub record Transfer : Type 0 where
  pub customer_id : String
  pub to_account_id : String
  pub amount_micros : ℤ

pub data ControlError : Type 0 where
  policy_failed record_failed : ControlError

abbrev pub TransferPolicy : Type 0
TransferPolicy = Transfer → Result ControlError String

abbrev pub decision : String → String → Level → Decision
decision outcome reason level = record { outcome = outcome; reason = reason; level = level }

abbrev pub exceeds : ℤ → Option ℤ → Bool
exceeds amount none = false
exceeds amount (some limit) = ltb_ℤ limit amount

-- The cases of the `switch`, in their order.
abbrev pub refusal : ℕ → Request → Level → Grant → Option String
refusal now req level g =
    if g.revoked || not (ltb now g.expires_at)
    then some reason_grant_inactive
    else if not (contains g.actions req.action)
    then some reason_out_of_scope
    else if ltb g.level level
    then some reason_level_too_low
    else if exceeds req.amount_micros g.max_per_operation || exceeds req.amount_micros g.remaining
    then some reason_over_limit
    else none

abbrev pub refuse_or_allow : Option String → Level → Decision
refuse_or_allow (some reason) level = decision deny reason level
refuse_or_allow none level = decision allow reason_none level

abbrev by_grant : ℕ → Request → Level → Option Grant → Decision
by_grant now req level none = decision deny reason_no_grant level
by_grant now req level (some g) = refuse_or_allow (refusal now req level g) level

unfoldable pub for_delegate : ℕ → Request → Level → Decision
for_delegate now req level =
    if eqb level level_human
    then decision deny reason_human_only level
    else by_grant now req level req.grant

abbrev to_transfer : Request → Transfer
to_transfer req = record {
  customer_id = req.customer_id;
  to_account_id = req.counterparty;
  amount_micros = req.amount_micros;
}

by_reason : Level → Result ControlError String → Result ControlError Decision
by_reason level (ok reason) =
    if reason == reason_none
    then ok (decision allow reason_none level)
    else ok (decision confirm reason level)
by_reason level (err e) = err e

by_policy : Request → Level → Option TransferPolicy → Result ControlError Decision
by_policy req level none = ok (decision allow reason_none level)
by_policy req level (some required) =
    if req.action == action_transfer
    then by_reason level (required (to_transfer req))
    else ok (decision allow reason_none level)

-- Without a policy, which is `nil`, nothing is asked.
unfoldable pub for_holder : Option TransferPolicy → Request → Level → Result ControlError Decision
unfolding by_policy by_reason
for_holder transfers req level =
    if eqb level level_human
    then ok (decision confirm reason_high_impact level)
    else by_policy req level transfers

by_level : Option TransferPolicy → ℕ → Request → Option Level → Result ControlError Decision
by_level transfers now req none = ok (decision deny reason_unknown_action 0)
by_level transfers now req (some level) =
    if req.actor.kind == actor_holder
    then for_holder transfers req level
    else ok (for_delegate now req level)

unfoldable pub evaluate : Option TransferPolicy → ℕ → Request → Result ControlError Decision
unfolding by_level
evaluate transfers now req = by_level transfers now req (catalog req.action)

-- A row of `control.decisions`.
pub record Entry : Type 0 where
  pub customer_id : String
  pub decided_at : ℕ
  pub actor : Actor
  pub action : Action
  pub level : Level
  pub outcome : String
  pub reason : String
  pub operation : String
  pub evidence : String

-- How an operation was authorized, and the row of `control.executions` under its transaction.
pub record Authorization : Type 0 where
  pub actor : Actor
  pub action : Action
  pub outcome : String
  pub reason : String
  pub evidence : String

pub record Execution : Type 0 where
  pub customer_id : String
  pub authorization : Authorization
  pub executed_at : ℕ

-- The two tables, the newest decision first; the database's clock; and which of the next
-- statements fail.
pub record Database : Type 0 where
  pub decisions : List Entry
  pub executions : Dict Execution
  pub now : ℕ
  pub faults : List Bool

abbrev pub next_fault : List Bool → Bool
next_fault [] = false
next_fault (f ∷ _) = f

abbrev later_faults : List Bool → List Bool
later_faults [] = []
later_faults (_ ∷ fs) = fs

abbrev executed_one : Database → Database
executed_one db = record db { faults = later_faults db.faults }

abbrev pub entry : ℕ → Request → Level → String → String → String → Entry
entry now req level outcome reason evidence = record {
  customer_id = req.customer_id;
  decided_at = now;
  actor = req.actor;
  action = req.action;
  level = level;
  outcome = outcome;
  reason = reason;
  operation = req.operation;
  evidence = evidence;
}

unfoldable pub record_decision :
    Request → Level → String → String → String → Database → Option ControlError × Database
record_decision req level outcome reason evidence db =
    if next_fault db.faults then (some record_failed, executed_one db) else (
      none,
      record (executed_one db) {
        decisions = entry db.now req level outcome reason evidence ∷ db.decisions;
      },
    )

abbrev pub evidence_of : Option Grant → String
evidence_of none = ""
evidence_of (some g) = "grant:" ++ g.ref

after_record : Decision → Option ControlError × Database → Result ControlError Decision × Database
after_record d (none, db) = (ok d, db)
after_record d (some e, db) = (err e, db)

after_evaluate :
    Request → Result ControlError Decision → Database → Result ControlError Decision × Database
after_evaluate req (ok d) db =
    after_record d (record_decision req d.level d.outcome d.reason (evidence_of req.grant) db)
after_evaluate req (err e) db = (err e, db)

unfoldable pub decide :
    Option TransferPolicy → ℕ → Request → Database → Result ControlError Decision × Database
unfolding after_evaluate after_record record_decision
decide transfers now req db = after_evaluate req (evaluate transfers now req) db

unfoldable pub confirmed : Request → Bool → String → Database → Option ControlError × Database
unfolding record_decision
confirmed req signed evidence db =
    record_decision req (level_of req.action) (if signed then "confirmed" else "rejected")
      reason_none evidence db

-- `ORDER BY decided_at DESC LIMIT n` of a customer's decisions.
take_for : String → ℕ → List Entry → List Entry
take_for customer_id n [] = []
take_for customer_id n (e ∷ l) =
    let later = take_for customer_id (n - 1) l in
    let same = take_for customer_id n l in
    if eqb n 0 then [] else if e.customer_id == customer_id then e ∷ later else same

unfoldable pub history : String → ℕ → Database → Result ControlError (List Entry) × Database
unfolding take_for
history customer_id limit db =
    if next_fault db.faults
    then (err record_failed, executed_one db)
    else (ok (take_for customer_id limit db.decisions), executed_one db)

-- `ON CONFLICT (transaction_id) DO NOTHING`
abbrev insert_once : String → Execution → Option Execution → Dict Execution → Dict Execution
insert_once id e none m = insert id e m
insert_once id e (some _) m = m

unfoldable pub executed :
    String → String → Authorization → Database → Option ControlError × Database
executed customer_id transaction_id a db =
    if next_fault db.faults then (some record_failed, executed_one db) else (
      none,
      record (executed_one db) {
        executions =
            insert_once transaction_id
              (record { customer_id = customer_id; authorization = a; executed_at = db.now })
              (lookup transaction_id db.executions) db.executions;
      },
    )

abbrev of_customer : String → Option Execution → Option Execution
of_customer customer_id none = none
of_customer customer_id (some e) = if e.customer_id == customer_id then some e else none

unfoldable pub execution_of :
    String → String → Database → Result ControlError (Option Execution) × Database
execution_of customer_id transaction_id db =
    if next_fault db.faults
    then (err record_failed, executed_one db)
    else (ok (of_customer customer_id (lookup transaction_id db.executions)), executed_one db)
