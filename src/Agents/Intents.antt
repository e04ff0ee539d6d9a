-- ===== src/Agents/Intents.antt =====
-- services/agents/intents.go: which agent pays from an account, and why it paid.
use Prim.Native.String.{◌++◌ as ◌++ₛ◌}
use aerarium_agentic_banking.Common.{
  ℕ, zero, suc, String, ◌==◌, not, ◌||◌, ◌&&◌, Option, none, some, List, [], ◌∷◌, ◌++◌, ltb,
  if◌then◌else◌, Result, ok, Dict, lookup, insert,
}
use aerarium_agentic_banking.Common.Action.{
  ◌>>=◌, ◌>>◌, return, query, exec, statement, raise_if, transaction,
}
use aerarium_agentic_banking.Agents.Rows.{
  AgentError, account_bound, bad_intent, statement_failed, Library, AgentRow, IntentRow, Tables,
  agent_by_id, is_some,
}
use aerarium_agentic_banking.Agents.Store.{Act, tx_step, lock_live_agent, keep_uuids}

pub record Intent : Type 0 where
  pub reference : String
  pub description : String

-- `nil`, or the error.
unfoldable pub validate : Library → Intent → Option AgentError
validate o i =
    let ref = o.trim_space i.reference in
    let desc = o.trim_space i.description in
    if ref == "" || ltb 128 (o.rune_count ref) || desc == "" || ltb 140 (o.rune_count desc)
    then some bad_intent
    else if o.has_control (ref ++ₛ desc)
    then some bad_intent
    else none

-- The owner that the row has, after an insertion that leaves a row that is there.
unfoldable pub upsert :
    String → String → Option String → Tables → Result {0, 0} AgentError String × Tables
upsert account agent none t = (ok agent, record t { accounts = insert account agent t.accounts })
upsert account agent (some owner) t = (ok owner, t)

unfoldable pub upsert_account : String → String → Tables → Result {0, 0} AgentError String × Tables
unfolding upsert
upsert_account account agent t = upsert account agent (lookup account t.accounts) t

unfoldable pub bind_account : Library → String → String → String → Act Unit
bind_account o client agent account = transaction (
    tx_step
    >> lock_live_agent o client agent
    >> (statement statement_failed (upsert_account account agent) >>= λ owner.
        raise_if (not (owner == agent)) account_bound >> tx_step))

abbrev or_empty : Option String → String
or_empty none = ""
or_empty (some s) = s

unfoldable pub account_agent : String → Act String
account_agent account = query statement_failed (λ t. or_empty (lookup account t.accounts))

unfoldable pub find_intent : String → List IntentRow → Option IntentRow
find_intent id [] = none
find_intent id (i ∷ l) = if i.authorization_id == id then some i else find_intent id l

unfoldable pub insert_intent : IntentRow → Tables → Tables
insert_intent i t =
    if is_some (find_intent i.authorization_id t.intents)
    then t
    else record t { intents = t.intents ++ (i ∷ []) }

-- The time is the database's.
unfoldable pub record_intent : Library → ℕ → String → String → String → Intent → Act Unit
unfolding insert_intent
record_intent o now authorization agent client i = exec statement_failed (
    insert_intent (record {
      authorization_id = authorization;
      agent_id = agent;
      client_id = client;
      reference = o.trim_space i.reference;
      description = o.trim_space i.description;
      created_at = now;
    }))

pub record PaymentIntent : Type 0 where
  pub intent : Intent
  pub agent_id : String
  pub agent_name : String

with_agent : IntentRow → Option AgentRow → Option PaymentIntent
with_agent i none = none
with_agent i (some a) = some (record {
  intent = record { reference = i.reference; description = i.description };
  agent_id = a.id;
  agent_name = a.name;
})

payment_intent : Option IntentRow → Tables → Option PaymentIntent
payment_intent none t = none
payment_intent (some i) t = with_agent i (agent_by_id i.agent_id t.agents)

add_intent : String → Option PaymentIntent → Dict PaymentIntent → Dict PaymentIntent
add_intent id none m = m
add_intent id (some p) m = insert id p m

intents_of : List String → Tables → Dict PaymentIntent
intents_of [] t = []
intents_of (id ∷ l) t = add_intent id (payment_intent (find_intent id t.intents) t) (intents_of l t)

asked : List String → Act (Dict PaymentIntent)
asked [] = return []
asked (id ∷ l) = query statement_failed (intents_of (id ∷ l))

unfoldable pub intents_for : Library → List String → Act (Dict PaymentIntent)
unfolding asked intents_of add_intent payment_intent with_agent
intents_for o ids = asked (keep_uuids o ids)

pub record TaskPayment : Type 0 where
  pub authorization_id : String
  pub description : String
  pub created_at : ℕ

-- `ORDER BY created_at`, the table's order among equals.
insert_payment : TaskPayment → List TaskPayment → List TaskPayment
insert_payment p [] = p ∷ []
insert_payment p (q ∷ l) =
    let rest = insert_payment p l in if ltb q.created_at p.created_at then q ∷ rest else p ∷ q ∷ l

payments_of : String → String → List IntentRow → List TaskPayment
payments_of agent reference [] = []
payments_of agent reference (i ∷ l) =
    let rest = payments_of agent reference l in
    if (i.agent_id == agent) && (i.reference == reference)
    then insert_payment
        (record {
          authorization_id = i.authorization_id;
          description = i.description;
          created_at = i.created_at;
        })
        rest
    else rest

first : ℕ → List TaskPayment → List TaskPayment
first n [] = []
first zero (p ∷ l) = []
first (suc n) (p ∷ l) = p ∷ first n l

unfoldable pub task_payments : String → String → ℕ → Act (List TaskPayment)
unfolding payments_of insert_payment first
task_payments agent reference limit =
    query statement_failed (λ t. first limit (payments_of agent reference t.intents))
