-- ===== src/Agents/Store.antt =====
-- services/agents/agents.go: the operations on agents and keys. The identifiers that are generated
-- and the time of the call are arguments.
use aerarium_agentic_banking.Common.{
  ℕ, ◌+◌, String, ◌==◌, Bool, not, ◌||◌, ◌&&◌, Option, none, some, List, [], ◌∷◌, ◌++◌, ltb,
  if◌then◌else◌, Result, ok, err, Dict, insert,
}
use aerarium_agentic_banking.Common.Action.{
  Action, ◌>>=◌, ◌>>◌, return, query, exec, statement, raise_if, or_raise, transaction,
}
use aerarium_agentic_banking.Agents.Rows.{
  AgentError, not_found, revoked, invalid_key, key_in_use, last_key, bad_name, statement_failed,
  Jwk, Library, AgentRow, Key, KeyRow, Agent, Tables, rotation_window, public_key, to_jwk, is_null,
  is_some, valid, find_agent, agent_by_id, find_key, keys_of, revoke_row, limit_keys, retire_row,
  has_key, has_other, key_taken, new_key,
}

abbrev pub Act : Type 0 → Type 0
Act = Action Tables AgentError

-- The transaction begins, or is made permanent.
abbrev pub tx_step : Act Unit
tx_step = exec statement_failed (λ t. t)

unfoldable pub insert_agent_row : AgentRow → Tables → Result {0, 0} AgentError Unit × Tables
insert_agent_row a t =
    if is_some (agent_by_id a.id t.agents)
    then (err statement_failed, t)
    else (ok tt, record t { agents = t.agents ++ (a ∷ []) })

unfoldable pub insert_key_row :
    String → String → String → ℕ → Tables → Result {0, 0} AgentError Unit × Tables
insert_key_row agent id pub_key now t =
    if key_taken id pub_key t.keys then (err key_in_use, t) else (
      ok tt,
      record t {
        keys = t.keys ++ (record { agent_id = agent; key = new_key id pub_key now } ∷ []);
      },
    )

unfoldable pub insert_key : String → String → String → ℕ → Act Unit
insert_key agent id pub_key now = statement statement_failed (insert_key_row agent id pub_key now)

unfoldable pub with_keys : AgentRow → List Key → Agent
with_keys a l = record { row = a; keys = l }

unfoldable pub get : Library → String → String → Act Agent
unfolding with_keys
get o client id = do
  raise_if (not (o.is_uuid id)) not_found
  found ← query statement_failed (λ t. find_agent client id t.agents)
  a ← or_raise not_found found
  l ← query statement_failed (λ t. keys_of id t.keys)
  return (with_keys a l)

abbrev pub new_agent : String → String → String → ℕ → AgentRow
new_agent id client name now = record {
  id = id;
  client_id = client;
  name = name;
  created_at = now;
  revoked_at = none;
}

unfoldable pub register : Library → ℕ → String → String → String → String → Jwk → Act Agent
unfolding insert_agent_row
register o now id key_id client name key = do
  let trimmed = o.trim_space name
  raise_if (trimmed == "" || ltb 80 (o.rune_count trimmed)) bad_name
  pub_key ← or_raise invalid_key (public_key o key)
  transaction (
      tx_step
      >> statement statement_failed (insert_agent_row (new_agent id client trimmed now))
      >> insert_key id key_id pub_key now
      >> tx_step)
  get o client id

unfoldable pub revoke_found : String → String → ℕ → Tables → Result {0, 0} AgentError Unit × Tables
revoke_found client id now t =
    if is_some (find_agent client id t.agents)
    then (ok tt, record t { agents = revoke_row client id now t.agents })
    else (err not_found, t)

unfoldable pub revoke : Library → ℕ → String → String → Act Unit
unfolding revoke_found
revoke o now client id = do
  raise_if (not (o.is_uuid id)) not_found
  statement statement_failed (revoke_found client id now)

unfoldable pub lock_live_agent : Library → String → String → Act Unit
lock_live_agent o client id = do
  raise_if (not (o.is_uuid id)) not_found
  found ← query statement_failed (λ t. find_agent client id t.agents)
  a ← or_raise not_found found
  raise_if (not (is_null a.revoked_at)) revoked

-- The last key; the list is not empty after an insertion.
unfoldable pub last_of : List Key → Option Key
last_of [] = none
last_of (k ∷ []) = some k
last_of (_ ∷ l) = last_of l

unfoldable pub add_key : Library → ℕ → String → String → String → Jwk → Act Key
add_key o now key_id client agent key = do
  pub_key ← or_raise invalid_key (public_key o key)
  transaction (
      tx_step
      >> lock_live_agent o client agent
      >> exec statement_failed
          (λ t. record t { keys = limit_keys agent (now + rotation_window) t.keys })
      >> insert_key agent key_id pub_key now
      >> tx_step)
  a ← get o client agent
  or_raise not_found (last_of a.keys)

unfoldable pub counted_keys : String → String → ℕ → Tables → Bool × Bool
counted_keys agent key_id now t =
    (has_key agent key_id now t.keys, has_other agent key_id now t.keys)

unfoldable pub retire_key : Library → ℕ → String → String → String → Act Unit
unfolding counted_keys
retire_key o now client agent key_id = do
  raise_if (not (o.is_uuid key_id)) not_found
  transaction (
      tx_step
      >> lock_live_agent o client agent
      >> (query statement_failed (counted_keys agent key_id now) >>= λ counted.
          raise_if (not counted.0) not_found
          >> raise_if (not counted.1) last_key
          >> exec statement_failed (λ t. record t { keys = retire_row key_id now t.keys })
          >> tx_step))

pub record Signer : Type 0 where
  pub key_id : String
  pub agent_id : String
  pub client_id : String
  pub agent_name : String
  pub public_key : String

-- The row of the join: a key with its agent.
unfoldable pub joined_agent : KeyRow → Option AgentRow → Option (KeyRow × AgentRow)
joined_agent k none = none
joined_agent k (some a) = some (k, a)

unfoldable pub joined_key : Option KeyRow → Tables → Option (KeyRow × AgentRow)
unfolding joined_agent
joined_key none t = none
joined_key (some k) t = joined_agent k (agent_by_id k.agent_id t.agents)

unfoldable pub joined : String → Tables → Option (KeyRow × AgentRow)
unfolding joined_key
joined id t = joined_key (find_key id t.keys) t

abbrev pub signer_of : KeyRow × AgentRow → Signer
signer_of (k, a) = record {
  key_id = k.key.id;
  agent_id = a.id;
  client_id = a.client_id;
  agent_name = a.name;
  public_key = k.key.public_key;
}

unfoldable pub key_for_signature : Library → ℕ → String → Act Signer
key_for_signature o now key_id = do
  raise_if (not (o.is_uuid key_id)) not_found
  found ← query statement_failed (joined key_id)
  row ← or_raise not_found found
  raise_if (not (is_null row.1.revoked_at)) revoked
  raise_if (not (valid now row.0.key)) not_found
  return (signer_of row)

-- The oldest agent in force of a client under a name.
older : AgentRow → Option AgentRow → Option AgentRow
older a none = some a
older a (some b) = if ltb b.created_at a.created_at then some b else some a

unfoldable pub sandbox_found : String → String → List AgentRow → Option AgentRow
unfolding older
sandbox_found client name [] = none
sandbox_found client name (a ∷ l) =
    let rest = sandbox_found client name l in
    if (a.client_id == client) && (a.name == name) && is_null a.revoked_at
    then older a rest
    else rest

-- `generated` is the public half of a key whose private half is not kept.
unfoldable pub or_register :
    Library → ℕ → String → String → String → String → String → Option AgentRow → Act Agent
or_register o now id key_id generated client name (some a) = get o client a.id
or_register o now id key_id generated client name none =
    register o now id key_id client name (to_jwk o generated)

unfoldable pub sandbox_agent : Library → ℕ → String → String → String → String → String → Act Agent
unfolding or_register
sandbox_agent o now id key_id generated client name =
    query statement_failed (λ t. sandbox_found client name t.agents)
    >>= or_register o now id key_id generated client name

pub record AgentName : Type 0 where
  pub name : String
  pub client_id : String

unfoldable pub keep_uuids : Library → List String → List String
keep_uuids o [] = []
keep_uuids o (id ∷ l) = let rest = keep_uuids o l in if o.is_uuid id then id ∷ rest else rest

add_name : String → Option AgentRow → Dict AgentName → Dict AgentName
add_name id none m = m
add_name id (some a) m = insert id (record { name = a.name; client_id = a.client_id }) m

named : List String → List AgentRow → Dict AgentName
named [] rows = []
named (id ∷ l) rows = add_name id (agent_by_id id rows) (named l rows)

names_of : List String → Act (Dict AgentName)
names_of [] = return []
names_of (id ∷ l) = query statement_failed (λ t. named (id ∷ l) t.agents)

unfoldable pub names : Library → List String → Act (Dict AgentName)
unfolding names_of named add_name keep_uuids
names o ids = names_of (keep_uuids o ids)
