-- ===== src/Agents/Frame.antt =====
-- What every operation on agents keeps: it is enough that the changes of the rows keep it.
use aerarium_agentic_banking.Common.{ℕ, ◌+◌, String, Bool, Option, none, some, List}
use aerarium_agentic_banking.Common.Action.{
  Keeps, return-Keeps, raise_if-Keeps, or_raise-Keeps, query-Keeps, exec-Keeps, statement-Keeps,
  transaction-Keeps, bind-Keeps,
}
use aerarium_agentic_banking.Agents.Rows.{Jwk, Library, AgentRow, Tables, rotation_window}
use aerarium_agentic_banking.Agents.Store.{
  tx_step, insert_agent_row, insert_key_row, insert_key, get, new_agent, register, revoke_found,
  revoke, lock_live_agent, add_key, retire_key, or_register, sandbox_agent,
}
use aerarium_agentic_banking.Agents.Rows.{limit_keys, retire_row}
use aerarium_agentic_banking.Agents.Intents.{
  Intent, upsert_account, bind_account, insert_intent, record_intent,
}

-- The changes that the operations are made of.
pub record IsFrame (R : Tables → Tables → Type 0) : Type 0 where
  pub steady : (t : Tables) → R t t
  pub follow : (t u v : Tables) → R t u → R u v → R t v
  pub agent :
      (id client name : String) (now : ℕ) (t : Tables)
      → R t (insert_agent_row (new_agent id client name now) t).1
  pub key :
      (agent id pub_key : String) (now : ℕ) (t : Tables)
      → R t (insert_key_row agent id pub_key now t).1
  pub revoked : (client id : String) (now : ℕ) (t : Tables) → R t (revoke_found client id now t).1
  pub limited :
      (agent : String) (end : ℕ) (t : Tables)
      → R t (record t { keys = limit_keys agent end t.keys })
  pub retired :
      (id : String) (now : ℕ) (t : Tables) → R t (record t { keys = retire_row id now t.keys })
  pub account : (account agent : String) (t : Tables) → R t (upsert_account account agent t).1
  pub intent :
      (o : Library) (now : ℕ) (authorization agent client : String) (i : Intent) (t : Tables)
      → R t (
          insert_intent
            (record {
              authorization_id = authorization;
              agent_id = agent;
              client_id = client;
              reference = o.trim_space i.reference;
              description = o.trim_space i.description;
              created_at = now;
            })
            t)

module _ {R : Tables → Tables → Type 0} (F : IsFrame R) where
  open F use {steady, follow}

  tx_step-Keeps : Keeps R tx_step
  tx_step-Keeps = exec-Keeps R steady _ _ steady

  get-Keeps : (o : Library) (client id : String) → Keeps R (get o client id)
  unfolding get
  get-Keeps o client id = bind-Keeps R follow (raise_if-Keeps R steady _ _) λ _.
      bind-Keeps R follow (query-Keeps R steady _ _) λ found.
        bind-Keeps R follow (or_raise-Keeps R steady _ found)
          λ a. bind-Keeps R follow (query-Keeps R steady _ _) (λ l. return-Keeps R steady _)

  insert_key-Keeps :
      (agent id pub_key : String) (now : ℕ) → Keeps R (insert_key agent id pub_key now)
  unfolding insert_key
  insert_key-Keeps agent id pub_key now =
      statement-Keeps R steady _ _ (IsFrame.key F agent id pub_key now)

  pub register-Keeps :
      (o : Library) (now : ℕ) (id key_id client name : String) (key : Jwk)
      → Keeps R (register o now id key_id client name key)
  unfolding register
  register-Keeps o now id key_id client name key =
      bind-Keeps R follow (raise_if-Keeps R steady _ _) λ _.
        bind-Keeps R follow (or_raise-Keeps R steady _ _) λ pub_key.
          bind-Keeps R follow
            (transaction-Keeps R steady (
              bind-Keeps R follow
                (bind-Keeps R follow
                  (bind-Keeps R follow tx_step-Keeps
                    (λ _. statement-Keeps R steady _ _ (IsFrame.agent F id client _ now)))
                  (λ _. insert_key-Keeps id key_id pub_key now))
                (λ _. tx_step-Keeps)))
            (λ _. get-Keeps o client id)

  pub revoke-Keeps : (o : Library) (now : ℕ) (client id : String) → Keeps R (revoke o now client id)
  unfolding revoke
  revoke-Keeps o now client id =
      bind-Keeps R follow (raise_if-Keeps R steady _ _)
        (λ _. statement-Keeps R steady _ _ (IsFrame.revoked F client id now))

  lock-Keeps : (o : Library) (client id : String) → Keeps R (lock_live_agent o client id)
  unfolding lock_live_agent
  lock-Keeps o client id = bind-Keeps R follow (raise_if-Keeps R steady _ _) λ _.
      bind-Keeps R follow (query-Keeps R steady _ _) λ found.
        bind-Keeps R follow (or_raise-Keeps R steady _ found) (λ a. raise_if-Keeps R steady _ _)

  pub add_key-Keeps :
      (o : Library) (now : ℕ) (key_id client agent : String) (key : Jwk)
      → Keeps R (add_key o now key_id client agent key)
  unfolding add_key
  add_key-Keeps o now key_id client agent key =
      bind-Keeps R follow (or_raise-Keeps R steady _ _) λ pub_key.
        bind-Keeps R follow
          (transaction-Keeps R steady (
            bind-Keeps R follow
              (bind-Keeps R follow
                (bind-Keeps R follow
                  (bind-Keeps R follow tx_step-Keeps (λ _. lock-Keeps o client agent))
                  (λ _. exec-Keeps R steady _ _ (IsFrame.limited F agent (now + rotation_window))))
                (λ _. insert_key-Keeps agent key_id pub_key now))
              (λ _. tx_step-Keeps)))
          λ _. bind-Keeps R follow (get-Keeps o client agent) (λ a. or_raise-Keeps R steady _ _)

  pub retire_key-Keeps :
      (o : Library) (now : ℕ) (client agent key_id : String)
      → Keeps R (retire_key o now client agent key_id)
  unfolding retire_key
  retire_key-Keeps o now client agent key_id =
      bind-Keeps R follow (raise_if-Keeps R steady _ _) λ _. transaction-Keeps R steady (
        bind-Keeps R follow (bind-Keeps R follow tx_step-Keeps (λ _. lock-Keeps o client agent))
          λ _. bind-Keeps R follow (query-Keeps R steady _ _) λ counted.
            bind-Keeps R follow
              (bind-Keeps R follow
                (bind-Keeps R follow (raise_if-Keeps R steady _ _)
                  (λ _. raise_if-Keeps R steady _ _))
                (λ _. exec-Keeps R steady _ _ (IsFrame.retired F key_id now)))
              (λ _. tx_step-Keeps))

  or_register-Keeps :
      (o : Library) (now : ℕ) (id key_id generated client name : String) (found : Option AgentRow)
      → Keeps R (or_register o now id key_id generated client name found)
  unfolding or_register
  or_register-Keeps o now id key_id generated client name none =
      register-Keeps o now id key_id client name _
  or_register-Keeps o now id key_id generated client name (some a) = get-Keeps o client _

  pub sandbox_agent-Keeps :
      (o : Library) (now : ℕ) (id key_id generated client name : String)
      → Keeps R (sandbox_agent o now id key_id generated client name)
  unfolding sandbox_agent
  sandbox_agent-Keeps o now id key_id generated client name =
      bind-Keeps R follow (query-Keeps R steady _ _)
        λ found. or_register-Keeps o now id key_id generated client name found

  pub bind_account-Keeps :
      (o : Library) (client agent account : String) → Keeps R (bind_account o client agent account)
  unfolding bind_account
  bind_account-Keeps o client agent account = transaction-Keeps R steady (
      bind-Keeps R follow (bind-Keeps R follow tx_step-Keeps (λ _. lock-Keeps o client agent)) λ _.
        bind-Keeps R follow (statement-Keeps R steady _ _ (IsFrame.account F account agent))
          λ owner. bind-Keeps R follow (raise_if-Keeps R steady _ _) (λ _. tx_step-Keeps))

  pub record_intent-Keeps :
      (o : Library) (now : ℕ) (authorization agent client : String) (i : Intent)
      → Keeps R (record_intent o now authorization agent client i)
  unfolding record_intent
  record_intent-Keeps o now authorization agent client i =
      exec-Keeps R steady _ _ (IsFrame.intent F o now authorization agent client i)

-- A call that changes something, with any of its statements failing, and what calls reach.
pub data Call (o : Library) (t : Tables) : Tables → Type 0 where
  registered :
      (faults : List Bool) (now : ℕ) (id key_id client name : String) (key : Jwk)
      → Call o t
          (register o now id key_id client name key (record { state = t; faults = faults })).1.state
  revoked_by :
      (faults : List Bool) (now : ℕ) (client id : String)
      → Call o t (revoke o now client id (record { state = t; faults = faults })).1.state
  key_added :
      (faults : List Bool) (now : ℕ) (key_id client agent : String) (key : Jwk)
      → Call o t
          (add_key o now key_id client agent key (record { state = t; faults = faults })).1.state
  key_retired :
      (faults : List Bool) (now : ℕ) (client agent key_id : String)
      → Call o t
          (retire_key o now client agent key_id (record { state = t; faults = faults })).1.state
  sandboxed :
      (faults : List Bool) (now : ℕ) (id key_id generated client name : String)
      → Call o t
          (sandbox_agent o now id key_id generated client name
            (record { state = t; faults = faults })).1.state
  bound :
      (faults : List Bool) (client agent account : String)
      → Call o t
          (bind_account o client agent account (record { state = t; faults = faults })).1.state
  intended :
      (faults : List Bool) (now : ℕ) (authorization agent client : String) (i : Intent)
      → Call o t
          (record_intent o now authorization agent client i
            (record { state = t; faults = faults })).1.state

pub data Calls (o : Library) (t : Tables) : Tables → Type 0 where
  here : Calls o t t
  next : {u v : Tables} → Calls o t u → Call o u v → Calls o t v

module _ {R : Tables → Tables → Type 0} (F : IsFrame R) {o : Library} where
  Call-frame : {t u : Tables} → Call o t u → R t u
  Call-frame (registered faults now id key_id client name key) =
      Keeps.holds (register-Keeps F o now id key_id client name key) _
  Call-frame (revoked_by faults now client id) = Keeps.holds (revoke-Keeps F o now client id) _
  Call-frame (key_added faults now key_id client agent key) =
      Keeps.holds (add_key-Keeps F o now key_id client agent key) _
  Call-frame (key_retired faults now client agent key_id) =
      Keeps.holds (retire_key-Keeps F o now client agent key_id) _
  Call-frame (sandboxed faults now id key_id generated client name) =
      Keeps.holds (sandbox_agent-Keeps F o now id key_id generated client name) _
  Call-frame (bound faults client agent account) =
      Keeps.holds (bind_account-Keeps F o client agent account) _
  Call-frame (intended faults now authorization agent client i) =
      Keeps.holds (record_intent-Keeps F o now authorization agent client i) _

  pub Calls-frame : {t u : Tables} → Calls o t u → R t u
  Calls-frame {t} here = IsFrame.steady F t
  Calls-frame {t} (next {u} {v} c d) = IsFrame.follow F t u v (Calls-frame c) (Call-frame d)
