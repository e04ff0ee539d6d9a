-- ===== src/Agents/Tests.antt =====
-- One agent, its first key, and what becomes of them.
use aerarium_agentic_banking.Common.{◌≡◌, ◌≢◌, refl, true, false, none, some, [], ◌∷◌, ok}
use aerarium_agentic_banking.Common.Action.{
  ◌>>=◌, then_with, healthy, return, query, raise_if, or_raise, exec, statement, transaction,
  rolled_back,
}
use aerarium_agentic_banking.Agents.Rows.{
  Library, Jwk, AgentRow, KeyRow, Tables, find_key, agent_by_id, has_key, has_other, valid,
  public_key, sized, find_agent, limit_keys, keys_of, insert_key_by_age, key_taken, retire_row,
}
use aerarium_agentic_banking.Agents.Store.{
  Signer, register, add_key, retire_key, key_for_signature, joined, joined_key, joined_agent,
  lock_live_agent, get, insert_key, insert_key_row, last_of, with_keys, counted_keys,
}
use aerarium_agentic_banking.Agents.Frame.{Calls, here, next, registered}
use aerarium_agentic_banking.Agents.Revoked.{
  IsSigner, key_for_signature-IsSigner, revoked_never_signs,
}
use aerarium_agentic_banking.Agents.Rotation.{Rotated, add_key_rotates, retire_key_leaves_one}

abbrev library : Library
library = record {
  is_uuid = λ s. true;
  trim_space = λ s. s;
  rune_count = λ s. 4;
  has_control = λ s. false;
  decode = λ s. some s;
  encode = λ s. s;
  byte_count = λ s. 32;
}

abbrev shopper : AgentRow
shopper = record {
  id = "a";
  client_id = "mercatus";
  name = "shop";
  created_at = 5;
  revoked_at = none;
}

abbrev first_key : KeyRow
first_key = record {
  agent_id = "a";
  key = record {
    id = "k1";
    public_key = "bytes1";
    created_at = 5;
    expires_at = none;
    retired_at = none;
  };
}

abbrev second_key : KeyRow
second_key = record {
  agent_id = "a";
  key = record {
    id = "k2";
    public_key = "bytes2";
    created_at = 6;
    expires_at = none;
    retired_at = none;
  };
}

abbrev tables : Tables
tables = record { agents = shopper ∷ []; keys = first_key ∷ []; accounts = []; intents = [] }

abbrev jwk : Jwk
jwk = record { kty = "OKP"; crv = "Ed25519"; x = "bytes2" }

abbrev signer : Signer
signer = record {
  key_id = "k1";
  agent_id = "a";
  client_id = "mercatus";
  agent_name = "shop";
  public_key = "bytes1";
}

signs : (key_for_signature library 9 "k1" (healthy tables)).0 ≡ ok signer
unfolding key_for_signature joined joined_key joined_agent find_key agent_by_id valid ◌>>=◌
    then_with return query raise_if or_raise
signs = refl

key_for_signature-IsSigner_example : IsSigner 9 "k1" tables signer
key_for_signature-IsSigner_example =
    key_for_signature-IsSigner library 9 "k1" (healthy tables) signs

-- The agent was revoked at the time 7, and its platform goes on to register another.
abbrev revoked_tables : Tables
revoked_tables = record tables { agents = record shopper { revoked_at = some 7 } ∷ [] }

abbrev later_tables : Tables
later_tables = (register library 8 "b" "k2" "mercatus" "other" jwk (healthy revoked_tables)).1.state

one_call : Calls library revoked_tables later_tables
one_call = next here (registered [] 8 "b" "k2" "mercatus" "other" jwk)

first_found : find_key "k1" (first_key ∷ []) ≡ some first_key
unfolding find_key
first_found = refl

shopper_found :
    agent_by_id "a" (record shopper { revoked_at = some 7 } ∷ [])
    ≡ some (record shopper { revoked_at = some 7 })
unfolding agent_by_id
shopper_found = refl

revoked_never_signs_example :
    (key_for_signature library 9 "k1" (healthy later_tables)).0 ≢ ok signer
revoked_never_signs_example =
    revoked_never_signs one_call "k1" first_found shopper_found refl [] 9 signer

rotation_ends : (add_key library 6 "k2" "mercatus" "a" jwk (healthy tables)).0 ≡ ok second_key.key
unfolding add_key public_key sized lock_live_agent get insert_key insert_key_row find_agent
    limit_keys keys_of insert_key_by_age key_taken last_of with_keys transaction rolled_back exec
    statement ◌>>=◌ then_with return query raise_if or_raise
rotation_ends = refl

add_key_rotates_example :
    Rotated library 6 "k2" "a" jwk tables
      (add_key library 6 "k2" "mercatus" "a" jwk (healthy tables)).1.state
add_key_rotates_example =
    add_key_rotates library 6 "k2" "mercatus" "a" jwk (healthy tables) rotation_ends

abbrev two_keys : Tables
two_keys = record tables { keys = first_key ∷ second_key ∷ [] }

retirement_ends : (retire_key library 9 "mercatus" "a" "k1" (healthy two_keys)).0 ≡ ok tt
unfolding retire_key counted_keys has_key has_other valid retire_row lock_live_agent find_agent
    transaction rolled_back exec ◌>>=◌ then_with return query raise_if or_raise
retirement_ends = refl

retire_key_leaves_one_example :
    (has_key "a" "k1" 9 (retire_key library 9 "mercatus" "a" "k1" (healthy two_keys)).1.state.keys
      ≡ false)
    × (has_other "a" "k1" 9
          (retire_key library 9 "mercatus" "a" "k1" (healthy two_keys)).1.state.keys
        ≡ true)
retire_key_leaves_one_example =
    retire_key_leaves_one library 9 "mercatus" "a" "k1" (healthy two_keys) retirement_ends
