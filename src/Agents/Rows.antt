-- ===== src/Agents/Rows.antt =====
-- services/agents/agents.go and the tables of schema.sql: agents, keys, accounts and intents as
-- rows, and the conditions of the statements on them. The clock is a number of seconds, and what
-- other libraries decide is a parameter.
use aerarium_agentic_banking.Common.{
  ℕ, ◌*◌, String, ◌==◌, Bool, true, false, not, ◌&&◌, ◌||◌, Option, none, some, List, [], ◌∷◌, map,
  eqb, ltb, if◌then◌else◌, Dict,
}

abbrev pub rotation_window : ℕ
rotation_window = 7 * (24 * 3600)

-- `statement_failed` is any error of the database.
pub data AgentError : Type 0 where
  not_found revoked invalid_key key_in_use last_key bad_name : AgentError
  account_bound bad_intent statement_failed : AgentError

pub record Jwk : Type 0 where
  pub kty : String
  pub crv : String
  pub x : String

-- `uuid.Parse`, `strings.TrimSpace`, the number of runes, whether a text has a control character,
-- and the base64 of a key, whose bytes are a text here, with their number.
pub record Library : Type 0 where
  pub is_uuid : String → Bool
  pub trim_space : String → String
  pub rune_count : String → ℕ
  pub has_control : String → Bool
  pub decode : String → Option String
  pub encode : String → String
  pub byte_count : String → ℕ

pub record AgentRow : Type 0 where
  pub id : String
  pub client_id : String
  pub name : String
  pub created_at : ℕ
  pub revoked_at : Option ℕ

pub record Key : Type 0 where
  pub id : String
  pub public_key : String
  pub created_at : ℕ
  pub expires_at : Option ℕ
  pub retired_at : Option ℕ

pub record KeyRow : Type 0 where
  pub agent_id : String
  pub key : Key

pub record Agent : Type 0 where
  pub row : AgentRow
  pub keys : List Key

pub record IntentRow : Type 0 where
  pub authorization_id : String
  pub agent_id : String
  pub client_id : String
  pub reference : String
  pub description : String
  pub created_at : ℕ

pub record Tables : Type 0 where
  pub agents : List AgentRow
  pub keys : List KeyRow
  pub accounts : Dict String
  pub intents : List IntentRow

unfoldable pub sized : Library → Option String → Option String
sized o none = none
sized o (some raw) = if eqb (o.byte_count raw) 32 then some raw else none

-- The key's bytes, if they are those of an Ed25519 key.
unfoldable pub public_key : Library → Jwk → Option String
unfolding sized
public_key o k =
    if not (k.kty == "OKP") || not (k.crv == "Ed25519") then none else sized o (o.decode k.x)

unfoldable pub to_jwk : Library → String → Jwk
to_jwk o pub_key = record { kty = "OKP"; crv = "Ed25519"; x = o.encode pub_key }

abbrev pub is_null : Option ℕ → Bool
is_null none = true
is_null (some _) = false

abbrev pub is_some : {A : Type 0} → Option A → Bool
is_some none = false
is_some (some _) = true

-- `IS NULL OR … > t`
abbrev pub null_or_after : ℕ → Option ℕ → Bool
null_or_after t none = true
null_or_after t (some u) = ltb t u

unfoldable pub valid : ℕ → Key → Bool
valid now k = is_null k.retired_at && null_or_after now k.expires_at

unfoldable pub find_agent : String → String → List AgentRow → Option AgentRow
find_agent client id [] = none
find_agent client id (a ∷ l) =
    if (a.id == id) && (a.client_id == client) then some a else find_agent client id l

-- An agent by its identifier alone, as a join on the primary key finds it.
unfoldable pub agent_by_id : String → List AgentRow → Option AgentRow
agent_by_id id [] = none
agent_by_id id (a ∷ l) = if a.id == id then some a else agent_by_id id l

unfoldable pub find_key : String → List KeyRow → Option KeyRow
find_key id [] = none
find_key id (k ∷ l) = if k.key.id == id then some k else find_key id l

-- `ORDER BY created_at, id`; the order of identifiers that are equal in time is the table's.
unfoldable pub insert_key_by_age : Key → List Key → List Key
insert_key_by_age k [] = k ∷ []
insert_key_by_age k (j ∷ l) =
    let rest = insert_key_by_age k l in
    if ltb j.created_at k.created_at then j ∷ rest else k ∷ j ∷ l

unfoldable pub keys_of : String → List KeyRow → List Key
unfolding insert_key_by_age
keys_of id [] = []
keys_of id (k ∷ l) =
    let rest = keys_of id l in if k.agent_id == id then insert_key_by_age k.key rest else rest

-- `SET revoked_at = COALESCE(revoked_at, $3)`
abbrev pub or_now : ℕ → Option ℕ → Option ℕ
or_now now none = some now
or_now now (some t) = some t

abbrev pub revoked_by : String → String → ℕ → AgentRow → AgentRow
revoked_by client id now a =
    if (a.id == id) && (a.client_id == client)
    then record a { revoked_at = or_now now a.revoked_at }
    else a

unfoldable pub revoke_row : String → String → ℕ → List AgentRow → List AgentRow
revoke_row client id now l = map (revoked_by client id now) l

-- The agent's keys that are not retired and would outlive the window expire with it.
abbrev pub limited_by : String → ℕ → KeyRow → KeyRow
limited_by agent end k =
    if (k.agent_id == agent) && is_null k.key.retired_at && null_or_after end k.key.expires_at
    then record k { key = record k.key { expires_at = some end } }
    else k

unfoldable pub limit_keys : String → ℕ → List KeyRow → List KeyRow
limit_keys agent end l = map (limited_by agent end) l

abbrev pub retired_by : String → ℕ → KeyRow → KeyRow
retired_by id now k =
    if k.key.id == id then record k { key = record k.key { retired_at = some now } } else k

unfoldable pub retire_row : String → ℕ → List KeyRow → List KeyRow
retire_row id now l = map (retired_by id now) l

-- `bool_or(id = $2)` and `count(*) FILTER (WHERE id <> $2) > 0` over the agent's keys in force.
unfoldable pub has_key : String → String → ℕ → List KeyRow → Bool
unfolding valid
has_key agent id now [] = false
has_key agent id now (k ∷ l) =
    ((k.agent_id == agent) && valid now k.key && (k.key.id == id)) || has_key agent id now l

unfoldable pub has_other : String → String → ℕ → List KeyRow → Bool
unfolding valid
has_other agent id now [] = false
has_other agent id now (k ∷ l) =
    ((k.agent_id == agent) && valid now k.key && not (k.key.id == id)) || has_other agent id now l

-- The two unique columns of the keys.
unfoldable pub key_taken : String → String → List KeyRow → Bool
key_taken id pub_key [] = false
key_taken id pub_key (k ∷ l) =
    ((k.key.id == id) || (k.key.public_key == pub_key)) || key_taken id pub_key l

abbrev pub new_key : String → String → ℕ → Key
new_key id pub_key now = record {
  id = id;
  public_key = pub_key;
  created_at = now;
  expires_at = none;
  retired_at = none;
}
