-- ===== src/Oauth/Store.antt =====
-- services/oauth/store.go: the integrations and the sub-accounts of their agents. The secrets that
-- are generated and the time are arguments; the hash of a secret is a parameter.
use aerarium_agentic_banking.Common.{
  ℕ, ◌+◌, ◌*◌, String, ◌==◌, Bool, true, false, not, ◌&&◌, ◌||◌, Option, none, some, List, [], ◌∷◌,
  ◌++◌, ltb, contains, if◌then◌else◌, Result, ok, err,
}
use aerarium_agentic_banking.Common.Int.{ℤ}
use aerarium_agentic_banking.Common.Action.{
  Action, ◌>>=◌, ◌>>◌, return, query, exec, statement, raise_if, or_raise,
}

-- In seconds.
abbrev pub secret_grace_window : ℕ
secret_grace_window = 7 * (24 * 3600)

pub data OauthError : Type 0 where
  client_not_found client_inactive bad_secret : OauthError
  scope_not_granted : String → OauthError
  consent_not_found consent_resolved consent_expired limit_above_requested : OauthError
  statement_failed no_entropy : OauthError

pub record Client : Type 0 where
  pub id : String
  pub name : String
  pub scopes : List String
  pub master_account_id : String
  pub active : Bool

pub record ClientRow : Type 0 where
  pub client : Client
  pub secret_hash : String
  pub previous_secret_hash : Option String
  pub previous_expires_at : Option ℕ

pub record SubAccount : Type 0 where
  pub account_id : String
  pub owner_reference : String
  pub currency : String
  pub display_name : String
  pub created_at : ℕ

pub data ConsentStatus : Type 0 where
  consent_pending consent_approved consent_rejected consent_expired_status : ConsentStatus

pub record ConsentRequest : Type 0 where
  pub id : String
  pub client_id : String
  pub handoff_code : String
  pub requested_max_per_operation : Option ℤ
  pub requested_max_total : Option ℤ
  pub currency : String
  pub purpose : String
  pub agent_id : String
  pub agent_name : String
  pub status : ConsentStatus
  pub mandate_id : String
  pub account_id : String
  pub created_at : ℕ
  pub expires_at : ℕ
  pub resolved_at : Option ℕ

pub record Tables : Type 0 where
  pub clients : List ClientRow
  pub accounts : List (String × SubAccount)
  pub consents : List ConsentRequest

abbrev pub Act : Type 0 → Type 0
Act = Action Tables OauthError

abbrev pub is_some : {A : Type 0} → Option A → Bool
is_some none = false
is_some (some _) = true

unfoldable pub find_row : String → List ClientRow → Option ClientRow
find_row id [] = none
find_row id (r ∷ l) = if r.client.id == id then some r else find_row id l

unfoldable pub update_row : String → (ClientRow → ClientRow) → List ClientRow → List ClientRow
update_row id f [] = []
update_row id f (r ∷ l) =
    let rest = update_row id f l in if r.client.id == id then f r ∷ rest else r ∷ rest

abbrev new_row : String → String → String → List String → ClientRow
new_row id name hash scopes = record {
  client = record { id = id; name = name; scopes = scopes; master_account_id = ""; active = true };
  secret_hash = hash;
  previous_secret_hash = none;
  previous_expires_at = none;
}

insert_client : ClientRow → Tables → Result {0, 0} OauthError Unit × Tables
insert_client r t =
    if is_some (find_row r.client.id t.clients)
    then (err statement_failed, t)
    else (ok tt, record t { clients = t.clients ++ (r ∷ []) })

-- The secret in the clear, of which the table keeps the hash only.
unfoldable pub register :
    (String → String) → Option String → String → String → List String → Act String
unfolding insert_client
register hash generated id name scopes = do
  secret ← or_raise no_entropy generated
  statement statement_failed (insert_client (new_row id name (hash secret) scopes))
  return secret

abbrev pub rotated : String → ℕ → ClientRow → ClientRow
rotated new_hash now r = record r {
  secret_hash = new_hash;
  previous_secret_hash = some r.secret_hash;
  previous_expires_at = some (now + secret_grace_window);
}

unfoldable pub rotate_row : String → ℕ → String → Tables → Result {0, 0} OauthError Unit × Tables
rotate_row new_hash now id t =
    if is_some (find_row id t.clients)
    then (ok tt, record t { clients = update_row id (rotated new_hash now) t.clients })
    else (err client_not_found, t)

unfoldable pub rotate_secret : (String → String) → Option String → ℕ → String → Act String
rotate_secret hash generated now id = do
  secret ← or_raise no_entropy generated
  statement statement_failed (rotate_row (hash secret) now id)
  return secret

-- The hash before the last rotation, while the window lasts, its end included.
abbrev pub previous_matches : String → Option String → Option ℕ → ℕ → Bool
previous_matches candidate (some hash) (some end) now = not (ltb end now) && (candidate == hash)
previous_matches candidate _ _ now = false

unfoldable pub secret_matches : (String → String) → String → ClientRow → ℕ → Bool
secret_matches hash secret r now =
    (hash secret == r.secret_hash)
    || previous_matches (hash secret) r.previous_secret_hash r.previous_expires_at now

unfoldable pub authenticate : (String → String) → ℕ → String → String → Act Client
authenticate hash now id secret = do
  found ← query statement_failed (λ t. find_row id t.clients)
  r ← or_raise client_not_found found
  raise_if (not (secret_matches hash secret r now)) bad_secret
  raise_if (not r.client.active) client_inactive
  return r.client

unfoldable pub find_client : String → Act Client
find_client id = do
  found ← query statement_failed (λ t. find_row id t.clients)
  r ← or_raise client_not_found found
  return r.client

add_scope : String → Result OauthError (List String) → Result OauthError (List String)
add_scope want (ok l) = ok (want ∷ l)
add_scope want (err e) = err e

-- The scopes asked for, all of which the client must have.
unfoldable pub granted_of : List String → List String → Result OauthError (List String)
unfolding add_scope
granted_of scopes [] = ok []
granted_of scopes (want ∷ l) =
    let rest = granted_of scopes l in
    if contains scopes want then add_scope want rest else err (scope_not_granted want)

unfoldable pub grant_scopes : Client → List String → Result OauthError (List String)
grant_scopes client [] = ok client.scopes
grant_scopes client (want ∷ l) = granted_of client.scopes (want ∷ l)

unfoldable pub find_account :
    String → String → String → List (String × SubAccount) → Option SubAccount
find_account client owner currency [] = none
find_account client owner currency ((id, a) ∷ l) =
    if (id == client) && (a.owner_reference == owner) && (a.currency == currency)
    then some a
    else find_account client owner currency l

account_taken : String → String → List (String × SubAccount) → Bool
account_taken client account [] = false
account_taken client account ((id, a) ∷ l) =
    ((id == client) && (a.account_id == account)) || account_taken client account l

unfoldable pub find_sub_account : String → String → String → Act (Option SubAccount)
find_sub_account client owner currency =
    query statement_failed (λ t. find_account client owner currency t.accounts)

-- The two unique keys of the table.
insert_account : String → SubAccount → Tables → Result {0, 0} OauthError Unit × Tables
insert_account client a t =
    if account_taken client a.account_id t.accounts
      || is_some (find_account client a.owner_reference a.currency t.accounts)
    then (err statement_failed, t)
    else (ok tt, record t { accounts = t.accounts ++ ((client, a) ∷ []) })

link_found : ℕ → String → SubAccount → Option SubAccount → Act (SubAccount × Bool)
link_found now client sub (some a) = return (a, true)
link_found now client sub none =
    let a : SubAccount = record sub { created_at = now } in
    statement statement_failed (insert_account client a) >> return (a, false)

-- The account, and whether it was there.
unfoldable pub link_account : ℕ → String → SubAccount → Act (SubAccount × Bool)
unfolding link_found insert_account account_taken
link_account now client sub =
    find_sub_account client sub.owner_reference sub.currency >>= link_found now client sub

unfoldable pub owned_in : String → String → List (String × SubAccount) → Bool
unfolding account_taken
owned_in client account l = account_taken client account l

unfoldable pub owns_account : (String → Bool) → String → String → Act Bool
owns_account is_uuid client account =
    if is_uuid account
    then query statement_failed (λ t. owned_in client account t.accounts)
    else return false

unfoldable pub set_master_account : String → String → Act Unit
set_master_account id account = exec statement_failed (λ t. record t {
  clients =
      update_row id (λ r. record r { client = record r.client { master_account_id = account } })
        t.clients;
})
