-- ===== src/Sessions/Store.antt =====
-- services/sessions/sessions.go: the sessions of the app. The tokens that are generated and the time
-- are arguments; the hash of a token is a parameter.
use aerarium_agentic_banking.Common.{
  ℕ, String, ◌==◌, Bool, true, false, not, ◌&&◌, Option, none, some, List, [], ◌∷◌, ◌++◌, ltb,
  if◌then◌else◌, Result, ok, err,
}
use aerarium_agentic_banking.Common.Action.{
  Action, ◌>>=◌, ◌>>◌, return, query, exec, statement, or_raise,
}

pub data SessionError : Type 0 where
  session_invalid no_entropy statement_failed : SessionError

pub data Factor : Type 0 where
  factor_passkey factor_device_biometric factor_device_pin : Factor

pub record Session : Type 0 where
  pub token : String
  pub customer_id : String
  pub expires_at : ℕ

pub record Principal : Type 0 where
  pub customer_id : String
  pub factor : Factor
  pub device_ref : String

pub record Row : Type 0 where
  pub token_hash : String
  pub principal : Principal
  pub expires_at : ℕ
  pub revoked_at : Option ℕ

abbrev pub Act : Type 0 → Type 0
Act = Action (List Row) SessionError

abbrev pub is_some : {A : Type 0} → Option A → Bool
is_some none = false
is_some (some _) = true

-- The token's hash is the key of the table.
unfoldable pub find_row : String → List Row → Option Row
find_row h [] = none
find_row h (r ∷ l) = if r.token_hash == h then some r else find_row h l

unfoldable pub insert_row : Row → List Row → Result {0, 0} SessionError Unit × List Row
insert_row r l =
    if is_some (find_row r.token_hash l) then (err statement_failed, l) else (ok tt, l ++ (r ∷ []))

abbrev pub new_row : String → Principal → ℕ → Row
new_row h p expires = record {
  token_hash = h;
  principal = p;
  expires_at = expires;
  revoked_at = none;
}

unfoldable pub open_session : (String → String) → Option String → Principal → ℕ → Act Session
open_session hash generated p expires = do
  token ← or_raise no_entropy generated
  statement statement_failed (insert_row (new_row (hash token) p expires))
  return (record { token = token; customer_id = p.customer_id; expires_at = expires })

abbrev pub is_live : ℕ → Row → Bool
is_live now r = not (is_some r.revoked_at) && ltb now r.expires_at

unfoldable pub live_principal : ℕ → Option Row → Option Principal
live_principal now none = none
live_principal now (some r) = if is_live now r then some r.principal else none

unfoldable pub resolve : (String → String) → ℕ → String → Act Principal
resolve hash now token =
    query statement_failed (λ l. live_principal now (find_row (hash token) l))
    >>= or_raise session_invalid

-- The time of the first closing stays.
abbrev pub revoked_at_first : ℕ → Option ℕ → Option ℕ
revoked_at_first now none = some now
revoked_at_first now (some t) = some t

abbrev pub revoke_row : (Row → Bool) → ℕ → Row → Row
revoke_row test now r =
    if test r then record r { revoked_at = revoked_at_first now r.revoked_at } else r

unfoldable pub revoke_rows : (Row → Bool) → ℕ → List Row → List Row
revoke_rows test now [] = []
revoke_rows test now (r ∷ l) = revoke_row test now r ∷ revoke_rows test now l

unfoldable pub revoke : (String → String) → ℕ → String → Act Unit
revoke hash now token = exec statement_failed (revoke_rows (λ r. r.token_hash == hash token) now)

unfoldable pub revoke_device : ℕ → String → Act Unit
revoke_device now device =
    exec statement_failed (revoke_rows (λ r. r.principal.device_ref == device) now)
