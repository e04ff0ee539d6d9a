-- ===== src/Aliases/Service.antt =====
-- services/aliases/aliases.go: the service. The sender of the codes, the hash and the reading
-- of an identifier are parameters; what is generated and the time are arguments.
use Prim.Native.String.{◌++◌}
use aerarium_agentic_banking.Common.{
  ℕ, ◌+◌, ◌-◌, ◌*◌, String, ◌==◌, Bool, true, false, not, ◌&&◌, ◌||◌, Option, none, some, List, [],
  ◌∷◌, ltb, leb, if◌then◌else◌, Result, ok, err, Dict, lookup, insert,
}
use mathlib.Core.List as L
use aerarium_agentic_banking.Common.Action.{
  Action, ◌>>=◌, ◌>>◌, return, fail, query, exec, statement, call, raise_if, or_raise, transaction,
}
use aerarium_agentic_banking.Aliases.Phone.{normalize_phone, six_digits}

pub data AliasError : Type 0 where
  invalid_phone not_found verification_not_found too_many_attempts : AliasError
  wrong_code : ℕ → AliasError
  send_failed : String → AliasError
  no_entropy statement_failed : AliasError

-- In seconds.
abbrev pub code_ttl : ℕ
code_ttl = 10 * 60

abbrev pub max_attempts : ℕ
max_attempts = 5

pub record VerificationRow : Type 0 where
  pub id : String
  pub customer_id : String
  pub account_id : String
  pub phone : String
  pub code_hash : String
  pub attempts : ℕ
  pub expires_at : ℕ
  pub consumed_at : Option ℕ

pub record AliasRow : Type 0 where
  pub phone : String
  pub customer_id : String
  pub account_id : String
  pub verified_at : ℕ

pub record Verification : Type 0 where
  pub id : String
  pub phone : String
  pub expires_at : ℕ

pub record Alias : Type 0 where
  pub phone : String
  pub account_id : String

-- The two tables, and what the sender of codes keeps.
pub record Tables (W : Type 0) : Type 0 where
  pub verifications : List VerificationRow
  pub aliases : List AliasRow
  pub outside : W

abbrev pub is_some : {A : Type 0} → Option A → Bool
is_some none = false
is_some (some _) = true

unfoldable pub find_verification : String → List VerificationRow → Option VerificationRow
find_verification id [] = none
find_verification id (v ∷ l) = if v.id == id then some v else find_verification id l

unfoldable pub update_verification :
    String → (VerificationRow → VerificationRow) → List VerificationRow → List VerificationRow
update_verification id f [] = []
update_verification id f (v ∷ l) =
    let rest = update_verification id f l in if v.id == id then f v ∷ rest else v ∷ rest

-- One of the customer's that was not used and has not expired.
abbrev pub is_open : String → ℕ → VerificationRow → Bool
is_open customer now v =
    (v.customer_id == customer) && (not (is_some v.consumed_at) && ltb now v.expires_at)

unfoldable pub open_or_none : String → ℕ → Option VerificationRow → Option VerificationRow
open_or_none customer now none = none
open_or_none customer now (some v) = if is_open customer now v then some v else none

abbrev pub attempted : VerificationRow → VerificationRow
attempted v = record v { attempts = v.attempts + 1 }

abbrev pub consumed : ℕ → VerificationRow → VerificationRow
consumed now v = record v { consumed_at = some now }

unfoldable pub find_phone : String → List AliasRow → Option AliasRow
find_phone phone [] = none
find_phone phone (a ∷ l) = if a.phone == phone then some a else find_phone phone l

unfoldable pub find_customer : String → List AliasRow → Option AliasRow
find_customer customer [] = none
find_customer customer (a ∷ l) =
    if a.customer_id == customer then some a else find_customer customer l

-- The customer's other numbers leave.
unfoldable pub delete_others : String → String → List AliasRow → List AliasRow
delete_others customer phone [] = []
delete_others customer phone (a ∷ l) =
    let rest = delete_others customer phone l in
    if (a.customer_id == customer) && not (a.phone == phone) then rest else a ∷ rest

unfoldable pub has_other_phone : String → String → List AliasRow → Bool
has_other_phone customer phone [] = false
has_other_phone customer phone (a ∷ l) =
    ((a.customer_id == customer) && not (a.phone == phone)) || has_other_phone customer phone l

unfoldable pub upsert : AliasRow → List AliasRow → List AliasRow
upsert new [] = new ∷ []
upsert new (a ∷ l) = let rest = upsert new l in if a.phone == new.phone then new ∷ l else a ∷ rest

unfoldable pub delete_customer : String → List AliasRow → List AliasRow
delete_customer customer [] = []
delete_customer customer (a ∷ l) =
    let rest = delete_customer customer l in if a.customer_id == customer then rest else a ∷ rest

unfoldable pub hash_code : (String → String) → String → String → String
hash_code hash id code = hash (id ++ (":" ++ code))

pub data Outcome : Type 0 where
  registered : String → Outcome
  rejected : ℕ → Outcome

alias_of : AliasRow → Alias
alias_of a = record { phone = a.phone; account_id = a.account_id }

abbrev pub Act : Type 0 → Type 0 → Type 0
Act W = Action (Tables W) AliasError

abbrev pub Sender : Type 0 → Type 0
Sender W = String → String → W → Result {0, 0} String Unit × W

abbrev pub new_verification :
    (String → String) → ℕ → String → String → String → String → ℕ → VerificationRow
new_verification hash now id customer account phone n = record {
  id = id;
  customer_id = customer;
  account_id = account;
  phone = phone;
  code_hash = hash_code hash id (six_digits n);
  attempts = 0;
  expires_at = now + code_ttl;
  consumed_at = none;
}

module _ {W : Type 0} where
  unfoldable pub insert_verification :
      VerificationRow → Tables W → Result {0, 0} AliasError Unit × Tables W
  insert_verification v t =
      if is_some (find_verification v.id t.verifications)
      then (err statement_failed, t)
      else (ok tt, record t { verifications = L.◌++◌ t.verifications (v ∷ []) })

  unfoldable pub sent :
      Result {0, 0} String Unit × W → Tables W → Result {0, 0} AliasError Unit × Tables W
  sent (ok _, w) t = (ok tt, record t { outside = w })
  sent (err e, w) t = (err (send_failed e), record t { outside = w })

  unfoldable pub send_code :
      Sender W → String → String → Tables W → Result {0, 0} AliasError Unit × Tables W
  unfolding sent
  send_code send phone code t = sent (send phone code t.outside) t

  unfoldable pub start_verification :
      Sender W
      → (String → String)
      → Option ℕ
      → String
      → ℕ
      → String
      → String
      → String
      → Act W Verification
  start_verification o hash generated id now customer account input = do
    phone ← or_raise invalid_phone (normalize_phone input)
    n ← or_raise no_entropy generated
    statement statement_failed
        (insert_verification (new_verification hash now id customer account phone n))
    call (send_code o phone (six_digits n))
    return (record { id = id; phone = phone; expires_at = now + code_ttl })

  -- One number for each customer: the table's index refuses a second one.
  unfoldable pub upsert_alias : AliasRow → Tables W → Result {0, 0} AliasError Unit × Tables W
  upsert_alias a t =
      if has_other_phone a.customer_id a.phone t.aliases
      then (err statement_failed, t)
      else (ok tt, record t { aliases = upsert a t.aliases })

  unfoldable pub register : ℕ → String → String → String → Act W Unit
  register now customer account phone = do
    exec statement_failed (λ t. record t { aliases = delete_others customer phone t.aliases })
    statement statement_failed (
        upsert_alias (record {
          phone = phone;
          customer_id = customer;
          account_id = account;
          verified_at = now;
        }))

  -- The beginning and the end of a transaction may fail too.
  abbrev pub boundary : Act W Unit
  boundary = exec statement_failed (λ t. t)

  unfoldable pub reject : String → VerificationRow → Act W Outcome
  reject id v = do
    exec statement_failed
        (λ t. record t { verifications = update_verification id attempted t.verifications })
    boundary
    return (rejected v.attempts)

  unfoldable pub accept : ℕ → String → String → VerificationRow → Act W Outcome
  accept now customer id v = do
    exec statement_failed
        (λ t. record t { verifications = update_verification id (consumed now) t.verifications })
    register now customer v.account_id v.phone
    boundary
    return (registered v.phone)

  -- The identifier as it was given, of which the hash is made, and as the column has it.
  unfoldable pub compare_code :
      (String → String) → ℕ → String → String → String → String → VerificationRow → Act W Outcome
  compare_code hash now customer key id code v =
      if hash_code hash id code == v.code_hash then accept now customer key v else reject key v

  unfoldable pub attempt : (String → String) → ℕ → String → String → String → String → Act W Outcome
  attempt hash now customer key id code = do
    boundary
    found ←
        query statement_failed
          (λ t. open_or_none customer now (find_verification key t.verifications))
    v ← or_raise verification_not_found found
    raise_if (leb max_attempts v.attempts) too_many_attempts
    compare_code hash now customer key id code v

  -- The answer after the transaction.
  unfoldable pub answer : Outcome → Act W String
  answer (registered phone) = return phone
  answer (rejected n) =
      if leb max_attempts (n + 1)
      then fail too_many_attempts
      else fail (wrong_code (max_attempts - n - 1))

  -- `parse` gives the identifier that a text spells, as the column keeps it.
  unfoldable pub verify :
      (String → Option String) → (String → String) → ℕ → String → String → String → Act W String
  verify parse hash now customer id code = do
    key ← or_raise verification_not_found (parse id)
    outcome ← transaction (attempt hash now customer key id code)
    answer outcome

  unfoldable pub register_verified : ℕ → String → String → String → Act W String
  register_verified now customer account input = do
    phone ← or_raise invalid_phone (normalize_phone input)
    transaction (boundary >> register now customer account phone >> boundary)
    return phone

  unfoldable pub mine : String → Act W Alias
  unfolding alias_of
  mine customer = do
    found ← query statement_failed (λ t. find_customer customer t.aliases)
    a ← or_raise not_found found
    return (alias_of a)

  unfoldable pub remove : String → Act W Unit
  remove customer =
      exec statement_failed (λ t. record t { aliases = delete_customer customer t.aliases })

  unfoldable pub resolve : String → Act W Alias
  unfolding alias_of
  resolve input = do
    phone ← or_raise invalid_phone (normalize_phone input)
    found ← query statement_failed (λ t. find_phone phone t.aliases)
    a ← or_raise not_found found
    return (alias_of a)

-- The sender of the sandbox keeps the last code of each number.
unfoldable pub sandbox_send :
    String → String → Dict String → Result {0, 0} String Unit × Dict String
sandbox_send phone code codes = (ok tt, insert phone code codes)

or_empty : Option String → String
or_empty none = ""
or_empty (some code) = code

unfoldable pub last_code : String → Dict String → String
unfolding or_empty
last_code phone codes = or_empty (lookup phone codes)
