-- ===== src/Cards/Store.antt =====
-- adapters/cards/store.go and the table of schema.sql. A statement may fail, and then changes
-- nothing: `faults` says of the next statements whether they do.
pub mod Reads
use aerarium_agentic_banking.Common.{
  ℕ, String, Bool, true, false, Option, none, some, List, [], ◌∷◌, ◌==◌, ◌&&◌, ltb, ◌+◌, Result, ok,
  err, Dict, lookup, insert, if◌then◌else◌,
}
use aerarium_agentic_banking.Common.Int.{ℤ, pos}

pub data Status : Type 0 where
  status_held status_cleared status_reversed : Status

-- A row; the columns that may be null are options.
pub record Row : Type 0 where
  pub card_id : String
  pub account_id : String
  pub amount_micros : ℤ
  pub currency : String
  pub merchant_name : String
  pub status : Status
  pub hold_transaction_id : Option String
  pub cleared_amount_micros : Option ℤ
  pub overage_micros : ℤ
  pub authorized_at : ℕ
  pub resolved_at : Option ℕ

pub record Authorization : Type 0 where
  pub network_transaction_id : String
  pub card_id : String
  pub account_id : String
  pub amount_micros : ℤ
  pub currency : String
  pub merchant_name : String
  pub status : Status
  pub hold_transaction_id : String
  pub cleared_amount_micros : ℤ
  pub overage_micros : ℤ
  pub authorized_at : ℕ

-- `now` is what the database's clock shows.
pub record Table : Type 0 where
  pub rows : Dict Row
  pub faults : List Bool
  pub now : ℕ

-- `ErrUnknownAuthorization`, or a failed statement.
pub data StoreError : Type 0 where
  unknown_authorization : StoreError
  statement_failed : StoreError

abbrev is_held : Status → Bool
is_held status_held = true
is_held _ = false

abbrev pub approvable : Status → Bool
approvable status_held = true
approvable status_cleared = true
approvable status_reversed = false

abbrev or_empty : Option String → String
or_empty none = ""
or_empty (some s) = s

abbrev or_zero : Option ℤ → ℤ
or_zero none = pos 0
or_zero (some n) = n

-- A row as the columns are read, nulls replaced.
abbrev pub scan : String → Row → Authorization
scan id r = record {
  network_transaction_id = id;
  card_id = r.card_id;
  account_id = r.account_id;
  amount_micros = r.amount_micros;
  currency = r.currency;
  merchant_name = r.merchant_name;
  status = r.status;
  hold_transaction_id = or_empty r.hold_transaction_id;
  cleared_amount_micros = or_zero r.cleared_amount_micros;
  overage_micros = r.overage_micros;
  authorized_at = r.authorized_at;
}

abbrev next_fault : List Bool → Bool
next_fault [] = false
next_fault (f ∷ _) = f

abbrev later_faults : List Bool → List Bool
later_faults [] = []
later_faults (_ ∷ fs) = fs

-- One statement has been executed.
abbrev executed : Table → Table
executed t = record t { faults = later_faults t.faults }

found : String → Option Row → Result StoreError Authorization
found id none = err unknown_authorization
found id (some r) = ok (scan id r)

unfoldable pub get : String → Table → Result StoreError Authorization × Table
unfolding found
get id t =
    if next_fault t.faults
    then (err statement_failed, executed t)
    else (found id (lookup id t.rows), executed t)

-- What `reserve` returns: the authorization is new, or there is one.
pub data Reservation : Type 0 where
  created : Reservation
  existing : Authorization → Reservation

abbrev pub reserved_row : Authorization → ℕ → Row
reserved_row a now = record {
  card_id = a.card_id;
  account_id = a.account_id;
  amount_micros = a.amount_micros;
  currency = a.currency;
  merchant_name = a.merchant_name;
  status = status_held;
  hold_transaction_id = none;
  cleared_amount_micros = none;
  overage_micros = pos 0;
  authorized_at = now;
  resolved_at = none;
}

as_existing : Result StoreError Authorization × Table → Result StoreError Reservation × Table
as_existing (ok a, t) = (ok (existing a), t)
as_existing (err e, t) = (err e, t)

insert_new : Authorization → Option Row → Table → Result StoreError Reservation × Table
insert_new a none t =
    (ok created, record t { rows = insert a.network_transaction_id (reserved_row a t.now) t.rows })
insert_new a (some _) t = as_existing (get a.network_transaction_id t)

unfoldable pub reserve : Authorization → Table → Result StoreError Reservation × Table
unfolding insert_new as_existing
reserve a t =
    if next_fault t.faults
    then (err statement_failed, executed t)
    else insert_new a (lookup a.network_transaction_id t.rows) (executed t)

update_row : String → (Row → Row) → Option Row → Dict Row → Dict Row
update_row id f none m = m
update_row id f (some r) m = insert id (f r) m

-- `UPDATE … WHERE network_transaction_id = $1`, which may find no row.
abbrev pub Done : Type 0
Done = Option StoreError

unfoldable update : String → (Row → Row) → Table → Done × Table
unfolding update_row
update id f t =
    if next_fault t.faults
    then (some statement_failed, executed t)
    else (none, record (executed t) { rows = update_row id f (lookup id t.rows) t.rows })

unfoldable pub mark_held : String → String → Table → Done × Table
unfolding update
mark_held id hold t = update id (λ r. record r { hold_transaction_id = some hold }) t

unfoldable pub mark_cleared : String → ℤ → ℤ → Table → Done × Table
unfolding update
mark_cleared id final_amount overage t =
    update id
      (λ r. record r {
        status = status_cleared;
        cleared_amount_micros = some final_amount;
        overage_micros = overage;
        resolved_at = some t.now;
      })
      t

unfoldable pub mark_reversed : String → Table → Done × Table
unfolding update
mark_reversed id t =
    update id (λ r. record r { status = status_reversed; resolved_at = some t.now }) t

abbrev no_hold : Option String → Bool
no_hold none = true
no_hold (some _) = false

-- `DELETE … WHERE network_transaction_id = $1 AND hold_transaction_id IS NULL`
unfoldable pub delete_unheld : String → Dict Row → Dict Row
delete_unheld id [] = []
delete_unheld id ((k, r) ∷ m) =
    let rest = delete_unheld id m in
    if k == id && no_hold r.hold_transaction_id then rest else (k, r) ∷ rest

unfoldable pub drop : String → Table → Done × Table
unfolding delete_unheld
drop id t =
    if next_fault t.faults
    then (some statement_failed, executed t)
    else (none, record (executed t) { rows = delete_unheld id t.rows })

-- The rows held for longer than `age`, in the order of `authorized_at`, older first.
insert_by_age : Authorization → List Authorization → List Authorization
insert_by_age a [] = a ∷ []
insert_by_age a (b ∷ l) =
    let rest = insert_by_age a l in
    if ltb b.authorized_at a.authorized_at then b ∷ rest else a ∷ b ∷ l

unfoldable pub expired : ℕ → ℕ → Dict Row → List Authorization
unfolding insert_by_age
expired now age [] = []
expired now age ((id, r) ∷ m) =
    let rest = expired now age m in
    if is_held r.status && ltb (r.authorized_at + age) now
    then insert_by_age (scan id r) rest
    else rest

unfoldable pub held_older_than : ℕ → Table → Result StoreError (List Authorization) × Table
unfolding expired
held_older_than age t =
    if next_fault t.faults
    then (err statement_failed, executed t)
    else (ok (expired t.now age t.rows), executed t)
