-- ===== src/Cards/Store/Reads.antt =====
-- What the statements read and leave of the rows.
use aerarium_agentic_banking.Common.{
  String, ◌≡◌, refl, inl, inr, ◌≢◌, false, Option, none, some, [], ◌∷◌, arith, ◌==◌, Result, ok,
  err, Bool-cases, Dict, lookup, insert, lookup-insert, eq_refl, eq_iff,
}
use aerarium_agentic_banking.Common.Int.{ℤ}
use aerarium_agentic_banking.Cards.Store.{
  Row, Authorization, Table, StoreError, statement_failed, unknown_authorization, next_fault, scan,
  found, get, created, existing, reserved_row, as_existing, insert_new, reserve, update_row, update,
  mark_held, mark_cleared, mark_reversed, delete_unheld, drop,
}

found-ok :
    (id : String) (o : Option Row) (a : Authorization)
    → found id o ≡ ok a
    → (r : Row) × (o ≡ some r) × (a ≡ scan id r)
unfolding found
found-ok id none a h = cc
found-ok id (some r) a h = (r, refl, cc)

-- What is read is a row, and reading changes no row.
pub get-ok :
    (id : String) (t : Table) {a : Authorization}
    → (get id t).0 ≡ ok a
    → (r : Row) × (lookup id t.rows ≡ some r) × (a ≡ scan id r)
unfolding get
get-ok id t {a} h = elim (Bool-cases (next_fault t.faults)) [
  | inl fails ↦ ground arith
  | inr works ↦ found-ok id (lookup id t.rows) a (rw works at h)
]

pub get_rows : (id : String) (t : Table) → (get id t).1.rows ≡ t.rows
unfolding get
get_rows id t = ground arith

insert_frame :
    (k id : String) (v : Row) (m : Dict Row)
    → (k == id) ≡ false
    → lookup id (insert k v m) ≡ lookup id m
insert_frame k id v m h = rw (lookup-insert k id v m, h) refl

update_row_frame :
    (k id : String) (f : Row → Row) (o : Option Row) (m : Dict Row)
    → (k == id) ≡ false
    → lookup id (update_row k f o m) ≡ lookup id m
unfolding update_row
update_row_frame k id f none m h = refl
update_row_frame k id f (some r) m h = insert_frame k id (f r) m h

update_frame :
    (k id : String) (f : Row → Row) (t : Table)
    → (k == id) ≡ false
    → lookup id (update k f t).1.rows ≡ lookup id t.rows
unfolding update
update_frame k id f t h = elim (Bool-cases (next_fault t.faults)) [
  | inl fails ↦ rw fails refl
  | inr works ↦ rw works (update_row_frame k id f _ t.rows h)
]

pub mark_held_frame :
    (k id hold : String) (t : Table)
    → (k == id) ≡ false
    → lookup id (mark_held k hold t).1.rows ≡ lookup id t.rows
unfolding mark_held
mark_held_frame k id hold t h = update_frame k id _ t h

pub mark_cleared_frame :
    (k id : String) (final overage : ℤ) (t : Table)
    → (k == id) ≡ false
    → lookup id (mark_cleared k final overage t).1.rows ≡ lookup id t.rows
unfolding mark_cleared
mark_cleared_frame k id final overage t h = update_frame k id _ t h

pub mark_reversed_frame :
    (k id : String) (t : Table)
    → (k == id) ≡ false
    → lookup id (mark_reversed k t).1.rows ≡ lookup id t.rows
unfolding mark_reversed
mark_reversed_frame k id t h = update_frame k id _ t h

delete_unheld_frame :
    (k id : String) (m : Dict Row) → (k == id) ≡ false → lookup id (delete_unheld k m) ≡ lookup id m
unfolding delete_unheld
delete_unheld_frame k id [] h = refl
delete_unheld_frame k id ((j, r) ∷ m) h =
    ground (arith, eq_iff j k, eq_iff j id, eq_iff k id, delete_unheld_frame k id m h)

pub drop_frame :
    (k id : String) (t : Table) → (k == id) ≡ false → lookup id (drop k t).1.rows ≡ lookup id t.rows
unfolding drop
drop_frame k id t h = elim (Bool-cases (next_fault t.faults)) [
  | inl fails ↦ rw fails refl
  | inr works ↦ rw works (delete_unheld_frame k id t.rows h)
]

as_existing-ne_created :
    (a : Result StoreError Authorization × Table) → (as_existing a).0 ≢ ok created
unfolding as_existing
as_existing-ne_created (ok x, t) h = cc
as_existing-ne_created (err e, t) h = cc

as_existing_rows : (a : Result StoreError Authorization × Table) → (as_existing a).1 ≡ a.1
unfolding as_existing
as_existing_rows (ok x, t) = refl
as_existing_rows (err e, t) = refl

insert_new-created :
    (a : Authorization) (o : Option Row) (t : Table)
    → (insert_new a o t).0 ≡ ok created
    → (o ≡ none)
      × ((insert_new a o t).1.rows ≡ insert a.network_transaction_id (reserved_row a t.now) t.rows)
unfolding insert_new
insert_new-created a none t h = (refl, refl)
insert_new-created a (some r) t h =
    absurd (as_existing-ne_created (get a.network_transaction_id t) h)

-- A reservation is created exactly where there was no row, which is inserted.
pub reserve-created :
    (a : Authorization) (t : Table)
    → (reserve a t).0 ≡ ok created
    → (lookup a.network_transaction_id t.rows ≡ none)
      × ((reserve a t).1.rows ≡ insert a.network_transaction_id (reserved_row a t.now) t.rows)
unfolding reserve
reserve-created a t h = elim (Bool-cases (next_fault t.faults)) [
  | inl fails ↦ ground arith
  | inr works ↦ rw works (insert_new-created a _ _ (rw works at h))
]

insert_new_known :
    (a : Authorization) (o : Option Row) (t : Table) → o ≢ none → (insert_new a o t).1.rows ≡ t.rows
unfolding insert_new
insert_new_known a none t h = absurd (h refl)
insert_new_known a (some r) t h = rw as_existing_rows (get_rows a.network_transaction_id t)

-- Reserving where there is a row changes no row.
pub reserve_known :
    (a : Authorization) (t : Table)
    → lookup a.network_transaction_id t.rows ≢ none
    → (reserve a t).1.rows ≡ t.rows
unfolding reserve
reserve_known a t h = elim (Bool-cases (next_fault t.faults)) [
  | inl fails ↦ rw fails refl
  | inr works ↦ rw works (insert_new_known a _ _ h)
]

insert_new_frame :
    (id : String) (a : Authorization) (o : Option Row) (t : Table)
    → (a.network_transaction_id == id) ≡ false
    → lookup id (insert_new a o t).1.rows ≡ lookup id t.rows
unfolding insert_new
insert_new_frame id a none t h = insert_frame a.network_transaction_id id _ t.rows h
insert_new_frame id a (some r) t h = rw (as_existing_rows, get_rows a.network_transaction_id t) refl

pub reserve_frame :
    (id : String) (a : Authorization) (t : Table)
    → (a.network_transaction_id == id) ≡ false
    → lookup id (reserve a t).1.rows ≡ lookup id t.rows
unfolding reserve
reserve_frame id a t h = elim (Bool-cases (next_fault t.faults)) [
  | inl fails ↦ rw fails refl
  | inr works ↦ rw works (insert_new_frame id a _ _ h)
]

update_row_shown :
    (k : String) (f : Row → Row) (o : Option Row) (r : Row) (m : Dict Row)
    → o ≡ some r
    → lookup k (update_row k f o m) ≡ some (f r)
unfolding update_row
update_row_shown k f none r m h = cc
update_row_shown k f (some q) r m h = rw (lookup-insert k k (f q) m, eq_refl k) cc

update_shown :
    (k : String) (f : Row → Row) (t : Table) (r : Row)
    → (update k f t).0 ≡ none
    → lookup k t.rows ≡ some r
    → lookup k (update k f t).1.rows ≡ some (f r)
unfolding update
update_shown k f t r d h = elim (Bool-cases (next_fault t.faults)) [
  | inl fails ↦ ground arith
  | inr works ↦ rw works (update_row_shown k f _ r t.rows h)
]

pub mark_held_shown :
    (k hold : String) (t : Table) (r : Row)
    → (mark_held k hold t).0 ≡ none
    → lookup k t.rows ≡ some r
    → lookup k (mark_held k hold t).1.rows ≡ some (record r { hold_transaction_id = some hold })
unfolding mark_held
mark_held_shown k hold t r d h = update_shown k _ t r d h

delete_unheld_gone :
    (k : String) (r : Row) (m : Dict Row)
    → r.hold_transaction_id ≡ none
    → lookup k m ≡ none
    → lookup k (delete_unheld k (insert k r m)) ≡ none
unfolding delete_unheld
delete_unheld_gone k r [] h e = rw (eq_refl k, h) refl
delete_unheld_gone k r ((j, q) ∷ m) h e = elim (Bool-cases (j == k)) [
  | inl same ↦ ground arith
  | inr other ↦ rw (other, other, other) (delete_unheld_gone k r m h (rw other at e))
]

pub drop_gone :
    (k : String) (t : Table) (r : Row) (m : Dict Row)
    → (drop k t).0 ≡ none
    → t.rows ≡ insert k r m
    → r.hold_transaction_id ≡ none
    → lookup k m ≡ none
    → lookup k (drop k t).1.rows ≡ none
unfolding drop
drop_gone k t r m d e h n = elim (Bool-cases (next_fault t.faults)) [
  | inl fails ↦ ground arith
  | inr works ↦ rw (works, e) (delete_unheld_gone k r m h n)
]

pub get_unknown :
    (id : String) (t : Table) → lookup id t.rows ≡ none → (e : StoreError) × ((get id t).0 ≡ err e)
unfolding get found
get_unknown id t h = elim (Bool-cases (next_fault t.faults)) [
  | inl fails ↦ rw fails (statement_failed, refl)
  | inr works ↦ rw (works, h) (unknown_authorization, refl)
]

-- Where there is no row, reserving creates one or fails, and a failure changes no row.
pub reserve-existing :
    (a : Authorization) (t : Table) {x : Authorization}
    → lookup a.network_transaction_id t.rows ≡ none
    → (reserve a t).0 ≢ ok (existing x)
unfolding reserve insert_new
reserve-existing a t h k = elim (Bool-cases (next_fault t.faults)) [
  | inl fails ↦ ground arith
  | inr works ↦ let z = rw (works, h) at k in cc
]

insert_new_failed :
    (a : Authorization) (o : Option Row) (t : Table) {x : StoreError}
    → (insert_new a o t).0 ≡ err x
    → (insert_new a o t).1.rows ≡ t.rows
unfolding insert_new
insert_new_failed a none t h = cc
insert_new_failed a (some r) t h = rw as_existing_rows (get_rows a.network_transaction_id t)

pub reserve_failed :
    (a : Authorization) (t : Table) {x : StoreError}
    → (reserve a t).0 ≡ err x
    → (reserve a t).1.rows ≡ t.rows
unfolding reserve
reserve_failed a t h = elim (Bool-cases (next_fault t.faults)) [
  | inl fails ↦ rw fails refl
  | inr works ↦ rw works (insert_new_failed a _ _ (rw works at h))
]

-- Reserving where there is a row returns it.
pub reserve_again :
    (a : Authorization) (t : Table) (r : Row)
    → lookup a.network_transaction_id t.rows ≡ some r
    → t.faults ≡ []
    → reserve a t ≡ (ok (existing (scan a.network_transaction_id r)), record t { faults = [] })
unfolding reserve insert_new get found as_existing
reserve_again a t r h f = rw (f, h, h) refl
