-- ===== src/Control/Trail.antt =====
-- How an executed operation was authorized, once on record, stays so.
use aerarium_agentic_banking.Common.{
  ℕ, String, ◌≡◌, refl, Option, none, some, [], ok, Dict, lookup, lookup-insert, eq_refl,
}
use aerarium_agentic_banking.Control.{
  Authorization, Execution, Database, insert_once, executed, execution_of,
}

abbrev pub recorded : String → Authorization → Database → Execution
recorded customer_id a db = record {
  customer_id = customer_id;
  authorization = a;
  executed_at = db.now;
}

insert_once_shown :
    (id : String) (e : Execution) (o : Option Execution) (m : Dict Execution)
    → lookup id m ≡ o
    → lookup id (insert_once id e o m) ≡ some (elim o [ none ↦ e | some f ↦ f ])
insert_once_shown id e none m h = rw (lookup-insert id id e m, eq_refl id) refl
insert_once_shown id e (some f) m h = h

-- A second record of an execution under the same operation number, whatever it says and whenever it
-- comes, leaves the executions as the first left them, when neither statement fails; and an
-- operation that had no record is then read back, by its customer, with the authorization that
-- came first.
pub executed_first_stays :
    (customer other id : String) (a b : Authorization) (db : Database) (later : ℕ)
    → db.faults ≡ []
    → lookup id db.executions ≡ none
    → let db1 = (executed customer id a db).1 in
      let db2 = (executed other id b (record db1 { now = later })).1 in
      (db2.executions ≡ db1.executions)
      × ((execution_of customer id db2).0 ≡ ok (some (recorded customer a db)))
unfolding executed execution_of
executed_first_stays customer other id a b db later f h =
    rw
      (
        f,
        h,
        insert_once_shown id (recorded customer a db) none db.executions h,
        insert_once_shown id (recorded customer a db) none db.executions h,
        eq_refl customer,
      )
      (refl, refl)
