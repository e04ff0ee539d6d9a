-- ===== src/Control/Tests.antt =====
-- Decisions on concrete requests.
use aerarium_agentic_banking.Common.{String, ◌≡◌, refl, ◌↔◌, ◌≢◌, false, none, some, [], ◌∷◌, ok}
use aerarium_agentic_banking.Common.Int.{pos}
use aerarium_agentic_banking.Control.{
  level_human, level_mandate, Grant, Request, allow, deny, catalog, for_delegate, evaluate,
  Authorization, Database, executed, execution_of, decide, decision, action_transfer,
  action_grant_permission,
}
use aerarium_agentic_banking.Control.Delegate.{Permits, for_delegate_iff, human_level_never_allowed}
use aerarium_agentic_banking.Control.Record.{OnRecord, decide-OnRecord}
use aerarium_agentic_banking.Control.Trail.{recorded, executed_first_stays}

abbrev grant : Grant
grant = record {
  ref = "m1";
  level = level_mandate;
  actions = action_transfer ∷ [];
  max_per_operation = some (pos 100);
  remaining = none;
  expires_at = 50;
  revoked = false;
}

abbrev asks : String → Request
asks action = record {
  customer_id = "ana";
  actor = record { kind = "agent"; id = "a1" };
  action = action;
  amount_micros = pos 60;
  counterparty = "beto";
  operation = "send 60";
  grant = some grant;
}

abbrev no_record : Database
no_record = record { decisions = []; executions = []; now = 10; faults = [] }

allowed : (for_delegate 10 (asks action_transfer) level_mandate).outcome ≡ allow
unfolding for_delegate
allowed = refl

expired : (for_delegate 50 (asks action_transfer) level_mandate).outcome ≡ deny
unfolding for_delegate
expired = refl

for_delegate_iff_example :
    ((for_delegate 10 (asks action_transfer) level_mandate).outcome ≡ allow) ↔ (
      (level_mandate ≢ level_human)
      × ((g : Grant) × ((asks action_transfer).grant ≡ some g)
          × Permits 10 (asks action_transfer) level_mandate g))
for_delegate_iff_example = for_delegate_iff 10 (asks action_transfer) level_mandate

grants_are_human : catalog action_grant_permission ≡ some level_human
unfolding catalog
grants_are_human = refl

grants_denied :
    evaluate none 10 (asks action_grant_permission) ≡ ok (decision deny "human_only" level_human)
unfolding evaluate catalog for_delegate
grants_denied = refl

human_level_never_allowed_example : ◌≢◌ {A = String} deny allow
human_level_never_allowed_example =
    human_level_never_allowed none 10 (asks action_grant_permission) grants_are_human grants_denied

decide-OnRecord_example :
    let (r, db) = decide none 10 (asks action_transfer) no_record in
    OnRecord (asks action_transfer) [] 10 r db.decisions
decide-OnRecord_example = decide-OnRecord none 10 (asks action_transfer) no_record

abbrev by_phone : Authorization
by_phone = record {
  actor = record { kind = "holder"; id = "phone" };
  action = action_transfer;
  outcome = "confirmed";
  reason = "";
  evidence = "phone:passkey";
}

abbrev by_agent : Authorization
by_agent = record by_phone { outcome = "allow" }

executed_first_stays_example :
    let db1 = (executed "ana" "tx1" by_phone no_record).1 in
    let db2 = (executed "ana" "tx1" by_agent (record db1 { now = 20 })).1 in
    (db2.executions ≡ db1.executions)
    × ((execution_of "ana" "tx1" db2).0 ≡ ok (some (recorded "ana" by_phone no_record)))
executed_first_stays_example =
    executed_first_stays "ana" "ana" "tx1" by_phone by_agent no_record 20 refl refl
