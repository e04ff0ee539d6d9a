-- ===== src/Sessions/Tests.antt =====
-- Runs of the sessions.
use mathlib.Core.Path.{refl}
use mathlib.Core.Logic.{◌≢◌}
use Prim.Native.String.{String, ◌++◌}
use aerarium_agentic_banking.Common.{ok, List, [], ◌∷◌, some}
use aerarium_agentic_banking.Common.Action.{healthy, exec}
use aerarium_agentic_banking.Sessions.Store.{
  Principal, Row, factor_device_pin, find_row, new_row, resolve, revoke_device,
}
use aerarium_agentic_banking.Sessions.Closed.{
  Call, opening, closing, unlinking, perform, closes, run, closed_for_good,
}

abbrev hash_of : String → String
hash_of token = "h:" ++ token

abbrev owner : Principal
owner = record { customer_id = "cust-1"; factor = factor_device_pin; device_ref = "phone-1" }

abbrev two_rows : List Row
two_rows =
    new_row "h:t0" (record owner { device_ref = "phone-0" }) 900 ∷ new_row "h:t1" owner 900 ∷ []

abbrev afterwards : List Call
afterwards = opening (some "t2") owner 5000 ∷ opening (some "t1") owner 5000 ∷ closing 20 "t0" ∷ []

closed_for_good_example :
    (resolve hash_of 30 "t1"
      (run hash_of afterwards (perform hash_of (unlinking 10 "phone-1") (healthy two_rows)).1)).0
    ≢ ok owner
unfolding find_row closes perform revoke_device exec
closed_for_good_example =
    closed_for_good hash_of "t1" (unlinking 10 "phone-1") afterwards (healthy two_rows) 30 refl refl
      refl
