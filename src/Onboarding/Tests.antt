-- ===== src/Onboarding/Tests.antt =====
-- Applications over the core in memory and the simulated providers.
use aerarium_agentic_banking.Common.{
  ℕ, String, ◌≡◌, refl, Bool, true, false, some, none, List, [], ◌∷◌, ok,
}
use aerarium_agentic_banking.Common.Action.{healthy}
use aerarium_agentic_banking.Core.Client.{Account, open_customer_account}
use aerarium_agentic_banking.Core.Memory.{memory, memory_open, empty}
use aerarium_agentic_banking.Kyc.Port.{
  Applicant, ScreeningResult, IdentityVerifier, SanctionsScreener,
}
use aerarium_agentic_banking.Kyc.Sim.{sim_verifier, sim_screener, screened_as}
use aerarium_agentic_banking.Onboarding.Store.{
  manual_review, in_progress, identity_verification, sanctions_screening, decision, account_opening,
  Application, StepRow, SubmitRequest, find, steps_of, done_of, insert_step, update,
}
use aerarium_agentic_banking.Onboarding.Store.Rows.{record_of}
use aerarium_agentic_banking.Common.{arith}
use aerarium_agentic_banking.Onboarding.Service.{State, recorded, new_application, submit, resume}
use aerarium_agentic_banking.Onboarding.Service.Decided.{Decided}
use aerarium_agentic_banking.Onboarding.Service.Resumed.{opened_as, resume_opens, resume_stays}
use aerarium_agentic_banking.Onboarding.Service.Frame.{Calls, here, next, submitted, resumed}
use aerarium_agentic_banking.Onboarding.Service.Trail.{GoesOn, trail_kept}
use aerarium_agentic_banking.Onboarding.Service.Approved.{IsOpened, approved-IsOpened}

abbrev ana : Applicant
ana = record {
  full_name = "Ana";
  document_type = "DNI";
  document_number = "44";
  date_of_birth = 9000;
  country_code = "PE";
}

abbrev numbered : ℕ → String
numbered n = "x"

abbrev verifier : IdentityVerifier
verifier = sim_verifier numbered

abbrev screener : SanctionsScreener
screener = sim_screener numbered

abbrev request : SubmitRequest
request = record {
  external_ref = "app-7";
  customer_id = "ana";
  product_code = "basic";
  account_code = "acc-7";
  applicant = ana;
}

-- A world without applications, in which the document is on a list.
abbrev listed : State memory verifier screener
listed = record {
  applications = [];
  steps = [];
  core = empty;
  identity = record { outcomes = []; cache = []; fail_next = 0; calls = 0 };
  screening = record { watchlist = ("44", "OFAC" ∷ []) ∷ []; cache = []; fail_next = 0; calls = 0 };
}

abbrev app : Application
app = new_application memory verifier screener "7" request

abbrev account : Account
account = record { id = "acc-7"; owner_id = "ana"; parent_account_id = ""; currency = "basic" }

abbrev found_hit : ScreeningResult
found_hit = screened_as "scr-x" (some ("OFAC" ∷ []))

opens :
    open_customer_account memory "acc-7" "Ana" "ana" "basic" empty
    ≡ (ok account, (memory_open "acc-7" "Ana" "ana" "basic" empty).1)
unfolding open_customer_account memory_open
opens = refl

-- The decision was to let an analyst see the match on the list.
abbrev reviewed : Application
reviewed = record app { status = manual_review; decision_reason = "coincidencia en listas" }

abbrev done_rows : List StepRow
done_rows =
    ("7", recorded identity_verification "verified" "sim-identity" "idv-x" "")
    ∷ ("7", recorded sanctions_screening "hit" "sim-screening" "scr-x" "")
    ∷ ("7", recorded decision "manual_review" "policy" "" "coincidencia en listas")
    ∷ []

abbrev under_review : State memory verifier screener
under_review = record listed { applications = reviewed ∷ []; steps = done_rows }

found_reviewed : find "7" (reviewed ∷ []) ≡ some reviewed
unfolding find
found_reviewed = refl

reviewed_identity :
    record_of "7" identity_verification done_rows
    ≡ some (recorded identity_verification "verified" "sim-identity" "idv-x" "")
unfolding done_of steps_of
reviewed_identity = refl

reviewed_screening :
    record_of "7" sanctions_screening done_rows
    ≡ some (recorded sanctions_screening "hit" "sim-screening" "scr-x" "")
unfolding done_of steps_of
reviewed_screening = refl

reviewed_decision :
    record_of "7" decision done_rows
    ≡ some (recorded decision "manual_review" "policy" "" "coincidencia en listas")
unfolding done_of steps_of
reviewed_decision = refl

reviewed_unopened : record_of "7" account_opening done_rows ≡ none
unfolding done_of steps_of
reviewed_unopened = refl

resume_opens_example : resume memory verifier screener "7" "acc-7" (healthy under_review) ≡ (
  ok (opened_as "acc-7" reviewed),
  healthy (record under_review {
    applications = update "7" (opened_as "acc-7") (reviewed ∷ []);
    steps = insert_step "7" (recorded account_opening "opened" "core" "acc-7" "") done_rows;
    core = (memory_open "acc-7" "Ana" "ana" "basic" empty).1;
  }),
)
resume_opens_example =
    resume_opens memory verifier screener "acc-7" under_review reviewed found_reviewed refl
      reviewed_identity reviewed_screening reviewed_decision reviewed_unopened opens

-- The account was opened and recorded, and the status then not written.
abbrev pending : Application
pending = record app { status = in_progress }

abbrev opened_rows : List StepRow
opened_rows =
    ("7", recorded identity_verification "verified" "sim-identity" "idv-x" "")
    ∷ ("7", recorded sanctions_screening "clear" "sim-screening" "scr-x" "")
    ∷ ("7", recorded decision "approved" "policy" "" "")
    ∷ ("7", recorded account_opening "opened" "core" "acc-7" "")
    ∷ []

abbrev half_open : State memory verifier screener
half_open = record listed { applications = pending ∷ []; steps = opened_rows }

found_pending : find "7" (pending ∷ []) ≡ some pending
unfolding find
found_pending = refl

pending_identity :
    record_of "7" identity_verification opened_rows
    ≡ some (recorded identity_verification "verified" "sim-identity" "idv-x" "")
unfolding done_of steps_of
pending_identity = refl

pending_screening :
    record_of "7" sanctions_screening opened_rows
    ≡ some (recorded sanctions_screening "clear" "sim-screening" "scr-x" "")
unfolding done_of steps_of
pending_screening = refl

pending_decision :
    record_of "7" decision opened_rows ≡ some (recorded decision "approved" "policy" "" "")
unfolding done_of steps_of
pending_decision = refl

pending_opening :
    record_of "7" account_opening opened_rows
    ≡ some (recorded account_opening "opened" "core" "acc-7" "")
unfolding done_of steps_of
pending_opening = refl

resume_stays_example :
    resume memory verifier screener "7" "acc-7" (healthy half_open)
    ≡ (ok pending, healthy half_open)
resume_stays_example =
    resume_stays memory verifier screener "acc-7" half_open pending found_pending pending_identity
      pending_screening pending_decision pending_opening

-- A submission whose fifth statement fails, and the same application taken up again.
abbrev faults : List Bool
faults = false ∷ false ∷ false ∷ false ∷ true ∷ []

abbrev interrupted : State memory verifier screener
interrupted =
    (submit memory verifier screener "7" request
      (record { state = listed; faults = faults })).1.state

abbrev later_state : State memory verifier screener
later_state = (resume memory verifier screener "7" "acc-7" (healthy interrupted)).1.state

two-Calls : Calls memory verifier screener listed later_state
two-Calls = next (next here (submitted faults "7" request)) (resumed [] "7" "acc-7")

trail_kept_example : GoesOn [] later_state.steps
trail_kept_example = trail_kept memory verifier screener two-Calls

nobody_approved : IsOpened [] []
unfolding find
nobody_approved id a h e = absurd (ground arith)

approved-IsOpened_example : IsOpened later_state.applications later_state.steps
approved-IsOpened_example = approved-IsOpened memory verifier screener two-Calls nobody_approved
