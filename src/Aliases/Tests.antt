-- ===== src/Aliases/Tests.antt =====
-- Runs of the directory of mobile numbers.
use Prim.Native.String.{◌++◌}
use aerarium_agentic_banking.Common.{
  Option, String, ◌≡◌, ◌≢◌, refl, none, some, List, [], ◌∷◌, err, Dict, ok,
}
use aerarium_agentic_banking.Common.Action.{
  Db, healthy, ◌>>=◌, then_with, return, fail, query, exec, statement, call, raise_if, or_raise,
  rolled_back, transaction,
}
use aerarium_agentic_banking.Aliases.Phone.{
  digits_of, without_country, is_mobile, checked_phone, normalize_phone, six_digits, mask_name,
}
use aerarium_agentic_banking.Aliases.Service.{
  remove, delete_customer, wrong_code, AliasRow, Tables, find_verification, update_verification,
  open_or_none, delete_others, has_other_phone, upsert, hash_code, start_verification,
  insert_verification, send_code, upsert_alias, register, reject, accept, compare_code, attempt,
  answer, verify, sandbox_send, last_code,
}
use aerarium_agentic_banking.Aliases.Spent.{spent_for_good}
use aerarium_agentic_banking.Aliases.Kept.{Call, removing, verifying, perform, run, passes}
use aerarium_agentic_banking.Aliases.Sent.{IsFaithful, accepted_code_was_sent}

normalize_spaces : normalize_phone "987 654-321" ≡ some "+51987654321"
unfolding normalize_phone digits_of without_country is_mobile checked_phone
normalize_spaces = refl

normalize_country : normalize_phone "+51987654321" ≡ some "+51987654321"
unfolding normalize_phone digits_of without_country is_mobile checked_phone
normalize_country = refl

normalize_landline : normalize_phone "014567890" ≡ none
unfolding normalize_phone digits_of without_country is_mobile checked_phone
normalize_landline = refl

masked_three : mask_name "Carmen Huaman Díaz (prueba)" ≡ "Carmen H."
unfolding mask_name
masked_three = refl

code_of_42 : six_digits 42 ≡ "000042"
unfolding six_digits
code_of_42 = refl

abbrev itself : String → Option String
itself id = some id

-- Without collisions.
abbrev itself_hash : String → String
itself_hash s = s

abbrev hash_of : String → String
hash_of s = "h" ++ s

-- The number belongs to another customer, and the customer has another number.
abbrev taken : List AliasRow
taken =
    record { phone = "+51987654321"; customer_id = "other"; account_id = "acc-9"; verified_at = 1 }
    ∷ record { phone = "+51911111111"; customer_id = "cust"; account_id = "acc-1"; verified_at = 2 }
    ∷ []

abbrev empty : Db (Tables (Dict String))
empty = healthy (record { verifications = []; aliases = taken; outside = [] })

abbrev started : Db (Tables (Dict String))
started =
    (start_verification sandbox_send hash_of (some 42) "v1" 100 "cust" "acc-1" "987654321" empty).1

sent_code : last_code "+51987654321" started.state.outside ≡ "000042"
unfolding last_code start_verification normalize_phone digits_of without_country is_mobile
    checked_phone six_digits sandbox_send ◌>>=◌ then_with or_raise statement insert_verification
    send_code call find_verification return
sent_code = refl

guessed : (verify itself hash_of 200 "cust" "v1" "000041" started).0 ≡ err (wrong_code 4)
unfolding start_verification normalize_phone digits_of without_country is_mobile checked_phone
    six_digits sandbox_send ◌>>=◌ then_with or_raise statement insert_verification send_code call
    find_verification return verify raise_if transaction rolled_back attempt exec query open_or_none
    compare_code hash_code accept reject answer update_verification fail
guessed = refl

-- Another customer's number is removed in between, and the code is tried wrongly once.
abbrev in_between : List (Call (Dict String))
in_between = removing "other" ∷ verifying itself itself_hash 150 "cust" "v1" "000041" ∷ []

abbrev begun : Db (Tables (Dict String))
begun =
    (start_verification sandbox_send itself_hash (some 42) "v1" 100 "cust" "acc-1" "987654321"
      empty).1

accepted_code_was_sent_example :
    IsFaithful sandbox_send itself_hash "v1" "cust" "acc-1" 200 "cust" "000042" "+51987654321"
      (record { id = "v1"; phone = "+51987654321"; expires_at = 700 })
      empty.state
      begun.state
      (run in_between begun).state
      (verify itself itself_hash 200 "cust" "v1" "000042" (run in_between begun)).1.state
unfolding start_verification normalize_phone digits_of without_country is_mobile checked_phone
    six_digits sandbox_send ◌>>=◌ then_with or_raise statement insert_verification send_code call
    find_verification return verify raise_if transaction rolled_back attempt exec query open_or_none
    compare_code hash_code accept answer update_verification register upsert_alias delete_others
    has_other_phone upsert run perform remove delete_customer reject fail
accepted_code_was_sent_example =
    accepted_code_was_sent sandbox_send itself_hash itself (some 42) "v1" 100 "cust" "acc-1"
      "987654321" empty in_between 200 "cust" "000042" (λ a b h. h) refl refl refl

-- Five wrong codes for a verification that is in time.
abbrev guessed_out : Tables (Dict String)
guessed_out = record {
  verifications =
      record {
        id = "v1";
        customer_id = "cust";
        account_id = "acc-1";
        phone = "+51987654321";
        code_hash = "hv1:000042";
        attempts = 5;
        expires_at = 700;
        consumed_at = none;
      }
      ∷ [];
  aliases = taken;
  outside = [];
}

abbrev tried_again : List (Call (Dict String))
tried_again = removing "other" ∷ verifying itself hash_of 200 "cust" "v1" "000042" ∷ []

spent_for_good_example :
    (verify itself hash_of 201 "cust" "v1" "000042" (run tried_again (healthy guessed_out))).0
    ≢ ok "+51987654321"
unfolding find_verification passes
spent_for_good_example =
    spent_for_good "v1" "v1" tried_again (healthy guessed_out) itself hash_of 201 "cust" "000042"
      refl refl
