-- ===== src/Core/Memory.antt =====
-- A core that keeps its book in memory, to run the services on. How it answers the next calls to
-- post is programmed: as usual, with a refusal, or with a failure after the posting was made.
pub mod Laws
use Prim.Native.String.{◌++◌}
use aerarium_agentic_banking.Common.{
  String, ◌≡◌, refl, ap, sym, ◌⊎◌, inl, inr, Bool, true, false, ◌&&◌, Option, none, some, List, [],
  ◌∷◌, map, arith, ◌==◌, eq_iff, if◌then◌else◌, Result, ok, err, eqb, Bool-cases, Option-cases,
  Dict, lookup,
}
use aerarium_agentic_banking.Common.Int.{ℤ, pos, negsuc}
use aerarium_agentic_banking.Core.Entry.{
  Direction, direction_debit, direction_credit, Entry, PostResult,
}
use aerarium_agentic_banking.Core.Errors.{
  CoreError, GrpcError, status, Code, other_code, code_not_found, code_aborted,
  code_failed_precondition, translate, reason_from, sentinel_for_reason, sentinel_for_code,
  unavailable,
}
use aerarium_agentic_banking.Core.Client.{
  Core, PbEntry, PostRequest, PostResponse, Failure, Account, to_pb, post, post_answer, get_account,
  get_account_by_id, open_customer_account,
}
use aerarium_agentic_banking.Core.Book.{
  Posting, posting, find, effect, Posted, Replayed, Recorded, Retried, IsLedger,
}

pub data Answer : Type 0 where
  refuses : String → Answer
  loses_reply : Answer

pub record Store : Type 0 where
  pub book : List Posting
  pub accounts : Dict Account
  pub plan : List (Option Answer)

abbrev from_pb : PbEntry → Entry
from_pb e = record {
  account_id = e.account_id;
  direction = e.direction;
  amount_micros = e.amount.amount_micros;
  currency = e.amount.currency;
}

abbrev direction_eq : Direction → Direction → Bool
direction_eq direction_debit direction_debit = true
direction_eq direction_credit direction_credit = true
direction_eq _ _ = false

abbrev eq_ℤ : ℤ → ℤ → Bool
eq_ℤ (pos a) (pos b) = eqb a b
eq_ℤ (negsuc a) (negsuc b) = eqb a b
eq_ℤ _ _ = false

entry_eq : Entry → Entry → Bool
entry_eq e f =
    e.account_id == f.account_id
    && (e.currency == f.currency
        && (direction_eq e.direction f.direction && eq_ℤ e.amount_micros f.amount_micros))

entries_eq : List Entry → List Entry → Bool
entries_eq [] [] = true
entries_eq (e ∷ es) (f ∷ fs) = entry_eq e f && entries_eq es fs
entries_eq _ _ = false

abbrev to_posting : PostRequest → Posting
to_posting q = posting q.idempotency_key q.kind (map from_pb q.entries)

abbrev response : String → Bool → PostResponse
response key replayed = record { transaction_id = "tx-" ++ key; posted_at = 0; replayed = replayed }

abbrev failure : Code → String → List String → Failure
failure code message trailer = record { error = status code message; trailer = trailer }

abbrev head : List (Option Answer) → Option Answer
head [] = none
head (a ∷ _) = a

abbrev rest : List (Option Answer) → List (Option Answer)
rest [] = []
rest (_ ∷ l) = l

-- A posting under a new key.
record_new : Posting → Option Answer → Store → Result Failure PostResponse × Store
record_new p none m = (ok (response p.key false), record m { book = p ∷ m.book })
record_new p (some (refuses reason)) m =
    (err (failure code_failed_precondition "refused" (reason ∷ [])), m)
record_new p (some loses_reply) m =
    (err (failure other_code "timeout" []), record m { book = p ∷ m.book })

same_payload : Posting → Posting → Bool
same_payload p q = p.kind == q.kind && entries_eq p.entries q.entries

record_known : Posting → Posting → Store → Result Failure PostResponse × Store
record_known p q m = (
  if same_payload p q
      then ok (response p.key true)
      else err (failure code_aborted "different payload" []),
  m,
)

record_posting : Posting → Option Posting → Store → Result Failure PostResponse × Store
record_posting p (some q) m = record_known p q m
record_posting p none m = record_new p (head m.plan) (record m { plan = rest m.plan })

unfoldable pub memory_post : PostRequest → Store → Result Failure PostResponse × Store
unfolding record_posting record_new record_known same_payload entries_eq entry_eq
memory_post q m = let p = to_posting q in record_posting p (find p.key m.book) m

abbrev or_not_found : Option Account → Result Failure Account
or_not_found (some a) = ok a
or_not_found none = err (failure code_not_found "no such account" [])

unfoldable pub memory_account : String → Store → Result Failure Account × Store
memory_account id m = (or_not_found (lookup id m.accounts), m)

-- An account is opened under its code, which serves as its identifier.
unfoldable pub memory_open :
    String → String → String → String → Store → Result Failure Account × Store
memory_open code name customer product m =
    let a : Account = record {
      id = code;
      owner_id = customer;
      parent_account_id = "";
      currency = product;
    } in
    (ok a, record m { accounts = (code, a) ∷ m.accounts })

abbrev pub memory : Core
memory = record {
  State = Store;
  post_call = memory_post;
  get_account_call = memory_account;
  get_account_by_id_call = memory_account;
  open_customer_account_call = memory_open;
}

abbrev pub empty : Store
empty = record { book = []; accounts = []; plan = [] }
