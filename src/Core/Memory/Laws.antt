-- ===== src/Core/Memory/Laws.antt =====
-- The core in memory keeps the promises of a ledger.
use aerarium_agentic_banking.Common.{
  String, ◌≡◌, refl, ap, inl, inr, true, Option, none, some, List, [], ◌∷◌, map, arith, eq_iff,
  Bool-cases,
}
use aerarium_agentic_banking.Core.Entry.{Entry}
use aerarium_agentic_banking.Core.Errors.{
  translate, reason_from, sentinel_for_reason, sentinel_for_code,
}
use aerarium_agentic_banking.Core.Client.{
  to_pb, post, post_answer, get_account, get_account_by_id, open_customer_account,
}
use aerarium_agentic_banking.Core.Book.{
  Posting, posting, find, Payload, effect, Recorded, Retried, Refused, IsLedger,
}
use aerarium_agentic_banking.Core.Memory.{
  Answer, refuses, loses_reply, Store, from_pb, entry_eq, entries_eq, head, rest, record_new,
  same_payload, record_known, record_posting, memory_post, memory_account, memory_open, memory,
}

entry_eq_sound : (e f : Entry) → entry_eq e f ≡ true → e ≡ f
unfolding entry_eq
entry_eq_sound e f h =
    ground (arith, eq_iff e.account_id f.account_id, eq_iff e.currency f.currency)

entries_eq_sound : (es fs : List Entry) → entries_eq es fs ≡ true → es ≡ fs
unfolding entries_eq
entries_eq_sound [] [] h = refl
entries_eq_sound [] (f ∷ fs) h = cc
entries_eq_sound (e ∷ es) [] h = cc
entries_eq_sound (e ∷ es) (f ∷ fs) h = ground (arith, entry_eq_sound e f, entries_eq_sound es fs)

entry_eq_refl : (e : Entry) → entry_eq e e ≡ true
unfolding entry_eq
entry_eq_refl e = ground (arith, eq_iff e.account_id e.account_id, eq_iff e.currency e.currency)

entries_eq_refl : (es : List Entry) → entries_eq es es ≡ true
unfolding entries_eq
entries_eq_refl [] = refl
entries_eq_refl (e ∷ es) = ground (arith, entry_eq_refl e, entries_eq_refl es)

map-from_pb-to_pb : (es : List Entry) → map from_pb (map to_pb es) ≡ es
map-from_pb-to_pb [] = refl
map-from_pb-to_pb (e ∷ es) = ap (λ t. e ∷ t) (map-from_pb-to_pb es)

-- In memory a payload is the same if it is equal.
abbrev pub Same : Payload
Same p q = (p.kind ≡ q.kind) × (p.entries ≡ q.entries)

same_payload_sound : (p q : Posting) → same_payload p q ≡ true → Same p q
unfolding same_payload
same_payload_sound p q h =
    (ground (arith, eq_iff p.kind q.kind), entries_eq_sound p.entries q.entries (ground arith))

record_new-Recorded :
    (p : Posting) (a : Option Answer) (m : Store)
    → find p.key m.book ≡ none
    → let (r, m') = post_answer (record_new p a m) in Recorded Same p m.book r m'.book
unfolding record_new translate sentinel_for_reason reason_from sentinel_for_code
record_new-Recorded p none m h = inr (refl, (refl, h))
record_new-Recorded p (some (refuses reason)) m h = inl refl
record_new-Recorded p (some loses_reply) m h = inr (refl, (refl, h))

record_known-Recorded :
    (p q : Posting) (m : Store)
    → find p.key m.book ≡ some q
    → let (r, m') = post_answer (record_known p q m) in Recorded Same p m.book r m'.book
unfolding record_known
record_known-Recorded p q m h = elim (Bool-cases (same_payload p q)) [
  | inl same ↦ rw same (inl (refl, (refl, (q, h, same_payload_sound p q same))))
  | inr other ↦ rw other (inl refl)
]

record_posting-Recorded :
    (p : Posting) (o : Option Posting) (m : Store)
    → find p.key m.book ≡ o
    → let (r, m') = post_answer (record_posting p o m) in Recorded Same p m.book r m'.book
unfolding record_posting
record_posting-Recorded p (some q) m h = record_known-Recorded p q m h
record_posting-Recorded p none m h =
    record_new-Recorded p (head m.plan) (record m { plan = rest m.plan }) h

pub memory_records :
    (key kind : String) (entries : List Entry) (description : String) (m : Store)
    → let (r, m') = post memory key kind entries description m in
      Recorded Same (posting key kind entries) m.book r m'.book
unfolding post memory_post
memory_records key kind entries description m =
    rw (map-from_pb-to_pb entries) (record_posting-Recorded (posting key kind entries) _ m refl)

record_known-Retried :
    (p q : Posting) (m : Store) → Same p q → Retried (post_answer (record_known p q m)).0
unfolding record_known same_payload
record_known-Retried p q m h =
    rw (h.0, h.1, (eq_iff q.kind q.kind).1 refl, entries_eq_refl q.entries) refl

record_posting-Retried :
    (p q : Posting) (o : Option Posting) (m : Store)
    → o ≡ some q
    → Same p q
    → Retried (post_answer (record_posting p o m)).0
unfolding record_posting
record_posting-Retried p q o m h same = rw h (record_known-Retried p q m same)

pub memory_retries :
    (key kind : String) (entries : List Entry) (description : String) (m : Store) (q : Posting)
    → find key m.book ≡ some q
    → Same (posting key kind entries) q
    → Retried (post memory key kind entries description m).0
unfolding post memory_post
memory_retries key kind entries description m q h same =
    rw (map-from_pb-to_pb entries) (record_posting-Retried (posting key kind entries) q _ m h same)

record_known-Refused :
    (p q : Posting) (m : Store) → ¬ Same p q → Refused (post_answer (record_known p q m)).0
unfolding record_known translate sentinel_for_reason reason_from sentinel_for_code
record_known-Refused p q m h = elim (Bool-cases (same_payload p q)) [
  | inl same ↦ absurd (h (same_payload_sound p q same))
  | inr other ↦ rw other (inl refl)
]

record_posting-Refused :
    (p q : Posting) (o : Option Posting) (m : Store)
    → o ≡ some q
    → ¬ Same p q
    → Refused (post_answer (record_posting p o m)).0
unfolding record_posting
record_posting-Refused p q o m h other = rw h (record_known-Refused p q m other)

pub memory_conflicts :
    (key kind : String) (entries : List Entry) (description : String) (m : Store) (q : Posting)
    → find key m.book ≡ some q
    → ¬ Same (posting key kind entries) q
    → Refused (post memory key kind entries description m).0
unfolding post memory_post
memory_conflicts key kind entries description m q h other =
    rw (map-from_pb-to_pb entries) (record_posting-Refused (posting key kind entries) q _ m h other)

pub same_effect :
    (p q : Posting) → Same p q → (a c : String) → effect a c q.entries ≡ effect a c p.entries
same_effect p q h a c = rw (h.1)

pub memory_account_reads : (id : String) (m : Store) → (get_account memory id m).1.book ≡ m.book
unfolding get_account memory_account
memory_account_reads id m = ground arith

pub memory_account_by_id_reads :
    (id : String) (m : Store) → (get_account_by_id memory id m).1.book ≡ m.book
unfolding get_account_by_id memory_account
memory_account_by_id_reads id m = ground arith

pub memory_open_reads :
    (code name customer product : String) (m : Store)
    → (open_customer_account memory code name customer product m).1.book ≡ m.book
unfolding open_customer_account memory_open
memory_open_reads code name customer product m = refl

-- The core in memory keeps the promises.
abbrev pub memory_IsLedger : IsLedger memory
memory_IsLedger = record {
  book = λ m. m.book;
  Same = Same;
  same_refl = λ p. (refl, refl);
  same_effect = same_effect;
  records = memory_records;
  retries = memory_retries;
  conflicts = memory_conflicts;
  get_account_reads = memory_account_reads;
  get_account_by_id_reads = memory_account_by_id_reads;
  open_customer_account_reads = memory_open_reads;
}
