-- ===== src/Core/Book.antt =====
-- The ledger as the services rely on it: an append-only book of postings, each under its
-- idempotency key. `IsLedger` states what core/src/posting.rs promises of a call to post.
mod Sums
pub use Sums.*
use aerarium_agentic_banking.Common.{
  eq_false_of_ne, eq_refl, ◌≢◌, refl, String, ◌≡◌, ◌⊎◌, inl, inr, Bool, true, false, Option, none,
  some, List, [], ◌∷◌, ◌==◌, if◌then◌else◌, Result, ok, err,
}
use aerarium_agentic_banking.Common.Int.{ℤ, pos}
use aerarium_agentic_banking.Core.Entry.{Entry, PostResult}
use aerarium_agentic_banking.Core.Errors.{CoreError, idempotency_conflict, unavailable}
use aerarium_agentic_banking.Core.Client.{
  Core, post, get_account, get_account_by_id, open_customer_account,
}

abbrev pub find : String → List Posting → Option Posting
find k [] = none
find k (p ∷ b) = if p.key == k then some p else find k b

-- When a retry counts as the same: the core compares payloads by a hash of the kind and of the
-- entries in any order, not the description.
abbrev pub Payload : Type 1
Payload = Posting → Posting → Type 0

abbrev pub Posted : Posting → List Posting → List Posting → Type 0
Posted p b b' = (b' ≡ p ∷ b) × (find p.key b ≡ none)

abbrev pub Replayed : Payload → Posting → List Posting → List Posting → Type 0
Replayed Same p b b' = (b' ≡ b) × ((q : Posting) × (find p.key b ≡ some q) × Same p q)

-- What a call has done to the book, by how it ended. After a failure of the infrastructure the
-- caller does not know whether the posting was made.
abbrev pub Recorded :
    Payload → Posting → List Posting → Result CoreError PostResult → List Posting → Type 0
Recorded Same p b (ok r) b' =
    ((r.replayed ≡ true) × Replayed Same p b b') ⊎ ((r.replayed ≡ false) × Posted p b b')
Recorded Same p b (err e) b' = (b' ≡ b) ⊎ ((e.sentinel ≡ unavailable) × Posted p b b')

-- The answer to a posting that the book already holds.
abbrev pub Retried : Result CoreError PostResult → Type 0
Retried (ok r) = r.replayed ≡ true
Retried (err e) = e.sentinel ≡ unavailable

-- The answer to another payload under a key that the book already holds.
abbrev pub Refused : Result CoreError PostResult → Type 0
Refused (ok r) = ⊥
Refused (err e) = (e.sentinel ≡ idempotency_conflict) ⊎ (e.sentinel ≡ unavailable)

pub record IsLedger (C : Core) : Type 1 where
  pub book : Core.State C → List Posting
  pub Same : Payload
  pub same_refl : (p : Posting) → Same p p
  pub same_effect :
      (p q : Posting) → Same p q → (a c : String) → effect a c q.entries ≡ effect a c p.entries
  pub records :
      (key kind : String) (entries : List Entry) (description : String) (s : Core.State C)
      → let (r, s') = post C key kind entries description s in
        Recorded Same (posting key kind entries) (book s) r (book s')
  pub retries :
      (key kind : String) (entries : List Entry) (description : String) (s : Core.State C)
      (q : Posting)
      → find key (book s) ≡ some q
      → Same (posting key kind entries) q
      → Retried (post C key kind entries description s).0
  pub conflicts :
      (key kind : String) (entries : List Entry) (description : String) (s : Core.State C)
      (q : Posting)
      → find key (book s) ≡ some q
      → ¬ Same (posting key kind entries) q
      → Refused (post C key kind entries description s).0
  pub get_account_reads :
      (code : String) (s : Core.State C) → book (get_account C code s).1 ≡ book s
  pub get_account_by_id_reads :
      (id : String) (s : Core.State C) → book (get_account_by_id C id s).1 ≡ book s
  pub open_customer_account_reads :
      (code name customer product : String) (s : Core.State C)
      → book (open_customer_account C code name customer product s).1 ≡ book s

pub find-cons_ne :
    (k : String) (p : Posting) (b : List Posting) → p.key ≢ k → find k (p ∷ b) ≡ find k b
find-cons_ne k p b h = rw (eq_false_of_ne p.key k h)

pub find-cons_self : (p : Posting) (b : List Posting) → find p.key (p ∷ b) ≡ some p
find-cons_self p b = rw (eq_refl p.key)

-- What a call under a key that the book does not hold has done.
abbrev pub New : Posting → List Posting → Result CoreError PostResult → List Posting → Type 0
New p b (ok r) b' = (r.replayed ≡ false) × (b' ≡ p ∷ b)
New p b (err e) b' = (b' ≡ b) ⊎ ((e.sentinel ≡ unavailable) × (b' ≡ p ∷ b))

pub Recorded-New :
    (S : Payload) (p : Posting) (b : List Posting) (r : Result CoreError PostResult)
    (b' : List Posting)
    → find p.key b ≡ none
    → Recorded S p b r b'
    → New p b r b'
Recorded-New S p b (ok r) b' h (inl (_, (_, (q, e, _)))) = cc
Recorded-New S p b (ok r) b' h (inr (f, (e, _))) = (f, e)
Recorded-New S p b (err e) b' h (inl same) = inl same
Recorded-New S p b (err e) b' h (inr (u, (same, _))) = inr (u, same)

-- A balanced posting keeps the book sound, however the call ended.
pub Recorded-IsSound :
    (S : Payload) (p : Posting) (b : List Posting) (r : Result CoreError PostResult)
    (b' : List Posting)
    → IsBalanced p.entries
    → IsSound b
    → Recorded S p b r b'
    → IsSound b'
Recorded-IsSound S p b (ok r) b' h s (inl (_, (e, _))) = rw e s
Recorded-IsSound S p b (ok r) b' h s (inr (_, (e, _))) = rw e (IsSound-cons p b h s)
Recorded-IsSound S p b (err e) b' h s (inl same) = rw same s
Recorded-IsSound S p b (err e) b' h s (inr (_, (same, _))) = rw same (IsSound-cons p b h s)

-- A posting under a key that the book holds adds nothing, whatever it says.
pub Recorded-held :
    (S : Payload) (p : Posting) (b : List Posting) (r : Result CoreError PostResult)
    (b' : List Posting) (q : Posting)
    → find p.key b ≡ some q
    → Recorded S p b r b'
    → b' ≡ b
Recorded-held S p b (ok r) b' q h (inl (_, (same, _))) = same
Recorded-held S p b (ok r) b' q h (inr (_, (_, absent))) = cc
Recorded-held S p b (err e) b' q h (inl same) = same
Recorded-held S p b (err e) b' q h (inr (_, (_, absent))) = cc

module _ (C : Core) (L : IsLedger C) where
  -- A call under a key that the book does not hold.
  pub post-New :
      (key kind : String) (entries : List Entry) (description : String) (s : Core.State C)
      (b : List Posting)
      → L.book s ≡ b
      → find key b ≡ none
      → New
          (posting key kind entries)
          b
          (post C key kind entries description s).0
          (L.book (post C key kind entries description s).1)
  post-New key kind entries description s b e h =
      Recorded-New L.Same (posting key kind entries) b _ _ h
        (rw e at (L.records key kind entries description s))

  pub post-IsSound :
      (key kind : String) (entries : List Entry) (description : String) (s : Core.State C)
      → IsBalanced entries
      → IsSound (L.book s)
      → IsSound (L.book (post C key kind entries description s).1)
  post-IsSound key kind entries description s h k =
      Recorded-IsSound L.Same (posting key kind entries) (L.book s) _ _ h k
        (L.records key kind entries description s)

  -- A call that answered left its posting, or one with the same payload, in the book.
  pub post-find :
      (key kind : String) (entries : List Entry) (description : String) (s : Core.State C)
      {r : PostResult}
      → (post C key kind entries description s).0 ≡ ok r
      → (q : Posting) × (find key (L.book (post C key kind entries description s).1) ≡ some q)
        × L.Same (posting key kind entries) q
  post-find key kind entries description s {r} e =
      Recorded-find (posting key kind entries) _ r _
        (rw e at (L.records key kind entries description s))
    where
      Recorded-find :
          (p : Posting) (b : List Posting) (r : PostResult) (b' : List Posting)
          → Recorded L.Same p b (ok r) b'
          → (q : Posting) × (find p.key b' ≡ some q) × L.Same p q
      Recorded-find p b r b' (inl (_, (same, (q, h, k)))) = (q, rw same h, k)
      Recorded-find p b r b' (inr (_, (made, _))) = (p, rw made (find-cons_self p b), L.same_refl p)

  -- A call whose posting the book already holds changes nothing.
  pub post-known :
      (key kind : String) (entries : List Entry) (description : String) (s : Core.State C)
      (q : Posting)
      → find key (L.book s) ≡ some q
      → L.Same (posting key kind entries) q
      → Retried (post C key kind entries description s).0
        × (L.book (post C key kind entries description s).1 ≡ L.book s)
  post-known key kind entries description s q h k = (
    L.retries key kind entries description s q h k,
    Recorded-known (posting key kind entries) _ _ _ q h (L.records key kind entries description s),
  )
    where
      Recorded-known :
          (p : Posting) (b : List Posting) (a : Result CoreError PostResult) (b' : List Posting)
          (q : Posting)
          → find p.key b ≡ some q
          → Recorded L.Same p b a b'
          → b' ≡ b
      Recorded-known p b (ok r) b' q h (inl (_, (same, _))) = same
      Recorded-known p b (ok r) b' q h (inr (_, (_, absent))) = cc
      Recorded-known p b (err e) b' q h (inl same) = same
      Recorded-known p b (err e) b' q h (inr (_, (_, absent))) = cc
