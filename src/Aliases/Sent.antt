-- ===== src/Aliases/Sent.antt =====
-- A code from its sending to its acceptance.
use Prim.Native.String.{◌++◌}
use text.Mathlib.TextLemmas.{append_cancel_left}
use mathlib.Core.Path.{subst}
use mathlib.Core.List as L
use aerarium_agentic_banking.Common.{
  ℕ, String, ◌≡◌, refl, sym, ap, ◌∙◌, ◌==◌, ◌&&◌, Bool, true, false, Option, some, List, [], ◌∷◌,
  arith, eq_iff, eq_refl, Result, ok, err, Bool-cases, inl, inr,
}
use aerarium_agentic_banking.Common.Action.{Db, call}
use aerarium_agentic_banking.Common.Outcome.{
  Gives, bind-Gives, or_raise-Gives, statement-Gives, return-Gives, weaker-Gives,
}
use aerarium_agentic_banking.Aliases.Phone.{normalize_phone, six_digits}
use aerarium_agentic_banking.Aliases.Service.{
  AliasError, invalid_phone, no_entropy, statement_failed, is_some, VerificationRow, Verification,
  Tables, find_verification, is_open, hash_code, Sender, new_verification, insert_verification,
  send_code, sent, start_verification, verify,
}
use aerarium_agentic_banking.Aliases.Moved.{IsMoved, IsVerified, verify-IsVerified}
use aerarium_agentic_banking.Aliases.Kept.{passes, IsKept, Call, run, StaysKept, run_stays}

find_verification-new :
    (v : VerificationRow) (l : List VerificationRow)
    → is_some (find_verification v.id l) ≡ false
    → find_verification v.id (L.◌++◌ l (v ∷ [])) ≡ some v
unfolding find_verification
find_verification-new v [] n = rw eq_refl refl
find_verification-new v (x ∷ l) n = elim (Bool-cases (x.id == v.id)) [
  | inl y ↦ let z = rw y at n in absurd (ground arith)
  | inr y ↦ let z = rw y at n in rw y (find_verification-new v l z)
]

-- The row of a verification: what its start wrote, which nothing changes later.
abbrev is_written : VerificationRow → VerificationRow → Bool
is_written r v =
    (v.code_hash == r.code_hash)
    && ((v.phone == r.phone)
        && ((v.customer_id == r.customer_id) && (v.account_id == r.account_id)))

written-IsKept : (r : VerificationRow) → IsKept (is_written r)
written-IsKept r = record { kept_attempted = λ v h. h; kept_consumed = λ now v h. h }

abbrev IsWritten : VerificationRow → VerificationRow → Type 0
IsWritten r v =
    (v.code_hash ≡ r.code_hash)
    × (v.phone ≡ r.phone)
    × (v.customer_id ≡ r.customer_id)
    × (v.account_id ≡ r.account_id)

written : (r v : VerificationRow) → is_written r v ≡ true → IsWritten r v
written r v h = (
  (eq_iff v.code_hash r.code_hash).0 (ground (arith, h)),
  (eq_iff v.phone r.phone).0 (ground (arith, h)),
  (eq_iff v.customer_id r.customer_id).0 (ground (arith, h)),
  (eq_iff v.account_id r.account_id).0 (ground (arith, h)),
)

hash_code_inj :
    (hash : String → String)
    → ((a b : String) → hash a ≡ hash b → a ≡ b)
    → (id x y : String) → hash_code hash id x ≡ hash_code hash id y
    → x ≡ y
unfolding hash_code
hash_code_inj hash inj id x y h =
    append_cancel_left ":" x y (append_cancel_left id (":" ++ x) (":" ++ y) (inj _ _ h))

module _ {W : Type 0} where
  call-Gives :
      {A : Type 0} (f : Tables W → Result AliasError A × Tables W)
      → Gives (λ s a u. ((f s).0 ≡ ok a) × (u ≡ (f s).1)) (call f)
  unfolding call
  call-Gives f = record { holds = λ w h. (h, refl) }

  insert_ok :
      (v : VerificationRow) (t : Tables W) {x : Unit {0}}
      → (insert_verification v t).0 ≡ ok x
      → (find_verification v.id (insert_verification v t).1.verifications ≡ some v)
        × ((insert_verification v t).1.outside ≡ t.outside)
  unfolding insert_verification
  insert_ok v t h = elim (Bool-cases (is_some (find_verification v.id t.verifications))) [
    | inl e ↦ let z = rw e at h in absurd cc
    | inr e ↦ rw e (find_verification-new v t.verifications e, refl)
  ]

  sent_state :
      (r : Result {0, 0} String Unit × W) (t : Tables W)
      → ((sent r t).1.verifications ≡ t.verifications) × ((sent r t).1.outside ≡ r.1)
  unfolding sent
  sent_state (ok a, w) t = (refl, refl)
  sent_state (err e, w) t = (refl, refl)

  -- What a start that succeeds has written and sent: one code, of which the row keeps the hash.
  pub record IsStarted (send : Sender W) (hash : String → String) (id : String) (now : ℕ)
      (customer account : String) (s u : Tables W) (v : Verification) : Type 0 where
    pub number : ℕ
    pub row :
        find_verification id u.verifications
        ≡ some (new_verification hash now id customer account v.phone number)
    pub told : u.outside ≡ (send v.phone (six_digits number) s.outside).1

  start-Gives :
      (send : Sender W) (hash : String → String) (generated : Option ℕ) (id : String) (now : ℕ)
      (customer account input : String)
      → Gives
          (λ s v u. IsStarted send hash id now customer account s u v)
          (start_verification send hash generated id now customer account input)
  unfolding start_verification send_code
  start-Gives send hash generated id now customer account input =
      weaker-Gives _ _ _
        (bind-Gives _ _ _ _ (or_raise-Gives invalid_phone (normalize_phone input)) λ phone.
          bind-Gives _ _ _ _ (or_raise-Gives no_entropy generated) λ n.
            bind-Gives _ _ _ _
              (statement-Gives statement_failed
                (insert_verification (new_verification hash now id customer account phone n)))
              (λ _. bind-Gives _ _ _ _ (call-Gives _) (λ _. return-Gives _)))
        (λ s v u h.
          let (phone, t1, (e1, d1), h1) = h in
          let (n, t2, (e2, d2), h2) = h1 in
          let (x3, t3, (e3, d3), h3) = h2 in
          let (x4, t4, (e4, d4), (r, d5)) = h3 in
          let (found, same) = insert_ok _ t2 e3 in
          let (kept, told) = sent_state (send phone (six_digits n) t3.outside) t3 in
          let d = d5 ∙ d4 in
          let o = ap (λ t. t.outside) d3 ∙ same ∙ ap (λ t. t.outside) (d2 ∙ d1) in
          rw r (record {
            number = n;
            row =
                ap (λ t. find_verification id t.verifications) d
                ∙ ap (find_verification id) (kept ∙ ap (λ t. t.verifications) d3)
                ∙ found;
            told = ap (λ t. t.outside) d ∙ told ∙ ap (λ w. (send phone (six_digits n) w).1) o;
          }))

-- What the acceptance of a verification that was started says: the code is the one that the sender was
-- called with, for the number that was given and the customer who asked, and the number goes to the
-- account that was named then.
pub record IsFaithful {W : Type 0} (send : Sender W) (hash : String → String) (id : String)
    (customer account : String) (later : ℕ) (payer code phone : String) (v : Verification)
    (before started s u : Tables W) : Type 0 where
  pub code_sent : started.outside ≡ (send v.phone code before.outside).1
  pub same_phone : phone ≡ v.phone
  pub same_customer : payer ≡ customer
  pub accepted : IsVerified hash later customer id id code phone s u
  pub moved_to : IsMoved later customer account phone s.aliases u.aliases

some_row : {x y : VerificationRow} → some x ≡ some y → x ≡ y
some_row h = cc

some_key : {x y : String} → some x ≡ some y → x ≡ y
some_key h = cc

open_customer :
    (customer : String) (now : ℕ) (v : VerificationRow)
    → is_open customer now v ≡ true
    → v.customer_id ≡ customer
open_customer customer now v h = (eq_iff v.customer_id customer).0 (ground (arith, h))

started-IsFaithful :
    {W : Type 0} (send : Sender W) (hash : String → String)
    (inj : (a b : String) → hash a ≡ hash b → a ≡ b) (id : String) (now : ℕ)
    (customer account : String) (v : Verification) (before started : Tables W) (later : ℕ)
    (payer code phone : String) (s u : Tables W)
    → (k : IsStarted send hash id now customer account before started v)
    → (r : IsVerified hash later payer id id code phone s u)
    → IsWritten
        (new_verification hash now id customer account v.phone (IsStarted.number k))
        (IsVerified.row r)
    → IsFaithful send hash id customer account later payer code phone v before started s u
started-IsFaithful send hash inj id now customer account v before started later payer code phone s u
      k r w =
    let (h, p, c, a) = w in
    let same = hash_code_inj hash inj id code (six_digits k.number) (r.code_matches ∙ h) in
    let who = sym (open_customer payer later r.row r.row_open) ∙ c in
    record {
      code_sent = k.told ∙ ap (λ x. (send v.phone x before.outside).1) (sym same);
      same_phone = r.number ∙ p;
      same_customer = who;
      accepted = subst (λ q. IsVerified hash later q id id code phone s u) who r;
      moved_to =
          subst (λ q. IsMoved later q account phone s.aliases u.aliases) who
            (subst (λ q. IsMoved later payer q phone s.aliases u.aliases) a r.moved_to);
    }

-- If the hash has no collisions and an identifier spells itself, then a code that is accepted for a
-- verification that was started, whatever calls and failures of statements came in between, is the code
-- that was sent to its number; it is accepted from the customer who asked for it only, in time, unused
-- and with attempts left, and moves that number to the account that was named at the start.
pub accepted_code_was_sent :
    {W : Type 0} (send : Sender W) (hash : String → String) (parse : String → Option String)
    (generated : Option ℕ) (id : String) (now : ℕ) (customer account input : String)
    (w : Db (Tables W)) (cs : List (Call W)) (later : ℕ) (payer code : String) {v : Verification}
    {phone : String}
    → ((a b : String) → hash a ≡ hash b → a ≡ b)
    → parse id ≡ some id
    → (start_verification send hash generated id now customer account input w).0 ≡ ok v
    → (verify parse hash later payer id code
        (run cs (start_verification send hash generated id now customer account input w).1)).0
      ≡ ok phone
    → IsFaithful send hash id customer account later payer code phone v w.state
        (start_verification send hash generated id now customer account input w).1.state
        (run cs (start_verification send hash generated id now customer account input w).1).state
        (verify parse hash later payer id code (
          run cs
            (start_verification send hash generated id now customer account input w).1)).1.state
unfolding passes
accepted_code_was_sent send hash parse generated id now customer account input w cs later payer code
      {v} {phone} inj spelled e f =
    let k = Gives.holds (start-Gives send hash generated id now customer account input) w e in
    let first = new_verification hash now id customer account v.phone k.number in
    let (other, same, r0) = verify-IsVerified parse hash later payer id code _ f in
    let r =
      subst
        (λ i.
          IsVerified hash later payer i id code phone
            (run cs
              (start_verification send hash generated id now customer account input w).1).state
            (verify parse hash later payer id code (
              run cs
                (start_verification send hash generated id now customer account input
                  w).1)).1.state)
        (some_key (sym same ∙ spelled)) r0 in
    let begun : passes (is_written first) (
          find_verification id
            (start_verification send hash generated id now customer account input
              w).1.state.verifications)
        ≡ true =
      rw k.row (
        ground (
          arith,
          eq_refl first.code_hash,
          eq_refl first.phone,
          eq_refl customer,
          eq_refl account,
        )) in
    let kept =
      StaysKept.holds
        (run_stays (is_written first) (written-IsKept first) id cs
          (start_verification send hash generated id now customer account input w).1)
        begun in
    started-IsFaithful send hash inj id now customer account v _ _ later payer code phone _ _ k r
      (written first r.row (rw r.row_before at kept))
