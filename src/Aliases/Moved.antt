-- ===== src/Aliases/Moved.antt =====
-- A number that is verified, and where the directory says it goes then.
use mathlib.Core.Path.{subst}
use aerarium_agentic_banking.Common.{
  ℕ, ◌+◌, String, ◌≡◌, ◌≢◌, refl, sym, ap, ◌∙◌, ◌==◌, ◌&&◌, Bool, true, false, not, Option, none,
  some, List, [], ◌∷◌, arith, eq_iff, eq_refl, eq_false_of_ne, leb, if◌then◌else◌, Result, ok, err,
  Bool-cases, inl, inr,
}
use aerarium_agentic_banking.Common.Action.{Db, fail}
use aerarium_agentic_banking.Common.Outcome.{
  Gives, bind-Gives, query-Gives, exec-Gives, raise_if-Gives, or_raise-Gives, statement-Gives,
  return-Gives, transaction-Gives, weaker-Gives,
}
use aerarium_agentic_banking.Aliases.Service.{
  AliasError, verification_not_found, too_many_attempts, statement_failed, max_attempts,
  VerificationRow, AliasRow, Tables, find_verification, update_verification, is_open, open_or_none,
  consumed, find_phone, delete_others, has_other_phone, upsert, hash_code, Outcome, registered,
  rejected, Act, upsert_alias, register, reject, accept, compare_code, attempt, answer, verify,
}

find_phone-delete :
    (q customer phone : String) (l : List AliasRow) {a : AliasRow}
    → find_phone q l ≡ some a
    → (a.customer_id == customer) ≡ false
    → find_phone q (delete_others customer phone l) ≡ some a
unfolding find_phone delete_others
find_phone-delete q customer phone [] e n = absurd (ground arith)
find_phone-delete q customer phone (x ∷ l) {a} e n = elim (Bool-cases (x.phone == q)) [
  | inl y ↦
      let z = rw y at e in
      let d : (x.customer_id == customer) ≡ false = ap (λ o. owned_by o) z ∙ n in rw (d, y) z
  | inr y ↦
      let z = rw y at e in
      elim (Bool-cases ((x.customer_id == customer) && not (x.phone == phone))) [
        | inl c ↦ rw c (find_phone-delete q customer phone l z n)
        | inr c ↦ rw (c, y) (find_phone-delete q customer phone l z n)
      ]
]
  where
    owned_by : Option AliasRow → Bool
    owned_by none = false
    owned_by (some r) = r.customer_id == customer

find_phone-upsert : (a : AliasRow) (l : List AliasRow) → find_phone a.phone (upsert a l) ≡ some a
unfolding find_phone upsert
find_phone-upsert a [] = rw eq_refl refl
find_phone-upsert a (x ∷ l) = elim (Bool-cases (x.phone == a.phone)) [
  | inl y ↦ rw (y, eq_refl) refl
  | inr y ↦ rw (y, y) (find_phone-upsert a l)
]

find_phone-upsert_other :
    (q : String) (a : AliasRow) (l : List AliasRow)
    → (a.phone == q) ≡ false
    → find_phone q (upsert a l) ≡ find_phone q l
unfolding find_phone upsert
find_phone-upsert_other q a [] n = rw n refl
find_phone-upsert_other q a (x ∷ l) n = elim (Bool-cases (x.phone == a.phone)) [
  | inl y ↦
      let d : (x.phone == q) ≡ false = ap (λ p. p == q) ((eq_iff x.phone a.phone).0 y) ∙ n in
      rw (y, n, d) refl
  | inr y ↦ rw (y, find_phone-upsert_other q a l n) refl
]

has_other-upsert :
    (a : AliasRow) (l : List AliasRow)
    → has_other_phone a.customer_id a.phone l ≡ false
    → has_other_phone a.customer_id a.phone (upsert a l) ≡ false
unfolding has_other_phone upsert
has_other-upsert a [] n = rw (eq_refl, eq_refl) refl
has_other-upsert a (x ∷ l) n = elim (Bool-cases (x.phone == a.phone)) [
  | inl y ↦ let z = rw y at n in rw (y, eq_refl) (ground (arith, z, eq_refl a.phone))
  | inr y ↦ rw y (ground (arith, n, has_other-upsert a l))
]

pub find_verification-update :
    (id : String) (f : VerificationRow → VerificationRow)
    → ((v : VerificationRow) → (f v).id ≡ v.id)
    → (l : List VerificationRow) {v : VerificationRow} → find_verification id l ≡ some v
    → find_verification id (update_verification id f l) ≡ some (f v)
unfolding find_verification update_verification
find_verification-update id f k [] h = absurd (ground arith)
find_verification-update id f k (x ∷ l) h = elim (Bool-cases (x.id == id)) [
  | inl e ↦ let z = rw e at h in rw (e, ap (λ c. c == id) (k x) ∙ e) cc
  | inr e ↦ let z = rw e at h in rw (e, e) (find_verification-update id f k l z)
]

-- The directory after a number goes to a customer's account: the number is found there, the customer
-- has no other, and the numbers of the other customers are where they were.
pub record IsMoved (now : ℕ) (customer account phone : String) (s u : List AliasRow) : Type 0 where
  pub found :
      find_phone phone u
      ≡ some (record {
        phone = phone;
        customer_id = customer;
        account_id = account;
        verified_at = now;
      })
  pub only : has_other_phone customer phone u ≡ false
  pub others :
      (q : String) (a : AliasRow)
      → phone ≢ q
      → find_phone q s ≡ some a
      → (a.customer_id == customer) ≡ false
      → find_phone q u ≡ some a

moved :
    (now : ℕ) (customer account phone : String) (s : List AliasRow)
    → has_other_phone customer phone (delete_others customer phone s) ≡ false
    → IsMoved now customer account phone s (
        upsert
          (record {
            phone = phone;
            customer_id = customer;
            account_id = account;
            verified_at = now;
          })
          (delete_others customer phone s))
moved now customer account phone s h =
    let a : AliasRow = record {
      phone = phone;
      customer_id = customer;
      account_id = account;
      verified_at = now;
    } in
    record {
      found = find_phone-upsert a (delete_others customer phone s);
      only = has_other-upsert a (delete_others customer phone s) h;
      others = λ q b n e c.
          find_phone-upsert_other q a (delete_others customer phone s) (eq_false_of_ne phone q n)
          ∙ find_phone-delete q customer phone s e c;
    }

-- What a verification that is accepted says of its row and of the directory.
pub record IsVerified {W : Type 0} (hash : String → String) (now : ℕ)
    (customer key id code phone : String) (s u : Tables W) : Type 0 where
  pub row : VerificationRow
  pub row_before : find_verification key s.verifications ≡ some row
  pub row_open : is_open customer now row ≡ true
  pub attempts_left : leb max_attempts row.attempts ≡ false
  pub code_matches : hash_code hash id code ≡ row.code_hash
  pub number : phone ≡ row.phone
  pub row_after : find_verification key u.verifications ≡ some (consumed now row)
  pub moved_to : IsMoved now customer row.account_id phone s.aliases u.aliases

open_row :
    (customer : String) (now : ℕ) (o : Option VerificationRow) {v : VerificationRow}
    → open_or_none customer now o ≡ some v
    → (o ≡ some v) × (is_open customer now v ≡ true)
unfolding open_or_none
open_row customer now none h = absurd (ground arith)
open_row customer now (some v) h = elim (Bool-cases (is_open customer now v)) [
  | inl e ↦ let z = rw e at h in (z, ap (λ o. opened o) (sym z) ∙ e)
  | inr e ↦ let z = rw e at h in absurd (ground arith)
]
  where
    opened : Option VerificationRow → Bool
    opened none = true
    opened (some r) = is_open customer now r

rejected_ne_registered : {n : ℕ} {p : String} → rejected n ≢ registered p
rejected_ne_registered h = cc

registered_inj : {p q : String} → registered p ≡ registered q → p ≡ q
registered_inj h = cc

err_ne_ok : {A : Type 0} {e : AliasError} {a : A} → ◌≢◌ {A = Result AliasError A} (err e) (ok a)
err_ne_ok h = cc

module _ {W : Type 0} where
  upsert_ok :
      (a : AliasRow) (t : Tables W) {x : Unit {0}}
      → (upsert_alias a t).0 ≡ ok x
      → (has_other_phone a.customer_id a.phone t.aliases ≡ false)
        × ((upsert_alias a t).1 ≡ record t { aliases = upsert a t.aliases })
  unfolding upsert_alias
  upsert_ok a t h = elim (Bool-cases (has_other_phone a.customer_id a.phone t.aliases)) [
    | inl e ↦ let z = rw e at h in absurd cc
    | inr e ↦ rw e (refl, refl)
  ]

  register-Gives :
      (now : ℕ) (customer account phone : String)
      → Gives
          (λ s a (u : Tables W).
            (u.verifications ≡ s.verifications)
            × IsMoved now customer account phone s.aliases u.aliases)
          (register now customer account phone)
  unfolding register
  register-Gives now customer account phone =
      weaker-Gives _ _ _
        (bind-Gives _ _ _ _ (exec-Gives statement_failed _)
          (λ _. statement-Gives statement_failed _))
        (λ s a u h.
          let (x, t, e, (r, f)) = h in
          let (n, g) = upsert_ok _ t r in
          (
            ap (λ v. v.verifications) (f ∙ g) ∙ ap (λ v. v.verifications) e,
            let n1 = ap (λ v. has_other_phone customer phone v.aliases) (sym e) ∙ n in
                let d = ap (λ v. v.aliases) (f ∙ g) in
                let d1 = ap (λ v. v.aliases) e in
                rw (d, d1) (moved now customer account phone s.aliases n1),
          ))

  -- What the end of a transaction that accepts says.
  abbrev Accepts :
      (String → String)
      → ℕ
      → String
      → String
      → String
      → String
      → Tables W
      → Outcome
      → Tables W
      → Type 0
  Accepts hash now customer key id code s o u =
      (phone : String) → o ≡ registered phone → IsVerified hash now customer key id code phone s u

  accept-Gives :
      (now : ℕ) (customer id : String) (v : VerificationRow)
      → Gives
          (λ s o (u : Tables W).
            (o ≡ registered v.phone)
            × (u.verifications ≡ update_verification id (consumed now) s.verifications)
            × IsMoved now customer v.account_id v.phone s.aliases u.aliases)
          (accept now customer id v)
  unfolding accept
  accept-Gives now customer id v =
      weaker-Gives _ _ _
        (bind-Gives _ _ _ _ (exec-Gives statement_failed _) λ _.
          bind-Gives _ _ _ _ (register-Gives now customer v.account_id v.phone) λ _.
            bind-Gives _ _ _ _ (exec-Gives statement_failed _)
              (λ _. return-Gives (registered v.phone)))
        (λ s o u h.
          let (x1, t3, e1, h1) = h in
          let (x2, t2, (e2, m), h2) = h1 in
          let (x3, t1, e3, (r, e4)) = h2 in
          let d : u ≡ t2 = e4 ∙ e3 in
          let a : t3.aliases ≡ s.aliases = ap (λ t. t.aliases) e1 in
          (
            r,
            ap (λ t. t.verifications) d ∙ e2 ∙ ap (λ t. t.verifications) e1,
            rw (ap (λ t. t.aliases) d) (subst (λ l. IsMoved now customer _ _ l t2.aliases) a m),
          ))

  reject-Gives :
      (id : String) (v : VerificationRow)
      → Gives (λ s o (u : Tables W). o ≡ rejected v.attempts) (reject id v)
  unfolding reject
  reject-Gives id v =
      weaker-Gives _ _ _
        (bind-Gives _ _ _ _ (exec-Gives statement_failed _) λ _.
          bind-Gives _ _ _ _ (exec-Gives statement_failed _)
            (λ _. return-Gives (rejected v.attempts)))
        (λ s o u h. let (x1, t1, e1, h1) = h in let (x2, t2, e2, (r, e)) = h1 in r)

  compare-Gives :
      (hash : String → String) (now : ℕ) (customer key id code : String) (v : VerificationRow)
      → Gives
          (λ s o (u : Tables W).
            (p : String)
            → o ≡ registered p
            → (hash_code hash id code ≡ v.code_hash)
              × (p ≡ v.phone)
              × (u.verifications ≡ update_verification key (consumed now) s.verifications)
              × IsMoved now customer v.account_id v.phone s.aliases u.aliases)
          (compare_code hash now customer key id code v)
  unfolding compare_code
  compare-Gives hash now customer key id code v =
      elim (Bool-cases (hash_code hash id code == v.code_hash)) [
        | inl e ↦ rw e (
            weaker-Gives _ _ _ (accept-Gives now customer key v) (λ s o u h p f.
              let (r, d, m) = h in
              (
                (eq_iff (hash_code hash id code) v.code_hash).0 e,
                registered_inj (sym f ∙ r),
                d,
                m,
              )))
        | inr e ↦ rw e (
            weaker-Gives _ _ _ (reject-Gives key v)
              (λ s o u h p f. absurd (rejected_ne_registered (sym h ∙ f))))
      ]

  attempt-Gives :
      (hash : String → String) (now : ℕ) (customer key id code : String)
      → Gives (Accepts hash now customer key id code) (attempt hash now customer key id code)
  unfolding attempt
  attempt-Gives hash now customer key id code =
      weaker-Gives _ _ _
        (bind-Gives _ _ _ _ (exec-Gives statement_failed _) λ _.
          bind-Gives _ _ _ _ (query-Gives statement_failed _) λ found.
            bind-Gives _ _ _ _ (or_raise-Gives verification_not_found found) λ v.
              bind-Gives _ _ _ _ (raise_if-Gives (leb max_attempts v.attempts) too_many_attempts)
                (λ _. compare-Gives hash now customer key id code v))
        (λ s o u h p f.
          let (x1, t1, e1, h1) = h in
          let (found, t2, (ef, e2), h2) = h1 in
          let (v, t3, (eo, e3), h3) = h2 in
          let (x4, t4, (n, e4), h4) = h3 in
          let (c, r, d, m) = h4 p f in
          let b : t4 ≡ s = e4 ∙ e3 ∙ e2 ∙ e1 in
          let (y, z) = open_row customer now _ (sym ef ∙ eo) in
          let y1 = ap (λ t. find_verification key t.verifications) (sym e1) ∙ y in
          record {
            row = v;
            row_before = y1;
            row_open = z;
            attempts_left = n;
            code_matches = c;
            number = r;
            row_after =
                ap (find_verification key)
                  (d ∙ ap (λ t. update_verification key (consumed now) t.verifications) b)
                ∙ find_verification-update key (consumed now) (λ x. refl) s.verifications y1;
            moved_to =
                subst (λ q. IsMoved now customer v.account_id q s.aliases u.aliases) (sym r)
                  (subst (λ l. IsMoved now customer v.account_id v.phone l u.aliases)
                    (ap (λ t. t.aliases) b) m);
          })

  fail-Gives :
      {A : Type 0} {P : Tables W → A → Tables W → Type 0} (e : AliasError) → Gives P (fail e)
  unfolding fail
  fail-Gives e = record { holds = λ w h. absurd (err_ne_ok h) }

  if-Gives :
      {A : Type 0} {P : Tables W → A → Tables W → Type 0} (b : Bool) {m k : Act W A}
      → Gives P m
      → Gives P k
      → Gives P (if b then m else k)
  if-Gives true h k = h
  if-Gives false h k = k

  answer-Gives :
      (o : Outcome) → Gives (λ s a (u : Tables W). (o ≡ registered a) × (u ≡ s)) (answer o)
  unfolding answer
  answer-Gives (registered p) =
      weaker-Gives _ _ _ (return-Gives p) (λ s a u h. let (x, y) = h in (ap registered (sym x), y))
  answer-Gives (rejected n) = if-Gives (leb max_attempts (n + 1)) (fail-Gives _) (fail-Gives _)

  verify-Gives :
      (parse : String → Option String) (hash : String → String) (now : ℕ)
      (customer id code : String)
      → Gives
          (λ s a u.
            (key : String) × (parse id ≡ some key)
            × IsVerified {W = W} hash now customer key id code a s u)
          (verify parse hash now customer id code)
  unfolding verify
  verify-Gives parse hash now customer id code =
      weaker-Gives _ _ _
        (bind-Gives _ _ _ _ (or_raise-Gives verification_not_found (parse id)) λ key.
          bind-Gives _ _ _ _ (transaction-Gives _ _ (attempt-Gives hash now customer key id code))
            answer-Gives)
        (λ s a u h.
          let (key, t1, (n, e1), h1) = h in
          let (o, t2, k, (r, e2)) = h1 in
          let z = k a r in
          (
            key,
            n,
            subst (λ t. IsVerified hash now customer key id code a t u) e1
                (subst (λ t. IsVerified hash now customer key id code a t1 t) (sym e2) z),
          ))

-- A code that is accepted hashes, with the identifier, to what the customer's verification keeps. The
-- verification was in time, not used before and had attempts left, and is used up then; its number goes
-- to the customer's account, away from whoever had it and in place of the one that the customer had,
-- and no other customer's moves.
pub verify-IsVerified :
    {W : Type 0} (parse : String → Option String) (hash : String → String) (now : ℕ)
    (customer id code : String) (w : Db (Tables W)) {phone : String}
    → (verify parse hash now customer id code w).0 ≡ ok phone
    → (key : String) × (parse id ≡ some key)
      × IsVerified hash now customer key id code phone w.state
          (verify parse hash now customer id code w).1.state
verify-IsVerified parse hash now customer id code w h =
    Gives.holds (verify-Gives parse hash now customer id code) w h
