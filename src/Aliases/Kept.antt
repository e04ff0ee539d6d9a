-- ===== src/Aliases/Kept.antt =====
-- What the calls on the directory keep of a verification.
use aerarium_agentic_banking.Common.{
  ℕ, ◌+◌, String, ◌≡◌, refl, ap, ◌∙◌, ◌==◌, Bool, true, false, Option, none, some, List, [], ◌∷◌,
  ◌++◌, arith, leb, Result, ok, err, Bool-cases, Option-cases, inl, inr,
}
use aerarium_agentic_banking.Common.Action.{
  Db, ◌>>◌, return, Keeps, return-Keeps, fail-Keeps, raise_if-Keeps, or_raise-Keeps, query-Keeps,
  exec-Keeps, statement-Keeps, call-Keeps, bind-Keeps, if-Keeps, transaction-Keeps,
}
use aerarium_agentic_banking.Aliases.Phone.{normalize_phone}
use aerarium_agentic_banking.Aliases.Service.{
  invalid_phone, no_entropy, verification_not_found, statement_failed, max_attempts, is_some,
  VerificationRow, Tables, find_verification, update_verification, AliasRow, has_other_phone,
  boundary, hash_code, attempted, consumed, Outcome, registered, rejected, Act, Sender,
  insert_verification, send_code, sent, start_verification, upsert_alias, register,
  register_verified, remove, reject, accept, compare_code, attempt, answer, verify,
}

unfoldable pub passes : (VerificationRow → Bool) → Option VerificationRow → Bool
passes test none = false
passes test (some v) = test v

find_verification-append :
    (id : String) (l m : List VerificationRow) {v : VerificationRow}
    → find_verification id l ≡ some v
    → find_verification id (l ++ m) ≡ some v
unfolding find_verification
find_verification-append id [] m e = absurd (ground arith)
find_verification-append id (x ∷ l) m e = elim (Bool-cases (x.id == id)) [
  | inl y ↦ let z = rw y at e in rw y z
  | inr y ↦ let z = rw y at e in rw y (find_verification-append id l m z)
]

find_verification-update_other :
    (test : VerificationRow → Bool) (id other : String) (f : VerificationRow → VerificationRow)
    → ((v : VerificationRow) → (f v).id ≡ v.id)
    → ((v : VerificationRow) → test v ≡ true → test (f v) ≡ true)
    → (l : List VerificationRow) → passes test (find_verification id l) ≡ true
    → passes test (find_verification id (update_verification other f l)) ≡ true
unfolding find_verification update_verification passes
find_verification-update_other test id other f k g [] e = e
find_verification-update_other test id other f k g (x ∷ l) e = elim (Bool-cases (x.id == id)) [
  | inl y ↦
      let z = rw y at e in
      elim (Bool-cases (x.id == other)) [
        | inl c ↦ rw (c, ap (λ i. i == id) (k x) ∙ y) (g x z)
        | inr c ↦ rw (c, y) z
      ]
  | inr y ↦
      let z = rw y at e in
      elim (Bool-cases (x.id == other)) [
        | inl c ↦
            rw (c, ap (λ i. i == id) (k x) ∙ y)
              (find_verification-update_other test id other f k g l z)
        | inr c ↦ rw (c, y) (find_verification-update_other test id other f k g l z)
      ]
]

-- A property of rows that an attempt and the use of a code leave.
pub record IsKept (test : VerificationRow → Bool) : Type 0 where
  pub kept_attempted : (v : VerificationRow) → test v ≡ true → test (attempted v) ≡ true
  pub kept_consumed : (now : ℕ) (v : VerificationRow) → test v ≡ true → test (consumed now v) ≡ true

module _ {W : Type 0} (test : VerificationRow → Bool) (K : IsKept test) (id : String) where
  open K use {kept_attempted, kept_consumed}

  -- What every step keeps: a verification with the property keeps it.
  pub record StaysKept (s u : Tables W) : Type 0 where
    pub holds :
        passes test (find_verification id s.verifications) ≡ true
        → passes test (find_verification id u.verifications) ≡ true

  stays : (s : Tables W) → StaysKept s s
  stays s = record { holds = λ e. e }

  stays_on : (s t u : Tables W) → StaysKept s t → StaysKept t u → StaysKept s u
  stays_on s t u a b = record { holds = λ e. b.holds (a.holds e) }

  same : (s u : Tables W) → u.verifications ≡ s.verifications → StaysKept s u
  same s u h = record { holds = λ e. rw h e }

  stays-insert : (v : VerificationRow) (s : Tables W) → StaysKept s (insert_verification v s).1
  unfolding insert_verification passes
  stays-insert v s = record {
    holds = λ e. elim (Bool-cases (is_some (find_verification v.id s.verifications))) [
      | inl c ↦ rw c e
      | inr c ↦ rw c (elim (Option-cases (find_verification id s.verifications)) [
        | inl n ↦ let z = rw n at e in absurd (ground arith)
        | inr (x, f) ↦
            let z = rw f at e in rw (find_verification-append id s.verifications (v ∷ []) f) z
      ])
    ];
  }

  stays-update :
      (other : String) (f : VerificationRow → VerificationRow) (s : Tables W)
      → ((v : VerificationRow) → (f v).id ≡ v.id)
      → ((v : VerificationRow) → test v ≡ true → test (f v) ≡ true)
      → StaysKept s (record s { verifications = update_verification other f s.verifications })
  stays-update other f s k g = record {
    holds = find_verification-update_other test id other f k g s.verifications;
  }

  sent_same :
      (r : Result {0, 0} String Unit × W) (t : Tables W)
      → (sent r t).1.verifications ≡ t.verifications
  unfolding sent
  sent_same (ok a, w) t = refl
  sent_same (err e, w) t = refl

  upsert_same : (a : AliasRow) (t : Tables W) → (upsert_alias a t).1.verifications ≡ t.verifications
  unfolding upsert_alias
  upsert_same a t = elim (Bool-cases (has_other_phone a.customer_id a.phone t.aliases)) [
    | inl e ↦ rw e refl
    | inr e ↦ rw e refl
  ]

  register-Keeps :
      (now : ℕ) (customer account phone : String)
      → Keeps StaysKept (register {W = W} now customer account phone)
  unfolding register
  register-Keeps now customer account phone =
      bind-Keeps _ stays_on (exec-Keeps _ stays statement_failed _ (λ s. same s _ refl))
        (λ _. statement-Keeps _ stays statement_failed _ (λ s. same s _ (upsert_same _ s)))

  boundary-Keeps : Keeps StaysKept (boundary {W = W})
  boundary-Keeps = exec-Keeps _ stays statement_failed _ stays

  reject-Keeps : (other : String) (v : VerificationRow) → Keeps StaysKept (reject {W = W} other v)
  unfolding reject
  reject-Keeps other v =
      bind-Keeps _ stays_on
        (exec-Keeps _ stays statement_failed _
          (λ s. stays-update other attempted s (λ x. refl) kept_attempted))
        (λ _. bind-Keeps _ stays_on boundary-Keeps (λ _. return-Keeps _ stays _))

  accept-Keeps :
      (now : ℕ) (customer other : String) (v : VerificationRow)
      → Keeps StaysKept (accept {W = W} now customer other v)
  unfolding accept
  accept-Keeps now customer other v =
      bind-Keeps _ stays_on
        (exec-Keeps _ stays statement_failed _
          (λ s. stays-update other (consumed now) s (λ x. refl) (kept_consumed now)))
        (λ _.
          bind-Keeps _ stays_on (register-Keeps now customer v.account_id v.phone)
            (λ _. bind-Keeps _ stays_on boundary-Keeps (λ _. return-Keeps _ stays _)))

  answer-Keeps : (o : Outcome) → Keeps StaysKept (answer {W = W} o)
  unfolding answer
  answer-Keeps (registered p) = return-Keeps _ stays p
  answer-Keeps (rejected n) =
      if-Keeps _ (leb max_attempts (n + 1)) (fail-Keeps _ stays _) (fail-Keeps _ stays _)

  verify-Keeps :
      (parse : String → Option String) (hash : String → String) (now : ℕ)
      (customer other code : String)
      → Keeps StaysKept (verify {W = W} parse hash now customer other code)
  unfolding verify attempt compare_code
  verify-Keeps parse hash now customer other code =
      bind-Keeps _ stays_on (or_raise-Keeps _ stays verification_not_found (parse other)) λ key.
        bind-Keeps _ stays_on
          (transaction-Keeps _ stays (
            bind-Keeps _ stays_on boundary-Keeps λ _.
              bind-Keeps _ stays_on (query-Keeps _ stays statement_failed _) λ found.
                bind-Keeps _ stays_on (or_raise-Keeps _ stays verification_not_found found) λ v.
                  bind-Keeps _ stays_on (raise_if-Keeps _ stays _ _) λ _.
                    if-Keeps _ (hash_code hash other code == v.code_hash)
                      (accept-Keeps now customer key v) (reject-Keeps key v)))
          answer-Keeps

  start-Keeps :
      (o : Sender W) (hash : String → String) (generated : Option ℕ) (fresh : String) (now : ℕ)
      (customer account input : String)
      → Keeps StaysKept (start_verification o hash generated fresh now customer account input)
  unfolding start_verification send_code
  start-Keeps o hash generated fresh now customer account input =
      bind-Keeps _ stays_on (or_raise-Keeps _ stays invalid_phone (normalize_phone input)) λ phone.
        bind-Keeps _ stays_on (or_raise-Keeps _ stays no_entropy generated) λ n.
          bind-Keeps _ stays_on (statement-Keeps _ stays statement_failed _ (stays-insert _)) (λ _.
            bind-Keeps _ stays_on (call-Keeps _ _ (λ s. same s _ (sent_same _ s)))
              (λ _. return-Keeps _ stays _))

  register_verified-Keeps :
      (now : ℕ) (customer account input : String)
      → Keeps StaysKept (register_verified {W = W} now customer account input)
  unfolding register_verified
  register_verified-Keeps now customer account input =
      bind-Keeps _ stays_on (or_raise-Keeps _ stays invalid_phone (normalize_phone input)) λ phone.
        bind-Keeps _ stays_on
          (transaction-Keeps _ stays (
            bind-Keeps _ stays_on
              (bind-Keeps _ stays_on boundary-Keeps
                (λ _. register-Keeps now customer account phone))
              (λ _. boundary-Keeps)))
          (λ _. return-Keeps _ stays phone)

  remove-Keeps : (customer : String) → Keeps StaysKept (remove {W = W} customer)
  unfolding remove
  remove-Keeps customer = exec-Keeps _ stays statement_failed _ (λ s. same s _ refl)

-- The calls that write, each with its answer left aside.
pub data Call (W : Type 0) : Type 0 where
  starting :
      Sender W → (String → String) → Option ℕ → String → ℕ → String → String → String → Call W
  verifying : (String → Option String) → (String → String) → ℕ → String → String → String → Call W
  registering : ℕ → String → String → String → Call W
  removing : String → Call W

module _ {W : Type 0} where
  unfoldable pub perform : Call W → Act W Unit
  perform (starting o hash generated id now customer account input) =
      start_verification o hash generated id now customer account input >> return tt
  perform (verifying parse hash now customer id code) =
      verify parse hash now customer id code >> return tt
  perform (registering now customer account input) =
      register_verified now customer account input >> return tt
  perform (removing customer) = remove customer

  unfoldable pub run : List (Call W) → Db (Tables W) → Db (Tables W)
  run [] w = w
  run (c ∷ cs) w = run cs (perform c w).1

module _ {W : Type 0} (test : VerificationRow → Bool) (K : IsKept test) (id : String) where
  perform-Keeps : (c : Call W) → Keeps (StaysKept test K id) (perform c)
  unfolding perform
  perform-Keeps (starting o hash generated fresh now customer account input) =
      bind-Keeps _ (stays_on test K id)
        (start-Keeps test K id o hash generated fresh now customer account input)
        (λ _. return-Keeps _ (stays test K id) _)
  perform-Keeps (verifying parse hash now customer other code) =
      bind-Keeps _ (stays_on test K id) (verify-Keeps test K id parse hash now customer other code)
        (λ _. return-Keeps _ (stays test K id) _)
  perform-Keeps (registering now customer account input) =
      bind-Keeps _ (stays_on test K id)
        (register_verified-Keeps test K id now customer account input)
        (λ _. return-Keeps _ (stays test K id) _)
  perform-Keeps (removing customer) = remove-Keeps test K id customer

  pub run_stays :
      (cs : List (Call W)) (w : Db (Tables W)) → StaysKept test K id w.state (run cs w).state
  unfolding run
  run_stays [] w = stays test K id w.state
  run_stays (c ∷ cs) w =
      stays_on test K id _ _ _ ((perform-Keeps c).holds w) (run_stays cs (perform c w).1)
