-- ===== src/Aliases/Spent.antt =====
-- A verification that is used up, whatever the directory goes through afterwards.
use aerarium_agentic_banking.Common.{
  ℕ, String, ◌≡◌, ◌≢◌, sym, ap, ◌∙◌, ◌||◌, Bool, true, false, Option, some, List, arith, leb, ok,
}
use aerarium_agentic_banking.Common.Action.{Db}
use aerarium_agentic_banking.Aliases.Service.{
  max_attempts, is_some, VerificationRow, Tables, find_verification, is_open, attempted, consumed,
  verify,
}
use aerarium_agentic_banking.Aliases.Moved.{verify-IsVerified}
use aerarium_agentic_banking.Aliases.Kept.{passes, IsKept, Call, run, StaysKept, run_stays}

-- A row with no attempts left, or used.
abbrev pub is_spent : VerificationRow → Bool
is_spent v = leb max_attempts v.attempts || is_some v.consumed_at

attempted_spent : (v : VerificationRow) → is_spent v ≡ true → is_spent (attempted v) ≡ true
attempted_spent v h = ground arith

consumed_spent :
    (now : ℕ) (v : VerificationRow) → is_spent v ≡ true → is_spent (consumed now v) ≡ true
consumed_spent now v h = ground arith

spent-IsKept : IsKept is_spent
spent-IsKept = record { kept_attempted = attempted_spent; kept_consumed = consumed_spent }

some_inj : {a b : String} → some a ≡ some b → a ≡ b
some_inj h = cc

spent_ne_open :
    (customer : String) (now : ℕ) (v : VerificationRow)
    → is_spent v ≡ true
    → leb max_attempts v.attempts ≡ false
    → is_open customer now v ≢ true
spent_ne_open customer now v s n o = absurd (ground (arith, s, n, o))

-- A verification whose attempts were used up, or that was accepted, accepts no code of anybody any more,
-- the right one included, whatever calls and failures of statements come in between, and however its
-- identifier is spelled.
pub spent_for_good :
    {W : Type 0} (key id : String) (cs : List (Call W)) (w : Db (Tables W))
    (parse : String → Option String) (hash : String → String) (now : ℕ) (customer code : String)
    {phone : String}
    → parse id ≡ some key
    → passes is_spent (find_verification key w.state.verifications) ≡ true
    → (verify parse hash now customer id code (run cs w)).0 ≢ ok phone
unfolding passes
spent_for_good key id cs w parse hash now customer code spelled h e =
    let (other, same, v) = verify-IsVerified parse hash now customer id code (run cs w) e in
    let k = StaysKept.holds (run_stays is_spent spent-IsKept key cs w) h in
    let found : find_verification key (run cs w).state.verifications ≡ some v.row =
      ap (λ i. find_verification i (run cs w).state.verifications) (some_inj (sym spelled ∙ same))
      ∙ v.row_before in
    spent_ne_open customer now v.row (ap (passes is_spent) (sym found) ∙ k) v.attempts_left
      v.row_open
