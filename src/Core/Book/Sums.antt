-- ===== src/Core/Book/Sums.antt =====
-- Sums over entries and postings: what they do to one account, and to a currency as a whole.
use aerarium_agentic_banking.Common.{
  eq_refl, eq_false_of_ne, sym, Bool-cases, inl, inr, ◌≢◌, String, ◌≡◌, ◌&&◌, List, [], ◌∷◌, ◌==◌,
  if◌then◌else◌,
}
use aerarium_agentic_banking.Common.Int.{ℤ, pos, ◌+ℤ◌, ◌-ℤ◌, int_laws}
use aerarium_agentic_banking.Core.Entry.{
  Direction, direction_debit, direction_credit, Entry, debit, credit,
}

pub record Posting : Type 0 where
  pub key : String
  pub kind : String
  pub entries : List Entry

abbrev pub posting : String → String → List Entry → Posting
posting key kind entries = record { key = key; kind = kind; entries = entries }

abbrev signed_by : Direction → ℤ → ℤ
signed_by direction_credit x = x
signed_by direction_debit x = pos 0 -ℤ x

-- A credit counts as it is, a debit negated.
abbrev pub signed : Entry → ℤ
signed e = signed_by e.direction e.amount_micros

-- Credits less debits of an account in a currency.
abbrev pub effect : String → String → List Entry → ℤ
effect a c [] = pos 0
effect a c (e ∷ es) =
    (if e.account_id == a && e.currency == c then signed e else pos 0) +ℤ effect a c es

-- Credits less debits in a currency, over all accounts.
abbrev pub net : String → List Entry → ℤ
net c [] = pos 0
net c (e ∷ es) = (if e.currency == c then signed e else pos 0) +ℤ net c es

-- The balance of an account over a book, and the trial balance of a currency.
abbrev pub balance : String → String → List Posting → ℤ
balance a c [] = pos 0
balance a c (p ∷ b) = effect a c p.entries +ℤ balance a c b

abbrev pub trial : String → List Posting → ℤ
trial c [] = pos 0
trial c (p ∷ b) = net c p.entries +ℤ trial c b

-- Debits equal credits in every currency: of one posting, and of the whole book.
abbrev pub IsBalanced : List Entry → Type 0
IsBalanced es = (c : String) → net c es ≡ pos 0

abbrev pub IsSound : List Posting → Type 0
IsSound b = (c : String) → trial c b ≡ pos 0

pub IsSound-cons :
    (p : Posting) (b : List Posting) → IsBalanced p.entries → IsSound b → IsSound (p ∷ b)
IsSound-cons p b h s c = rw (h c, s c) (omega int_laws)

-- One account debited and another credited by the same amount.
pub transfer-IsBalanced :
    (a b : String) (x : ℤ) (cur : String) → IsBalanced (debit a x cur ∷ credit b x cur ∷ [])
transfer-IsBalanced a b x cur c = elim (Bool-cases (cur == c)) [
  | inl e ↦ rw e (omega int_laws)
  | inr e ↦ rw e (omega int_laws)
]

module _ (a b : String) (x : ℤ) (cur : String) (ne : a ≢ b) where
  pub effect-transfer_from : effect a cur (debit a x cur ∷ credit b x cur ∷ []) ≡ pos 0 -ℤ x
  effect-transfer_from =
      rw (eq_refl a, eq_refl cur, eq_false_of_ne b a (λ e. ne (sym e))) (omega int_laws)

  pub effect-transfer_to : effect b cur (debit a x cur ∷ credit b x cur ∷ []) ≡ x
  effect-transfer_to = rw (eq_refl b, eq_refl cur, eq_false_of_ne a b ne) (omega int_laws)

  pub effect-transfer_other :
      (t : String) → a ≢ t → b ≢ t → effect t cur (debit a x cur ∷ credit b x cur ∷ []) ≡ pos 0
  effect-transfer_other t at bt = rw (eq_false_of_ne a t at, eq_false_of_ne b t bt) (omega int_laws)
