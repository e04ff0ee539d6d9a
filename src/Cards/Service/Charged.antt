-- ===== src/Cards/Service/Charged.antt =====
-- The balances behind a clearing.
use aerarium_agentic_banking.Common.{
  String, ◌≡◌, refl, sym, inl, inr, ◌≢◌, true, false, some, none, List, [], ◌∷◌, ◌∙◌, if◌then◌else◌,
  ok, Bool-cases, lookup, eq_refl, eq_false_of_ne,
}
use aerarium_agentic_banking.Common.Int.{ℤ, pos, ◌+ℤ◌, ◌-ℤ◌, ltb_ℤ, wrap64, int_laws}
use aerarium_agentic_banking.Core.Entry.{Entry, debit, credit}
use aerarium_agentic_banking.Core.Client.{Core}
use aerarium_agentic_banking.Core.Book.{Posting, find, effect, balance, IsLedger}
use aerarium_agentic_banking.Cards.Port.{CardDirectory, ClearingNotification}
use aerarium_agentic_banking.Cards.Store.{status_held, Row, Authorization, Table, scan}
use aerarium_agentic_banking.Cards.Service.{
  Accounts, ClearingResult, clear_key, clearing_entries, clear,
}
use aerarium_agentic_banking.Cards.Service.Sound.{IsAmount, wrap64-sub, ltb_ℤ-both_false}
use aerarium_agentic_banking.Cards.Service.Clearing.{clearing_posting, Cleared, clear-Cleared}

-- Credits less debits of the four accounts of a purchase, in its currency.
pub record Stands : Type 0 where
  pub customer : ℤ
  pub hold : ℤ
  pub settlement : ℤ
  pub overage : ℤ

-- The authorized amount leaves the hold, the final amount goes to the network, and the difference
-- is the customer's, or the bank's as far as it was advanced.
abbrev pub Charged : ℤ → ℤ → ℤ → Stands → Stands → Type 0
Charged authorized final advanced b a =
    (a.hold ≡ b.hold -ℤ authorized)
    × (a.settlement ≡ b.settlement +ℤ final)
    × (a.customer ≡ b.customer +ℤ (authorized -ℤ final +ℤ advanced))
    × (a.overage ≡ b.overage -ℤ advanced)

module _ (h s c : String) (x f : ℤ) (es : List Entry) where
  head_hold : s ≢ h → effect h c (debit h x c ∷ credit s f c ∷ es) ≡ (pos 0 -ℤ x) +ℤ effect h c es
  head_hold n = rw (eq_refl c, eq_refl h, eq_false_of_ne s h n) (omega int_laws)

  head_settlement : h ≢ s → effect s c (debit h x c ∷ credit s f c ∷ es) ≡ f +ℤ effect s c es
  head_settlement n = rw (eq_refl c, eq_refl s, eq_false_of_ne h s n) (omega int_laws)

  head_other :
      (k : String) → h ≢ k → s ≢ k → effect k c (debit h x c ∷ credit s f c ∷ es) ≡ effect k c es
  head_other k n m = rw (eq_false_of_ne h k n, eq_false_of_ne s k m) (omega int_laws)

-- The third entry of a clearing.
abbrev difference : String → String → String → ℤ → ℤ → ℤ → List Entry
difference customer payer c x f over =
    if ltb_ℤ f x
    then credit customer (if ltb_ℤ f x then wrap64 (x -ℤ f) else pos 0) c ∷ []
    else if ltb_ℤ x f
    then debit payer over c ∷ []
    else []

abbrev excess : ℤ → ℤ → ℤ
excess x f = if ltb_ℤ f x then pos 0 else if ltb_ℤ x f then wrap64 (f -ℤ x) else pos 0

difference_other :
    (customer payer c k : String) (x f : ℤ)
    → customer ≢ k
    → payer ≢ k
    → effect k c (difference customer payer c x f (excess x f)) ≡ pos 0
difference_other customer payer c k x f n m = elim (Bool-cases (ltb_ℤ f x)) [
  | inl less ↦ rw (less, eq_false_of_ne customer k n) (omega int_laws)
  | inr not_less ↦ elim (Bool-cases (ltb_ℤ x f)) [
    | inl more ↦ rw (not_less, more, eq_false_of_ne payer k m) (omega int_laws)
    | inr same ↦ rw (not_less, same) refl
  ]
]

module _ (customer c : String) (x f : ℤ) (p : IsAmount x) (q : IsAmount f) where
  difference_customer : effect customer c (difference customer customer c x f (excess x f)) ≡ x -ℤ f
  difference_customer = elim (Bool-cases (ltb_ℤ f x)) [
    | inl less ↦ rw (less, eq_refl customer, eq_refl c, wrap64-sub x f p q) (omega int_laws)
    | inr not_less ↦ elim (Bool-cases (ltb_ℤ x f)) [
      | inl more ↦
          rw (not_less, more, eq_refl customer, eq_refl c, wrap64-sub f x q p) (omega int_laws)
      | inr same ↦ rw (not_less, same, ltb_ℤ-both_false f x not_less same) (omega int_laws)
    ]
  ]

  module _ (payer : String) (over : ltb_ℤ (pos 0) (excess x f) ≡ true) (n : payer ≢ customer) where
    excess_more : (ltb_ℤ f x ≡ false) × (ltb_ℤ x f ≡ true)
    excess_more = elim (Bool-cases (ltb_ℤ f x)) [
      | inl less ↦ let z = rw less at over in cc
      | inr not_less ↦ elim (Bool-cases (ltb_ℤ x f)) [
        | inl more ↦ (not_less, more)
        | inr same ↦ let z = rw (not_less, same) at over in cc
      ]
    ]

    excess_exact : excess x f ≡ f -ℤ x
    excess_exact = rw (excess_more.0, excess_more.1) (wrap64-sub f x q p)

    difference_advanced : effect customer c (difference customer payer c x f (excess x f)) ≡ pos 0
    difference_advanced =
        rw (excess_more.0, excess_more.1, eq_false_of_ne payer customer n) (omega int_laws)

    difference_payer :
        effect payer c (difference customer payer c x f (excess x f)) ≡ pos 0 -ℤ (f -ℤ x)
    difference_payer =
        rw (excess_more.0, excess_more.1, eq_refl payer, eq_refl c, wrap64-sub f x q p)
          (omega int_laws)

module _ (C : Core) (directory : CardDirectory) (accounts : Accounts) (network : String) where
  open accounts use {auth_hold_id, settlement_id, overage_id}

  abbrev pub stands : Authorization → List Posting → Stands
  stands a b = record {
    customer = balance a.account_id a.currency b;
    hold = balance auth_hold_id a.currency b;
    settlement = balance settlement_id a.currency b;
    overage = balance overage_id a.currency b;
  }

  -- The four accounts are four.
  pub record AreDistinct (account_id : String) : Type 0 where
    pub customer_ne_hold : account_id ≢ auth_hold_id
    pub customer_ne_settlement : account_id ≢ settlement_id
    pub customer_ne_overage : account_id ≢ overage_id
    pub hold_ne_settlement : auth_hold_id ≢ settlement_id
    pub hold_ne_overage : auth_hold_id ≢ overage_id
    pub settlement_ne_overage : settlement_id ≢ overage_id

  module _ (n : ClearingNotification) (a : Authorization) (p : IsAmount a.amount_micros)
      (q : IsAmount n.final_amount_micros) (d : AreDistinct a.account_id) where
    open d use {
      customer_ne_hold, customer_ne_settlement, customer_ne_overage, hold_ne_settlement,
      hold_ne_overage, settlement_ne_overage,
    }

    -- The third entry, as a list.
    abbrev third : String → List Entry
    third payer =
        difference a.account_id payer a.currency a.amount_micros n.final_amount_micros
          (excess a.amount_micros n.final_amount_micros)

    hold_moves :
        (payer : String)
        → payer ≢ auth_hold_id
        → effect auth_hold_id a.currency
            (clearing_entries C directory accounts network payer a n.final_amount_micros)
          ≡ pos 0 -ℤ a.amount_micros
    hold_moves payer m =
        head_hold auth_hold_id settlement_id a.currency a.amount_micros n.final_amount_micros
          (third payer) (λ e. hold_ne_settlement (sym e))
        ∙ rw
            (difference_other a.account_id payer a.currency auth_hold_id a.amount_micros
              n.final_amount_micros customer_ne_hold m)
            (omega int_laws)

    settlement_moves :
        (payer : String)
        → payer ≢ settlement_id
        → effect settlement_id a.currency
            (clearing_entries C directory accounts network payer a n.final_amount_micros)
          ≡ n.final_amount_micros
    settlement_moves payer m =
        head_settlement auth_hold_id settlement_id a.currency a.amount_micros n.final_amount_micros
          (third payer) hold_ne_settlement
        ∙ rw
            (difference_other a.account_id payer a.currency settlement_id a.amount_micros
              n.final_amount_micros customer_ne_settlement m)
            (omega int_laws)

    other_moves :
        (payer k : String)
        → auth_hold_id ≢ k
        → settlement_id ≢ k
        → effect k a.currency
            (clearing_entries C directory accounts network payer a n.final_amount_micros)
          ≡ effect k a.currency (third payer)
    other_moves payer k m l =
        head_other auth_hold_id settlement_id a.currency a.amount_micros n.final_amount_micros
          (third payer) k m l

    customer_pays :
        (b : List Posting)
        → Charged a.amount_micros n.final_amount_micros
            (pos 0)
            (stands a b)
            (stands a (clearing_posting C directory accounts network n a.account_id a ∷ b))
    customer_pays b = (
      rw (hold_moves a.account_id customer_ne_hold) (omega int_laws),
      rw (settlement_moves a.account_id customer_ne_settlement) (omega int_laws),
      rw
          (other_moves a.account_id a.account_id (λ e. customer_ne_hold (sym e))
              (λ e. customer_ne_settlement (sym e))
            ∙ difference_customer a.account_id a.currency a.amount_micros n.final_amount_micros p q)
          (omega int_laws),
      rw
          (other_moves a.account_id overage_id hold_ne_overage settlement_ne_overage
            ∙ difference_other a.account_id a.account_id a.currency overage_id a.amount_micros
                n.final_amount_micros customer_ne_overage customer_ne_overage)
          (omega int_laws),
    )

    bank_advances :
        (b : List Posting)
        → ltb_ℤ (pos 0) (excess a.amount_micros n.final_amount_micros) ≡ true
        → Charged a.amount_micros n.final_amount_micros
            (excess a.amount_micros n.final_amount_micros)
            (stands a b)
            (stands a (clearing_posting C directory accounts network n overage_id a ∷ b))
    bank_advances b over =
        let exact =
          excess_exact a.account_id a.currency a.amount_micros n.final_amount_micros p q overage_id
            over (λ e. customer_ne_overage (sym e)) in
        (
          rw (hold_moves overage_id (λ e. hold_ne_overage (sym e))) (omega int_laws),
          rw (settlement_moves overage_id (λ e. settlement_ne_overage (sym e))) (omega int_laws),
          rw
              (
                other_moves overage_id a.account_id (λ e. customer_ne_hold (sym e))
                      (λ e. customer_ne_settlement (sym e))
                    ∙ difference_advanced a.account_id a.currency a.amount_micros
                        n.final_amount_micros p q overage_id over
                        (λ e. customer_ne_overage (sym e)),
                exact,
              )
              (omega int_laws),
          rw
              (
                other_moves overage_id overage_id hold_ne_overage settlement_ne_overage
                    ∙ difference_payer a.account_id a.currency a.amount_micros n.final_amount_micros
                        p q overage_id over (λ e. customer_ne_overage (sym e)),
                exact,
              )
              (omega int_laws),
        )

    Cleared-Charged :
        (b b' : List Posting) (o : ClearingResult)
        → Cleared C directory accounts network n a b (ok o) b'
        → Charged a.amount_micros n.final_amount_micros o.overage_micros (stands a b) (stands a b')
    Cleared-Charged b b' o (inl (none_over, made)) = rw (none_over, made) (customer_pays b)
    Cleared-Charged b b' o (inr (over, positive, made)) =
        rw (over, made) (bank_advances b (rw over at positive))

  -- A clearing of a held authorization under a new key, with amounts that are positive and of 64
  -- bits and four distinct accounts, when it returns a result: the authorized amount has left the
  -- hold, the final amount is the network's, the bank has advanced what the result says, and the
  -- customer has paid, beyond the hold or back from it, the rest.
  pub clear-Charged :
      (L : IsLedger C) (n : ClearingNotification) (c : Core.State C) (t : Table) (row : Row)
      {o : ClearingResult}
      → lookup n.network_transaction_id t.rows ≡ some row
      → row.status ≡ status_held
      → IsAmount row.amount_micros
      → IsAmount n.final_amount_micros
      → AreDistinct row.account_id
      → find (clear_key network n.clearing_id) (IsLedger.book L c) ≡ none
      → (clear C directory accounts network n (c, t)).0 ≡ ok o
      → Charged row.amount_micros n.final_amount_micros o.overage_micros
          (stands (scan n.network_transaction_id row) (IsLedger.book L c))
          (stands
            (scan n.network_transaction_id row)
            (IsLedger.book L (clear C directory accounts network n (c, t)).1.0))
  clear-Charged L n c t row {o} there held p q d f h =
      Cleared-Charged n (scan n.network_transaction_id row) p q d _ _ o
        (rw h at (clear-Cleared C directory accounts network L n c t row there held f))
