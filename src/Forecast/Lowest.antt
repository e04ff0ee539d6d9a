-- ===== src/Forecast/Lowest.antt =====
-- The walk finds the lowest balance.
use aerarium_agentic_banking.Common.{
  ℕ, zero, suc, ◌-◌, ◌≡◌, refl, ◌∙◌, ◌⊎◌, inl, inr, Bool, Option, List, [], ◌∷◌, arith, Bool-cases,
}
use aerarium_agentic_banking.Common.Int.{ℤ, ◌≤ℤ◌, ltb_ℤ}
use aerarium_agentic_banking.Forecast.{
  CardDue, sub64, Point, Walk, point, pay, lower, day_step, walk_days, start, walk,
}

-- The balances of the days, as an account without a lowest point would show them.
abbrev pub trail : ℤ → Option CardDue → ℕ → Bool → ℕ → ℕ → Walk → List Point
trail daily card today minimum zero day w = []
trail daily card today minimum (suc k) day w =
    let next = day_step daily card today minimum day w in
    point day next.balance ∷ trail daily card today minimum k (suc day) next

-- Today's balance, the one with the card paid if that is today, and those of the days before
-- `until`.
abbrev pub balances : ℤ → ℤ → ℕ → ℕ → Option CardDue → Bool → List Point
balances balance daily today until card minimum =
    let first = lower today (pay card today minimum today (start balance today)) in
    point today balance
    ∷ point today first.balance
    ∷ trail daily card today minimum (until - suc today) (suc today) first

abbrev pub AllAbove : ℤ → List Point → Type 0
AllAbove x [] = Unit
AllAbove x (p ∷ l) = (x ≤ℤ p.amount_micros) × AllAbove x l

abbrev pub Among : Point → List Point → Type 0
Among p [] = ⊥
Among p (q ∷ l) = (p ≡ q) ⊎ Among p l

lower-low : (day : ℕ) (w : Walk) → (lower day w).low.amount_micros ≤ℤ w.low.amount_micros
lower-low day w = ground arith

lower-balance : (day : ℕ) (w : Walk) → (lower day w).low.amount_micros ≤ℤ (lower day w).balance
lower-balance day w = ground arith

lower-cases :
    (day : ℕ) (w : Walk)
    → ((lower day w).low ≡ w.low) ⊎ ((lower day w).low ≡ point day (lower day w).balance)
lower-cases day w = elim (Bool-cases (ltb_ℤ w.balance w.low.amount_micros)) [
  | inl less ↦ rw less (inr refl)
  | inr not_less ↦ rw not_less (inl refl)
]

pay-low :
    (card : Option CardDue) (today : ℕ) (minimum : Bool) (day : ℕ) (w : Walk)
    → (pay card today minimum day w).low ≡ w.low
pay-low card today minimum day w = ground arith

AtMost-trans : (a b c : ℤ) → a ≤ℤ b → b ≤ℤ c → a ≤ℤ c
AtMost-trans a b c h k = omega arith

AtMost-eq :
    (a b c : Point)
    → a.amount_micros ≤ℤ b.amount_micros
    → b ≡ c
    → a.amount_micros ≤ℤ c.amount_micros
AtMost-eq a b c h e = rw e at h

module _ (daily : ℤ) (card : Option CardDue) (today : ℕ) (minimum : Bool) where
  day_step-low :
      (day : ℕ) (w : Walk)
      → (day_step daily card today minimum day w).low.amount_micros ≤ℤ w.low.amount_micros
  day_step-low day w =
      let spent : Walk = record w { balance = sub64 w.balance daily } in
      let paid = pay card today minimum day spent in
      AtMost-eq (lower day paid).low paid.low w.low (lower-low day paid)
        (pay-low card today minimum day spent)

  day_step-cases :
      (day : ℕ) (w : Walk)
      → let next = day_step daily card today minimum day w in
        (next.low ≡ w.low) ⊎ (next.low ≡ point day next.balance)
  day_step-cases day w =
      let spent : Walk = record w { balance = sub64 w.balance daily } in
      elim (lower-cases day (pay card today minimum day spent)) [
        | inl kept ↦ inl (kept ∙ pay-low card today minimum day spent)
        | inr lowered ↦ inr lowered
      ]

  walk_days-low :
      (k day : ℕ) (w : Walk)
      → (walk_days daily card today minimum k day w).low.amount_micros ≤ℤ w.low.amount_micros
  unfolding walk_days
  walk_days-low zero day w = omega arith
  walk_days-low (suc k) day w =
      let next = day_step daily card today minimum day w in
      AtMost-trans (walk_days daily card today minimum k (suc day) next).low.amount_micros
        next.low.amount_micros w.low.amount_micros (walk_days-low k (suc day) next)
        (day_step-low day w)

  walk_days-AllAbove :
      (k day : ℕ) (w : Walk)
      → AllAbove
          (walk_days daily card today minimum k day w).low.amount_micros
          (trail daily card today minimum k day w)
  unfolding walk_days
  walk_days-AllAbove zero day w = tt
  walk_days-AllAbove (suc k) day w =
      let next = day_step daily card today minimum day w in
      (
        AtMost-trans (walk_days daily card today minimum k (suc day) next).low.amount_micros
            next.low.amount_micros next.balance (walk_days-low k (suc day) next)
            (lower-balance day
              (pay card today minimum day (record w { balance = sub64 w.balance daily }))),
        walk_days-AllAbove k (suc day) next,
      )

  walk_days-cases :
      (k day : ℕ) (w : Walk)
      → let low = (walk_days daily card today minimum k day w).low in
        (low ≡ w.low) ⊎ Among low (trail daily card today minimum k day w)
  unfolding walk_days
  walk_days-cases zero day w = inl refl
  walk_days-cases (suc k) day w =
      let next = day_step daily card today minimum day w in
      elim (walk_days-cases k (suc day) next) [
        | inr later ↦ inr (inr later)
        | inl kept ↦ elim (day_step-cases day w) [
          | inl same ↦ inl (kept ∙ same)
          | inr here ↦ inr (inl (kept ∙ here))
        ]
      ]

-- The lowest point of a walk is one of the balances of its days, from today to the day before
-- `until`, and no other of them is lower.
pub walk-lowest :
    (balance daily : ℤ) (today until : ℕ) (card : Option CardDue) (minimum : Bool)
    → let low = (walk balance daily today until card minimum).0 in
      AllAbove low.amount_micros (balances balance daily today until card minimum)
      × Among low (balances balance daily today until card minimum)
unfolding walk
walk-lowest balance daily today until card minimum =
    let paid = pay card today minimum today (start balance today) in
    let first = lower today paid in
    let end = walk_days daily card today minimum (until - suc today) (suc today) first in
    let low = walk_days-low daily card today minimum (until - suc today) (suc today) first in
    (
      (
        AtMost-trans end.low.amount_micros first.low.amount_micros balance low (
            AtMost-eq first.low paid.low (point today balance) (lower-low today paid)
              (pay-low card today minimum today (start balance today))),
        (
          AtMost-trans end.low.amount_micros first.low.amount_micros first.balance low
              (lower-balance today paid),
          walk_days-AllAbove daily card today minimum (until - suc today) (suc today) first,
        ),
      ),
      elim (walk_days-cases daily card today minimum (until - suc today) (suc today) first) [
        | inr later ↦ inr (inr later)
        | inl kept ↦ elim (lower-cases today paid) [
          | inl same ↦ inl (kept ∙ same ∙ pay-low card today minimum today (start balance today))
          | inr here ↦ inr (inl (kept ∙ here))
        ]
      ],
    )
