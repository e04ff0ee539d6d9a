-- ===== src/Forecast/Warning.antt =====
-- What the forecast says of the days to come.
use aerarium_agentic_banking.Common.{
  ◌≡◌, ◌⊎◌, inl, inr, true, false, List, [], ◌∷◌, arith, Bool-cases,
}
use aerarium_agentic_banking.Common.Int.{ℤ, pos, ◌≤ℤ◌, ◌<ℤ◌, ltb_ℤ}
use aerarium_agentic_banking.Forecast.{
  Input, Point, Status, status_ok, status_tight, status_deficit, times, tight_days, card_before,
  status_of, project,
}
use aerarium_agentic_banking.Forecast.Lowest.{AllAbove, Among, balances, walk-lowest}

-- The balances that a forecast is about.
abbrev pub expected : Input → List Point
expected i =
    balances i.balance_micros (project i).daily_spend_micros i.today (project i).until
      (card_before (project i).until i.card) false

abbrev pub SomeBelow : ℤ → List Point → Type 0
SomeBelow x [] = ⊥
SomeBelow x (p ∷ l) = (p.amount_micros <ℤ x) ⊎ SomeBelow x l

-- What each status says of the balances, with a day's expense.
abbrev pub Warns : Status → ℤ → List Point → Type 0
Warns status_deficit daily l = SomeBelow (pos 0) l
Warns status_tight daily l = AllAbove (pos 0) l × SomeBelow (times tight_days daily) l
Warns status_ok daily l = AllAbove (pos 0) l × AllAbove (times tight_days daily) l

AllAbove-weaken : (x y : ℤ) (l : List Point) → x ≤ℤ y → AllAbove y l → AllAbove x l
AllAbove-weaken x y [] h k = tt
AllAbove-weaken x y (p ∷ l) h (k, ks) = (omega arith, AllAbove-weaken x y l h ks)

Among-below :
    (x : ℤ) (p : Point) (l : List Point) → p.amount_micros <ℤ x → Among p l → SomeBelow x l
Among-below x p [] h k = absurd k
Among-below x p (q ∷ l) h (inl e) = inl (rw e at h)
Among-below x p (q ∷ l) h (inr k) = inr (Among-below x p l h k)

below : (a b : ℤ) → ltb_ℤ a b ≡ true → a <ℤ b
below a b h = ground arith

not_below : (a b : ℤ) → ltb_ℤ a b ≡ false → b ≤ℤ a
not_below a b h = ground arith

status_of-Warns :
    (low : Point) (daily : ℤ) (l : List Point)
    → AllAbove low.amount_micros l
    → Among low l
    → Warns (status_of low.amount_micros daily) daily l
status_of-Warns low daily l above among = elim (Bool-cases (ltb_ℤ low.amount_micros (pos 0))) [
  | inl negative ↦ rw negative (Among-below (pos 0) low l (ground arith) among)
  | inr not_negative ↦
      let solvent : AllAbove (pos 0) l =
        AllAbove-weaken (pos 0) low.amount_micros l (ground arith) above in
      elim (Bool-cases (ltb_ℤ low.amount_micros (times tight_days daily))) [
        | inl less ↦
            rw (not_negative, less)
              (
                solvent,
                Among-below (times tight_days daily) low l
                    (below low.amount_micros (times tight_days daily) less) among,
              )
        | inr enough ↦
            rw (not_negative, enough)
              (
                solvent,
                AllAbove-weaken (times tight_days daily) low.amount_micros l
                    (not_below low.amount_micros (times tight_days daily) enough) above,
              )
      ]
]

-- A deficit is forecast exactly where some balance before the next income is negative, with the
-- card paid in full; a tight month where none is, but one is below five days of spending; and all
-- is well where every balance is at least that.
pub project-Warns :
    (i : Input) → Warns (project i).status (project i).daily_spend_micros (expected i)
unfolding project
project-Warns i =
    let (above, among) =
      walk-lowest i.balance_micros (project i).daily_spend_micros i.today (project i).until
        (card_before (project i).until i.card) false in
    status_of-Warns _ (project i).daily_spend_micros (expected i) above among
