-- ===== src/Forecast.antt =====
-- services/forecast/forecast.go: the balance until the next income. Dates are midnights of one
-- zone, so a date is a number of days; the program's integers are of 64 bits and wrap around.
pub mod Lowest
pub mod Warning
pub mod Cap
mod Tests
use aerarium_agentic_banking.Common.{
  ℕ, zero, suc, ◌+◌, ◌-◌, ◌*◌, ◌/◌, String, Bool, true, false, ◌&&◌, ◌||◌, not, Option, none, some,
  List, [], ◌∷◌, ◌++◌, ◌==◌, eqb, ltb, leb, if◌then◌else◌, contains,
}
use aerarium_agentic_banking.Common.Int.{
  ℤ, pos, pos_part, neg_part, ◌+ℤ◌, ◌-ℤ◌, ltb_ℤ, leb_ℤ, wrap64,
}

abbrev pub spend_window : ℕ
spend_window = 60

abbrev pub min_history_days : ℕ
min_history_days = 14

abbrev pub default_horizon : ℕ
default_horizon = 30

abbrev pub tight_days : ℕ
tight_days = 5

pub record Movement : Type 0 where
  pub at : ℕ
  pub out : Bool
  pub amount_micros : ℤ
  pub kind : String

pub record Income : Type 0 where
  pub amount_micros : ℤ
  pub expected_on : ℕ
  pub cadence : String
  pub synthetic : Bool

pub record CardDue : Type 0 where
  pub due_on : ℕ
  pub minimum_micros : ℤ
  pub total_micros : ℤ
  pub overdue : Bool
  pub reserved_micros : ℤ

pub record Input : Type 0 where
  pub today : ℕ
  pub balance_micros : ℤ
  pub currency : String
  pub recent : List Movement
  pub history_days : ℕ
  pub income : Option Income
  pub card : Option CardDue

pub record Point : Type 0 where
  pub on : ℕ
  pub amount_micros : ℤ

pub data Choice : Type 0 where
  pay_minimum : ℤ → ℤ → Choice
  spend_cap add_funds : ℤ → Choice

pub data Status : Type 0 where
  status_ok status_tight status_deficit : Status

pub data Cause : Type 0 where
  cause_none cause_card cause_spending : Cause

pub record Forecast : Type 0 where
  pub today : ℕ
  pub until : ℕ
  pub balance_micros : ℤ
  pub currency : String
  pub daily_spend_micros : ℤ
  pub low_history : Bool
  pub income : Option Income
  pub card : Option CardDue
  pub lowest : Point
  pub after_card : Option Point
  pub status : Status
  pub cause : Cause
  pub options : List Choice

-- The operations of an int64, and the product and the truncated quotient with a count of days.
abbrev pub add64 : ℤ → ℤ → ℤ
add64 a b = wrap64 (a +ℤ b)

abbrev pub sub64 : ℤ → ℤ → ℤ
sub64 a b = wrap64 (a -ℤ b)

abbrev pub times : ℕ → ℤ → ℤ
times n a = wrap64 (pos (n * pos_part a) -ℤ pos (n * neg_part a))

abbrev pub quotient : ℤ → ℕ → ℤ
quotient a d = pos (pos_part a / d) -ℤ pos (neg_part a / d)

-- What the payment takes from the account, less what is set aside for it.
abbrev pub from_account : CardDue → Bool → ℤ
from_account c minimum =
    let due = sub64 (if minimum then c.minimum_micros else c.total_micros) c.reserved_micros in
    if ltb_ℤ due (pos 0) then pos 0 else due

abbrev refunds : List String
refunds = "authorization_release" ∷ "authorization_refund" ∷ "rail_outbound_reverse" ∷ []

abbrev excluded : List String
excluded = "credit_payment" ∷ "credit_drawdown" ∷ "pocket_transfer" ∷ []

abbrev pub spent_after : ℤ → Movement → ℤ
spent_after spent m =
    if contains excluded m.kind
    then spent
    else if m.out
    then add64 spent m.amount_micros
    else if contains refunds m.kind
    then sub64 spent m.amount_micros
    else spent

unfoldable pub spent_in : ℤ → List Movement → ℤ
spent_in spent [] = spent
spent_in spent (m ∷ l) = spent_in (spent_after spent m) l

-- The days of history between one and the window.
abbrev pub counted_days : ℕ → ℕ
counted_days days =
    let d = if ltb spend_window days then spend_window else days in if ltb d 1 then 1 else d

unfoldable pub daily_spend : List Movement → ℕ → ℤ
unfolding spent_in
daily_spend recent history_days =
    let spent = spent_in (pos 0) recent in
    if leb_ℤ spent (pos 0) then pos 0 else quotient spent (counted_days history_days)

abbrev pub max_day : ℕ → ℕ → ℕ
max_day a b = if ltb a b then b else a

-- The variables of the walk.
pub record Walk : Type 0 where
  pub balance : ℤ
  pub low : Point
  pub paid : Option Point

abbrev pub point : ℕ → ℤ → Point
point on amount_micros = record { on = on; amount_micros = amount_micros }

-- The closure `pay`.
abbrev pub pay : Option CardDue → ℕ → Bool → ℕ → Walk → Walk
pay none today minimum day w = w
pay (some c) today minimum day w =
    if eqb day (max_day c.due_on today)
    then (let left = sub64 w.balance (from_account c minimum) in
        record w { balance = left; paid = some (point day left) })
    else w

abbrev pub lower : ℕ → Walk → Walk
lower day w =
    if ltb_ℤ w.balance w.low.amount_micros then record w { low = point day w.balance } else w

-- One day of the loop.
abbrev pub day_step : ℤ → Option CardDue → ℕ → Bool → ℕ → Walk → Walk
day_step daily card today minimum day w =
    lower day (pay card today minimum day (record w { balance = sub64 w.balance daily }))

-- The loop, over the number of days that are left before `until`.
unfoldable pub walk_days : ℤ → Option CardDue → ℕ → Bool → ℕ → ℕ → Walk → Walk
walk_days daily card today minimum zero day w = w
walk_days daily card today minimum (suc k) day w =
    walk_days daily card today minimum k (suc day) (day_step daily card today minimum day w)

abbrev pub start : ℤ → ℕ → Walk
start balance today = record { balance = balance; low = point today balance; paid = none }

unfoldable pub walk : ℤ → ℤ → ℕ → ℕ → Option CardDue → Bool → Point × Option Point
unfolding walk_days
walk balance daily today until card minimum =
    let w =
      walk_days daily card today minimum (until - suc today) (suc today)
        (lower today (pay card today minimum today (start balance today))) in
    (w.low, w.paid)

unfoldable pub spend_days : ℕ → ℕ → ℕ
spend_days today until = until - suc today

abbrev pub committed_of : Option CardDue → ℤ
committed_of none = pos 0
committed_of (some c) = from_account c false

abbrev pub card_options : Input → ℤ → ℕ → Option CardDue → List Choice
card_options i daily until none = []
card_options i daily until (some c) =
    let minimum = (walk i.balance_micros daily i.today until (some c) true).0 in
    if ltb_ℤ minimum.amount_micros (pos 0)
    then add_funds (sub64 (pos 0) minimum.amount_micros) ∷ []
    else pay_minimum c.minimum_micros (sub64 c.total_micros c.minimum_micros) ∷ []

abbrev pub cap_options : Input → ℤ → ℕ → Option CardDue → List Choice
cap_options i daily until card =
    let days = spend_days i.today until in
    let left = sub64 i.balance_micros (committed_of card) in
    if ltb 0 days && not (ltb_ℤ left (pos 0))
    then (if ltb_ℤ (quotient left days) daily then spend_cap (quotient left days) ∷ [] else [])
    else []

abbrev or_add_funds : ℤ → Option CardDue → List Choice → List Choice
or_add_funds lowest none [] = add_funds (sub64 (pos 0) lowest) ∷ []
or_add_funds lowest _ out = out

unfoldable pub options : Input → ℤ → ℕ → ℤ → Option CardDue → List Choice
options i daily until lowest card =
    or_add_funds lowest card (card_options i daily until card ++ cap_options i daily until card)

abbrev pub until_of : ℕ → Option Income → ℕ
until_of today none = today + default_horizon
until_of today (some x) = if ltb today x.expected_on then x.expected_on else today + default_horizon

-- The card counts if it is due before the income.
abbrev pub card_before : ℕ → Option CardDue → Option CardDue
card_before until none = none
card_before until (some c) = if ltb c.due_on until then some c else none

abbrev is_some : Option CardDue → Bool
is_some none = false
is_some (some _) = true

abbrev pub cause_of : Option CardDue → ℤ → ℤ → Cause
cause_of card total spend_only =
    if is_some card && (not (ltb_ℤ spend_only (pos 0)) && ltb_ℤ total spend_only)
    then cause_card
    else cause_spending

abbrev pub status_of : ℤ → ℤ → Status
status_of low daily =
    if ltb_ℤ low (pos 0)
    then status_deficit
    else if ltb_ℤ low (times tight_days daily)
    then status_tight
    else status_ok

abbrev pub cause_by : Status → Cause → Cause
cause_by status_ok c = cause_none
cause_by _ c = c

abbrev pub options_by : Status → List Choice → List Choice
options_by status_deficit l = l
options_by _ l = []

unfoldable pub project : Input → Forecast
unfolding daily_spend walk options
project i =
    let daily = daily_spend i.recent i.history_days in
    let until = until_of i.today i.income in
    let card = card_before until i.card in
    let total = walk i.balance_micros daily i.today until card false in
    let spend_only = walk i.balance_micros daily i.today until none false in
    let status = status_of total.0.amount_micros daily in
    record {
      today = i.today;
      until = until;
      balance_micros = i.balance_micros;
      currency = i.currency;
      daily_spend_micros = daily;
      low_history = ltb i.history_days min_history_days;
      income = i.income;
      card = i.card;
      lowest = total.0;
      after_card = total.1;
      status = status;
      cause = cause_by status (cause_of card total.0.amount_micros spend_only.0.amount_micros);
      options = options_by status (options i daily until total.0.amount_micros card);
    }
