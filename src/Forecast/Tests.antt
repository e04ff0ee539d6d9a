-- ===== src/Forecast/Tests.antt =====
-- A month with a card to pay and a salary on its last day.
use aerarium_agentic_banking.Common.{◌≡◌, refl, true, false, some, [], ◌∷◌}
use aerarium_agentic_banking.Common.Int.{pos, wrap64, ◌+ℤ◌, ◌-ℤ◌}
use aerarium_agentic_banking.Forecast.{
  CardDue, Input, status_deficit, spend_cap, sub64, spend_days, committed_of, cap_options, project,
  spent_in, walk, walk_days,
}
use aerarium_agentic_banking.Forecast.Lowest.{AllAbove, Among, balances, walk-lowest}
use aerarium_agentic_banking.Forecast.Warning.{Warns, expected, project-Warns}
use aerarium_agentic_banking.Forecast.Cap.{IsCap, cap_options-IsCap}

abbrev card : CardDue
card = record {
  due_on = 104;
  minimum_micros = pos 20;
  total_micros = pos 80;
  overdue = false;
  reserved_micros = pos 10;
}

abbrev month : Input
month = record {
  today = 100;
  balance_micros = pos 100;
  currency = "PEN";
  recent = (record { at = 90; out = true; amount_micros = pos 200; kind = "transfer" }) ∷ [];
  history_days = 20;
  income = some (record {
    amount_micros = pos 500;
    expected_on = 106;
    cadence = "monthly";
    synthetic = false;
  });
  card = some card;
}

goes_under : (project month).status ≡ status_deficit
unfolding project spent_in walk_days ◌+ℤ◌ ◌-ℤ◌ wrap64
goes_under = refl

walk-lowest_example :
    let low = (walk (pos 100) (pos 10) 100 106 (some card) false).0 in
    AllAbove low.amount_micros (balances (pos 100) (pos 10) 100 106 (some card) false)
    × Among low (balances (pos 100) (pos 10) 100 106 (some card) false)
walk-lowest_example = walk-lowest (pos 100) (pos 10) 100 106 (some card) false

project-Warns_example :
    Warns (project month).status (project month).daily_spend_micros (expected month)
project-Warns_example = project-Warns month

six_a_day : cap_options month (pos 10) 106 (some card) ≡ spend_cap (pos 6) ∷ []
unfolding spend_days ◌-ℤ◌ wrap64
six_a_day = refl

cap_options-IsCap_example :
    IsCap (spend_days 100 106) (sub64 (pos 100) (committed_of (some card))) (pos 10) (pos 6)
cap_options-IsCap_example = cap_options-IsCap month (pos 10) 106 (some card) six_a_day
