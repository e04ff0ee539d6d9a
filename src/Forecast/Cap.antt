-- ===== src/Forecast/Cap.antt =====
-- The daily cap that the forecast proposes.
use native.Mathlib.Omega.{div_any}
use native.Mathlib.Nat.{mod-lt, mul-suc, zero-div}
use mathlib.Core.Path.{subst}
use aerarium_agentic_banking.Common.{
  ℕ, suc, ◌*◌, ◌/◌, ◌≤◌, ◌<◌, ◌≡◌, ◌≢◌, refl, inl, inr, true, false, Option, List, [], ◌∷◌, arith,
  ltb, Bool-cases,
}
use aerarium_agentic_banking.Common.Int.{ℤ, pos, negsuc, ◌<ℤ◌, ltb_ℤ, int_laws}
use aerarium_agentic_banking.Forecast.{
  CardDue, Input, Choice, spend_cap, sub64, quotient, spend_days, committed_of, cap_options,
}

-- A cap is the greatest daily amount that what is left covers for the days there are, and it is
-- less than what is spent now.
abbrev pub IsCap : ℕ → ℤ → ℤ → ℤ → Type 0
IsCap days left daily x =
    (n q : ℕ) × (left ≡ pos n) × (x ≡ pos q) × (days * q ≤ n) × (n < days * suc q) × (x <ℤ daily)

quotient_pos : (n d : ℕ) → quotient (pos n) d ≡ pos (n / d)
quotient_pos n d = rw (zero-div d) (omega int_laws)

floor_low : (n d : ℕ) → d * (n / d) ≤ n
floor_low n d = omega (arith, div_any n d)

floor_high : (n d : ℕ) → 0 < d → n < d * suc (n / d)
floor_high n d h = rw (mul-suc d (n / d)) (omega (arith, div_any n d, mod-lt n {m = d} h))

quotient-IsCap :
    (days : ℕ) (left daily : ℤ)
    → ltb 0 days ≡ true
    → ltb_ℤ left (pos 0) ≡ false
    → ltb_ℤ (quotient left days) daily ≡ true
    → IsCap days left daily (quotient left days)
quotient-IsCap days (pos n) daily d p h = (
  n,
  n / days,
  refl,
  quotient_pos n days,
  floor_low n days,
  floor_high n days (ground arith),
  ground arith,
)
quotient-IsCap days (negsuc n) daily d p h = absurd (ground arith)

nil_ne : {x : ℤ} {l : List Choice} → ◌≢◌ {A = List Choice} [] (spend_cap x ∷ l)
nil_ne h = cc

caps :
    (x y : ℤ) (l : List Choice) → ◌≡◌ {A = List Choice} (spend_cap x ∷ []) (spend_cap y ∷ l) → x ≡ y
caps x y l h = cc

-- If a daily cap is proposed, it is the greatest whole amount that, spent on each of the days left,
-- is covered by the balance less the card's payment, and it is below what is spent now.
pub cap_options-IsCap :
    (i : Input) (daily : ℤ) (until : ℕ) (card : Option CardDue) {x : ℤ} {l : List Choice}
    → cap_options i daily until card ≡ spend_cap x ∷ l
    → IsCap (spend_days i.today until) (sub64 i.balance_micros (committed_of card)) daily x
cap_options-IsCap i daily until card {x} {l} h =
    let days = spend_days i.today until in
    let left = sub64 i.balance_micros (committed_of card) in
    elim (Bool-cases (ltb 0 days)) [
      | inr never ↦ let z = rw never at h in absurd (nil_ne z)
      | inl some_days ↦ elim (Bool-cases (ltb_ℤ left (pos 0))) [
        | inl owing ↦ let z = rw (some_days, owing) at h in absurd (nil_ne z)
        | inr covered ↦ elim (Bool-cases (ltb_ℤ (quotient left days) daily)) [
          | inr enough ↦ let z = rw (some_days, covered, enough) at h in absurd (nil_ne z)
          | inl less ↦
              let z = rw (some_days, covered, less) at h in
              subst (IsCap days left daily) (caps (quotient left days) x l z)
                (quotient-IsCap days left daily some_days covered less)
        ]
      ]
    ]
