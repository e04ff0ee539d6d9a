-- ===== src/Common/Tests.antt =====
-- Boolean tests on the native numbers, the conditional, results that carry an error, and the
-- splits that keep their equation.
use text.Mathlib.TextEquality.{eq_iff}
use mathlib.Core.Option.{Option, some, none}
use mathlib.Core.Logic.{inl, inr, ◌⊎◌, ◌≢◌}
use Prim.Native.Nat.{Ordering, compare, ℕ}
use text.Mathlib.Text.{◌==◌}
use mathlib.Core.Path.{refl, ◌≡◌}
use Prim.Native.String.{String}
use mathlib.Core.Bool.{false, true, Bool}

infix 1 if◌then◌else◌
abbrev pub if◌then◌else◌ {ℓ} : {A : Type ℓ} → Bool → A → A → A
if true then x else y = x
if false then x else y = y

abbrev pub eqb : ℕ → ℕ → Bool
eqb n m = elim (compare n m) [ Ordering.eq ↦ true | _ ↦ false ]

abbrev pub leb : ℕ → ℕ → Bool
leb n m = elim (compare n m) [ Ordering.gt ↦ false | _ ↦ true ]

abbrev pub ltb : ℕ → ℕ → Bool
ltb n m = elim (compare n m) [ Ordering.lt ↦ true | _ ↦ false ]

-- What a Go function that may fail returns: the value, or the error.
pub data Result {ℓ κ} (E : Type ℓ) (A : Type κ) : Type (ℓ ⊔ κ) where
  ok : A → Result E A
  err : E → Result E A

pub Bool-cases : (b : Bool) → (b ≡ true) ⊎ (b ≡ false)
Bool-cases true = inl refl
Bool-cases false = inr refl

pub Option-cases {ℓ} : {A : Type ℓ} (o : Option A) → (o ≡ none) ⊎ ((a : A) × (o ≡ some a))
Option-cases none = inl refl
Option-cases (some a) = inr (a, refl)

pub Result-cases {ℓ κ} :
    {E : Type ℓ} {A : Type κ} (r : Result E A) → ((a : A) × (r ≡ ok a)) ⊎ ((e : E) × (r ≡ err e))
Result-cases (ok a) = inl (a, refl)
Result-cases (err e) = inr (e, refl)

pub eq_false_of_ne : (s t : String) → s ≢ t → (s == t) ≡ false
eq_false_of_ne s t h = elim (Bool-cases (s == t)) [
  | inl e ↦ absurd (h ((eq_iff s t).0 e))
  | inr e ↦ e
]
