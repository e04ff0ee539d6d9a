-- ===== src/Common/Outcome.antt =====
-- What the success of an action says of its steps.
use mathlib.Core.Bool.{Bool, true, false}
use mathlib.Core.Option.{Option, none, some}
use mathlib.Core.Path.{◌≡◌, refl, sym, ap, ◌∙◌}
use mathlib.Core.Logic.{◌≢◌, inl, inr}
use aerarium_agentic_banking.Common.Tests.{Result, ok, err, Bool-cases}
use aerarium_agentic_banking.Common.Action.{
  Db, Action, then_with, ◌>>=◌, return, query, exec, statement, raise_if, or_raise, rolled_back,
  transaction, next_fault,
}

module _ {E : Type 0} where
  err_ne_ok : {A : Type 0} {e : E} {a : A} → ◌≢◌ {A = Result E A} (err e) (ok a)
  err_ne_ok h = cc

  ok_inj : {A : Type 0} {a b : A} → ◌≡◌ {A = Result E A} (ok a) (ok b) → a ≡ b
  ok_inj h = cc

module _ {S E : Type 0} where
  abbrev Ended : {A : Type 0} → Result E A × Db S → A → Type 0
  Ended r a = r.0 ≡ ok a

  then-Ended :
      {A B : Type 0} (f : A → Action S E B) (r : Result E A × Db S) {b : B}
      → Ended (then_with f r) b
      → (a : A) × Ended r a × (then_with f r ≡ f a r.1)
  unfolding then_with
  then-Ended f (ok a, w) h = (a, refl, refl)
  then-Ended f (err e, w) h = absurd (err_ne_ok h)

  bind-Ended :
      {A B : Type 0} (m : Action S E A) (f : A → Action S E B) (w : Db S) {b : B}
      → Ended ((m >>= f) w) b
      → (a : A) × Ended (m w) a × ((m >>= f) w ≡ f a (m w).1)
  unfolding ◌>>=◌
  bind-Ended m f w h = then-Ended f (m w) h

  query-Ended :
      {A : Type 0} (e : E) (f : S → A) (w : Db S) {a : A}
      → Ended (query e f w) a
      → (a ≡ f w.state) × ((query e f w).1.state ≡ w.state)
  unfolding query
  query-Ended e f w h = elim (Bool-cases (next_fault w.faults)) [
    | inl x ↦ let z = rw x at h in absurd (err_ne_ok z)
    | inr x ↦ let z = rw x at h in rw x (sym (ok_inj z), refl)
  ]

  exec-Ended :
      (e : E) (f : S → S) (w : Db S) {a : Unit {0}}
      → Ended (exec e f w) a
      → (exec e f w).1.state ≡ f w.state
  unfolding exec
  exec-Ended e f w h = elim (Bool-cases (next_fault w.faults)) [
    | inl x ↦ let z = rw x at h in absurd (err_ne_ok z)
    | inr x ↦ rw x refl
  ]

  statement-Ended :
      {A : Type 0} (e : E) (f : S → Result E A × S) (w : Db S) {a : A}
      → Ended (statement e f w) a
      → ((f w.state).0 ≡ ok a) × ((statement e f w).1.state ≡ (f w.state).1)
  unfolding statement
  statement-Ended e f w h = elim (Bool-cases (next_fault w.faults)) [
    | inl x ↦ let z = rw x at h in absurd (err_ne_ok z)
    | inr x ↦ let z = rw x at h in rw x (z, refl)
  ]

  raise_if-Ended :
      (c : Bool) (e : E) (w : Db S) {a : Unit {0}}
      → Ended (raise_if c e w) a
      → (c ≡ false) × ((raise_if c e w).1 ≡ w)
  unfolding raise_if
  raise_if-Ended true e w h = absurd (err_ne_ok h)
  raise_if-Ended false e w h = (refl, refl)

  or_raise-Ended :
      {A : Type 0} (e : E) (o : Option A) (w : Db S) {a : A}
      → Ended (or_raise e o w) a
      → (o ≡ some a) × ((or_raise e o w).1 ≡ w)
  unfolding or_raise
  or_raise-Ended e none w h = absurd (err_ne_ok h)
  or_raise-Ended e (some a) w h = (ap some (ok_inj h), refl)

  rolled-Ended :
      {A : Type 0} (s : S) (r : Result E A × Db S) {a : A}
      → Ended (rolled_back s r) a
      → rolled_back s r ≡ r
  unfolding rolled_back
  rolled-Ended s (ok a, w) h = refl
  rolled-Ended s (err e, w) h = absurd (err_ne_ok h)

  transaction-Ended :
      {A : Type 0} (m : Action S E A) (w : Db S) {a : A}
      → Ended (transaction m w) a
      → transaction m w ≡ m w
  unfolding transaction
  transaction-Ended m w h = rolled-Ended w.state (m w) h

-- The states before and after a success and its value are related.
module _ {S : Type 0} where
  pub record Gives {E A : Type 0} (P : S → A → S → Type 0) (m : Action S E A) : Type 0 where
    pub holds : (w : Db S) {a : A} → (m w).0 ≡ ok a → P w.state a (m w).1.state

  -- A first step, and what follows it.
  abbrev pub Chain :
      {A B : Type 0} → (S → A → S → Type 0) → (A → S → B → S → Type 0) → S → B → S → Type 0
  Chain {A = A} P Q s b u = (a : A) × (t : S) × P s a t × Q a t b u

  module _ {E : Type 0} where
    pub bind-Gives :
        {A B : Type 0} (P : S → A → S → Type 0) (Q : A → S → B → S → Type 0) (m : Action S E A)
        (f : A → Action S E B)
        → Gives P m
        → ((a : A) → Gives (Q a) (f a))
        → Gives (Chain P Q) (m >>= f)
    bind-Gives P Q m f h k = record {
      holds = λ w {a = b} e.
          let (a, x, y) = bind-Ended m f w e in
          (a, (m w).1.state, h.holds w x, rw y ((k a).holds (m w).1 (ap (λ r. r.0) (sym y) ∙ e)));
    }

    pub query-Gives :
        {A : Type 0} (e : E) (f : S → A) → Gives (λ s a u. (a ≡ f s) × (u ≡ s)) (query e f)
    query-Gives e f = record { holds = λ w h. query-Ended e f w h }

    pub exec-Gives : (e : E) (f : S → S) → Gives (λ s a u. u ≡ f s) (exec e f)
    exec-Gives e f = record { holds = λ w h. exec-Ended e f w h }

    pub statement-Gives :
        {A : Type 0} (e : E) (f : S → Result E A × S)
        → Gives (λ s a u. ((f s).0 ≡ ok a) × (u ≡ (f s).1)) (statement e f)
    statement-Gives e f = record { holds = λ w h. statement-Ended e f w h }

    pub raise_if-Gives : (c : Bool) (e : E) → Gives (λ s a u. (c ≡ false) × (u ≡ s)) (raise_if c e)
    raise_if-Gives c e = record {
      holds = λ w h. let (x, y) = raise_if-Ended c e w h in (x, ap (λ v. v.state) y);
    }

    pub or_raise-Gives :
        {A : Type 0} (e : E) (o : Option A) → Gives (λ s a u. (o ≡ some a) × (u ≡ s)) (or_raise e o)
    or_raise-Gives e o = record {
      holds = λ w h. let (x, y) = or_raise-Ended e o w h in (x, ap (λ v. v.state) y);
    }

    pub return-Gives : {A : Type 0} (x : A) → Gives (λ s a u. (a ≡ x) × (u ≡ s)) (return {E = E} x)
    unfolding return
    return-Gives x = record { holds = λ w h. (sym (ok_inj h), refl) }

    pub transaction-Gives :
        {A : Type 0} (P : S → A → S → Type 0) (m : Action S E A)
        → Gives P m
        → Gives P (transaction m)
    transaction-Gives P m h = record {
      holds = λ w {a} e.
          rw (transaction-Ended m w e)
            (h.holds w (ap (λ r. r.0) (sym (transaction-Ended m w e)) ∙ e));
    }

    pub weaker-Gives :
        {A : Type 0} (P Q : S → A → S → Type 0) (m : Action S E A)
        → Gives P m
        → ((s : S) (a : A) (u : S) → P s a u → Q s a u)
        → Gives Q m
    weaker-Gives P Q m h k = record { holds = λ w {a} e. k w.state a (m w).1.state (h.holds w e) }
