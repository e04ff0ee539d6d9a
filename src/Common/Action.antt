-- ===== src/Common/Action.antt =====
-- What the services do over a database: steps that may fail, one after the other. `faults` says of
-- the next statements whether they fail; a statement that fails changes nothing.
use mathlib.Core.Bool.{Bool, true, false}
use mathlib.Core.Option.{Option, none, some}
use mathlib.Core.List.{List, [], ◌∷◌}
use mathlib.Core.Logic.{inl, inr}
use aerarium_agentic_banking.Common.Tests.{Result, ok, err, if◌then◌else◌, Bool-cases}

pub record Db (S : Type 0) : Type 0 where
  pub state : S
  pub faults : List Bool

abbrev pub Action : Type 0 → Type 0 → Type 0 → Type 0
Action S E A = Db S → Result E A × Db S

abbrev pub next_fault : List Bool → Bool
next_fault [] = false
next_fault (f ∷ _) = f

abbrev pub later_faults : List Bool → List Bool
later_faults [] = []
later_faults (_ ∷ fs) = fs

-- A database no statement of which fails.
abbrev pub healthy : {S : Type 0} → S → Db S
healthy s = record { state = s; faults = [] }

module _ {S E : Type 0} where
  unfoldable pub then_with :
      {A B : Type 0} → (A → Action S E B) → Result E A × Db S → Result E B × Db S
  then_with f (ok a, w) = f a w
  then_with f (err e, w) = (err e, w)

  infixl 5 ◌>>=◌ ◌>>◌
  unfoldable pub ◌>>=◌ : {A B : Type 0} → Action S E A → (A → Action S E B) → Action S E B
  unfolding then_with
  ◌>>=◌ m f w = then_with f (m w)

  abbrev pub ◌>>◌ : {A B : Type 0} → Action S E A → Action S E B → Action S E B
  m >> k = m >>= λ _. k

  unfoldable pub return : {A : Type 0} → A → Action S E A
  return a w = (ok a, w)

  unfoldable pub fail : {A : Type 0} → E → Action S E A
  fail e w = (err e, w)

  -- A statement that reads.
  unfoldable pub query : {A : Type 0} → E → (S → A) → Action S E A
  query e f w =
      if next_fault w.faults
      then (err e, record w { faults = later_faults w.faults })
      else (ok (f w.state), record w { faults = later_faults w.faults })

  -- A statement that writes.
  unfoldable pub exec : E → (S → S) → Action S E Unit
  exec e f w =
      if next_fault w.faults
      then (err e, record w { faults = later_faults w.faults })
      else (ok tt, record { state = f w.state; faults = later_faults w.faults })

  -- A statement with a result of its own, as one that may break a constraint.
  unfoldable pub statement : {A : Type 0} → E → (S → Result E A × S) → Action S E A
  statement e f w =
      if next_fault w.faults
      then (err e, record w { faults = later_faults w.faults })
      else ((f w.state).0, record { state = (f w.state).1; faults = later_faults w.faults })

  -- A call of another system, which the database has no part in.
  unfoldable pub call : {A : Type 0} → (S → Result E A × S) → Action S E A
  call f w = ((f w.state).0, record w { state = (f w.state).1 })

  unfoldable pub raise_if : Bool → E → Action S E Unit
  raise_if c e w = (if c then err e else ok tt, w)

  unfoldable pub or_raise : {A : Type 0} → E → Option A → Action S E A
  or_raise e none w = (err e, w)
  or_raise e (some a) w = (ok a, w)

  unfoldable pub rolled_back : {A : Type 0} → S → Result E A × Db S → Result E A × Db S
  rolled_back s (ok a, w) = (ok a, w)
  rolled_back s (err e, w) = (err e, record w { state = s })

  -- A transaction, which is rolled back unless it ends well.
  unfoldable pub transaction : {A : Type 0} → Action S E A → Action S E A
  unfolding rolled_back
  transaction m w = rolled_back w.state (m w)

-- What an action keeps between the states before and after, however it ends.
module _ {S : Type 0} (R : S → S → Type 0) where
  pub record Keeps {E A : Type 0} (m : Action S E A) : Type 0 where
    pub holds : (w : Db S) → R w.state (m w).1.state

  module _ (steady : (s : S) → R s s) {E : Type 0} where
    pub return-Keeps : {A : Type 0} (a : A) → Keeps (return {E = E} a)
    unfolding return
    return-Keeps a = record { holds = λ w. steady w.state }

    pub fail-Keeps : {A : Type 0} (e : E) → Keeps (fail {A = A} e)
    unfolding fail
    fail-Keeps e = record { holds = λ w. steady w.state }

    pub raise_if-Keeps : (c : Bool) (e : E) → Keeps (raise_if c e)
    unfolding raise_if
    raise_if-Keeps c e = record { holds = λ w. steady w.state }

    or_raise_keeps :
        {A : Type 0} (e : E) (o : Option A) (w : Db S) → R w.state (or_raise e o w).1.state
    unfolding or_raise
    or_raise_keeps e none w = steady w.state
    or_raise_keeps e (some a) w = steady w.state

    pub or_raise-Keeps : {A : Type 0} (e : E) (o : Option A) → Keeps (or_raise e o)
    or_raise-Keeps e o = record { holds = or_raise_keeps e o }

    pub query-Keeps : {A : Type 0} (e : E) (f : S → A) → Keeps (query e f)
    unfolding query
    query-Keeps e f = record {
      holds = λ w. elim (Bool-cases (next_fault w.faults)) [
        | inl h ↦ rw h (steady w.state)
        | inr h ↦ rw h (steady w.state)
      ];
    }

    pub exec-Keeps : (e : E) (f : S → S) → ((s : S) → R s (f s)) → Keeps (exec e f)
    unfolding exec
    exec-Keeps e f k = record {
      holds = λ w. elim (Bool-cases (next_fault w.faults)) [
        | inl h ↦ rw h (steady w.state)
        | inr h ↦ rw h (k w.state)
      ];
    }

    pub statement-Keeps :
        {A : Type 0} (e : E) (f : S → Result E A × S)
        → ((s : S) → R s (f s).1)
        → Keeps (statement e f)
    unfolding statement
    statement-Keeps e f k = record {
      holds = λ w. elim (Bool-cases (next_fault w.faults)) [
        | inl h ↦ rw h (steady w.state)
        | inr h ↦ rw h (k w.state)
      ];
    }

    -- Two statements in a row, the second of which may count on the first.
    pub exec_exec-Keeps :
        {A : Type 0} (e : E) (f g : S → S) (a : A)
        → ((s : S) → R s (f s))
        → ((s : S) → R s (g (f s)))
        → Keeps (exec e f >> (exec e g >> return a))
    unfolding exec ◌>>=◌ then_with return
    exec_exec-Keeps e f g a h k = record {
      holds = λ w. elim (Bool-cases (next_fault w.faults)) [
        | inl x ↦ rw x (steady w.state)
        | inr x ↦ rw x (elim (Bool-cases (next_fault (later_faults w.faults))) [
          | inl y ↦ rw y (h w.state)
          | inr y ↦ rw y (k w.state)
        ])
      ];
    }

    rolled_back_keeps :
        {A : Type 0} (s : S) (a : Result E A × Db S) → R s a.1.state → R s (rolled_back s a).1.state
    unfolding rolled_back
    rolled_back_keeps s (ok a, w) h = h
    rolled_back_keeps s (err e, w) h = steady s

    pub transaction-Keeps : {A : Type 0} {m : Action S E A} → Keeps m → Keeps (transaction m)
    unfolding transaction
    transaction-Keeps {m = m} h = record {
      holds = λ w. rolled_back_keeps w.state (m w) (h.holds w);
    }

  module _ {E : Type 0} where
    pub call-Keeps :
        {A : Type 0} (f : S → Result E A × S) → ((s : S) → R s (f s).1) → Keeps (call f)
    unfolding call
    call-Keeps f h = record { holds = λ w. h w.state }

    module _ (follow : (s t u : S) → R s t → R t u → R s u) where
      then_with_keeps :
          {A B : Type 0} (s : S) (f : A → Action S E B) (a : Result E A × Db S)
          → R s a.1.state
          → ((x : A) → Keeps (f x))
          → R s (then_with f a).1.state
      unfolding then_with
      then_with_keeps s f (ok a, w) h k = follow s w.state _ h ((k a).holds w)
      then_with_keeps s f (err e, w) h k = h

      pub bind-Keeps :
          {A B : Type 0} {m : Action S E A} {f : A → Action S E B}
          → Keeps m
          → ((x : A) → Keeps (f x))
          → Keeps (m >>= f)
      unfolding ◌>>=◌
      bind-Keeps {m = m} {f} h k = record {
        holds = λ w. then_with_keeps w.state f (m w) (h.holds w) k;
      }

  pub if-Keeps :
      {E A : Type 0} (b : Bool) {m k : Action S E A}
      → Keeps m
      → Keeps k
      → Keeps (if b then m else k)
  if-Keeps true h h' = h
  if-Keeps false h h' = h'
