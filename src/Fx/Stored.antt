-- ===== src/Fx/Stored.antt =====
-- A quote that is returned is on the table.
use aerarium_agentic_banking.Common.{
  ℕ, String, ◌≡◌, refl, inl, inr, false, Option, none, some, ◌==◌, ◌||◌, arith, Result, ok, err,
  Bool-cases, lookup, lookup-insert, eq_refl,
}
use aerarium_agentic_banking.Common.Int.{ℤ, pos, ◌<ℤ◌, leb_ℤ}
use aerarium_agentic_banking.Core.Client.{Core, Account}
use aerarium_agentic_banking.Fx.{
  Quote, Row, Table, FxError, next_fault, truncated, finish, priced, breaks_constraint,
  insert_quote, after_priced, after_pair, owned_pair, quote,
}

finish-positive : (a b : Option ℤ) {to cost : ℤ} → finish a b ≡ ok (to, cost) → pos 0 <ℤ to
unfolding finish
finish-positive none b h = cc
finish-positive (some a) none h = cc
finish-positive (some a) (some b) {to} {cost} h = elim (Bool-cases (leb_ℤ (truncated a) (pos 0))) [
  | inl small ↦ let z = rw small at h in cc
  | inr enough ↦ let z = rw enough at h in positive (truncated a) to (first z) enough
]
  where
    first : {x y : ℤ × ℤ} → ◌≡◌ {A = Result FxError (ℤ × ℤ)} (ok x) (ok y) → x.0 ≡ y.0
    first h = cc

    positive : (x y : ℤ) → x ≡ y → leb_ℤ x (pos 0) ≡ false → pos 0 <ℤ y
    positive x y e h = let p : pos 0 <ℤ x = ground arith in rw e at p

abbrev pub new_row : String → Quote → Row
new_row customer_id q = record { customer_id = customer_id; quote = q; transaction_id = none }

module _ (C : Core) (rate_text : ℤ → String) where
  -- The row of a quote, and what the quote promises.
  abbrev pub Stored : String → ℤ → Result FxError Quote → Table → Type 0
  Stored customer_id from_micros (err e) t = Unit
  Stored customer_id from_micros (ok q) t =
      (lookup q.id t.rows ≡ some (new_row customer_id q))
      × (q.from_micros ≡ from_micros)
      × (pos 0 <ℤ q.to_micros)

  insert_quote-Stored :
      (customer_id : String) (q : Quote) (t : Table)
      → pos 0 <ℤ q.to_micros
      → let (o, t') = insert_quote C rate_text customer_id q t in
        Stored customer_id q.from_micros o t'
  unfolding insert_quote
  insert_quote-Stored customer_id q t p =
      elim (Bool-cases (next_fault t.faults || breaks_constraint C rate_text q t)) [
        | inl fails ↦ rw fails tt
        | inr works ↦
            rw (works, lookup-insert q.id q.id (new_row customer_id q) t.rows, eq_refl q.id)
              (refl, refl, p)
      ]

  after_priced-Stored :
      (customer_id : String) (q : Quote) (r : Result FxError (ℤ × ℤ)) (c : Core.State C) (t : Table)
      → ((to cost : ℤ) → r ≡ ok (to, cost) → pos 0 <ℤ to)
      → let (o, (c', t')) = after_priced C rate_text customer_id q r c t in
        Stored customer_id q.from_micros o t'
  unfolding after_priced
  after_priced-Stored customer_id q (err e) c t h = tt
  after_priced-Stored customer_id q (ok (to, cost)) c t h =
      insert_quote-Stored customer_id (record q { to_micros = to; cost_micros = cost }) t
        (h to cost refl)

  after_pair-Stored :
      (customer_id from_id to_id : String) (spread_bps : ℤ) (reference : Result FxError ℤ)
      (from_micros : ℤ) (id : String) (now : ℕ)
      (a : Result FxError (Account × Account) × Core.State C) (t : Table)
      → let (o, (c', t')) =
          after_pair C rate_text customer_id from_id to_id spread_bps reference from_micros id now a
            t in
        Stored customer_id from_micros o t'
  unfolding after_pair
  after_pair-Stored customer_id from_id to_id spread_bps reference from_micros id now (err e, c) t =
      tt
  after_pair-Stored customer_id from_id to_id spread_bps (err e) from_micros id now (ok p, c) t = tt
  after_pair-Stored customer_id from_id to_id spread_bps (ok reference) from_micros id now
        (ok (from, to), c) t =
      after_priced-Stored customer_id _
        (priced reference spread_bps (from.currency == "USD") from_micros) c t
        (λ x y h. finish-positive _ _ h)

  -- A quote that is returned is on the table, as the customer's and not executed; it takes the
  -- amount that was asked for, and gives a positive one.
  pub quote-Stored :
      (customer_id from_id to_id : String) (spread_bps : ℤ) (reference : Result FxError ℤ)
      (from_micros : ℤ) (id : String) (now : ℕ) (c : Core.State C) (t : Table)
      → let (o, (c', t')) =
          quote C rate_text customer_id from_id to_id spread_bps reference from_micros id now
            (c, t) in
        Stored customer_id from_micros o t'
  unfolding quote
  quote-Stored customer_id from_id to_id spread_bps reference from_micros id now c t =
      after_pair-Stored customer_id from_id to_id spread_bps reference from_micros id now
        (owned_pair C rate_text customer_id from_id to_id c) t
