-- ===== src/Fx.antt =====
-- services/fx/fx.go: money is changed between a customer's own accounts, at a quoted rate. A
-- statement on the table of quotes may fail, and then changes nothing; the reference rate, the
-- clock and the generated identifier are arguments.
pub mod Convert
pub mod Stored
mod Tests
use Prim.Native.String.{◌++◌}
use aerarium_agentic_banking.Common.{
  ℕ, ◌+◌, ◌*◌, ◌/◌, String, Bool, true, false, ◌||◌, ◌&&◌, not, Option, none, some, List, [], ◌∷◌,
  ◌==◌, eqb, ltb, if◌then◌else◌, Result, ok, err, Dict, lookup, insert,
}
use aerarium_agentic_banking.Common.Int.{
  ℤ, pos, pos_part, neg_part, ◌+ℤ◌, ◌-ℤ◌, ltb_ℤ, leb_ℤ, wrap64,
}
use aerarium_agentic_banking.Core.Entry.{Entry, PostResult, debit, credit}
use aerarium_agentic_banking.Core.Errors.{CoreError}
use aerarium_agentic_banking.Core.Client.{Core, Account, post, get_account, get_account_by_id}

-- In the clock's unit.
abbrev pub quote_ttl : ℕ
quote_ttl = 30

abbrev pub position_prefix : String
position_prefix = "FX-POSITION-"

pub data FxError : Type 0 where
  not_found expired same_currency wrong_pair not_owned too_small statement_failed : FxError
  division_by_zero rate_failed : FxError
  core_failed : CoreError → FxError

pub record Quote : Type 0 where
  pub id : String
  pub from_account_id : String
  pub to_account_id : String
  pub from_currency : String
  pub to_currency : String
  pub from_micros : ℤ
  pub to_micros : ℤ
  pub reference_rate : ℤ
  pub applied_rate : ℤ
  pub cost_micros : ℤ
  pub expires_at : ℕ

-- A row of `fx.quotes`.
pub record Row : Type 0 where
  pub customer_id : String
  pub quote : Quote
  pub transaction_id : Option String

pub record Table : Type 0 where
  pub rows : Dict Row
  pub faults : List Bool

abbrev pub next_fault : List Bool → Bool
next_fault [] = false
next_fault (f ∷ _) = f

abbrev later_faults : List Bool → List Bool
later_faults [] = []
later_faults (_ ∷ fs) = fs

abbrev executed : Table → Table
executed t = record t { faults = later_faults t.faults }

-- The product of two integers, and the quotient that truncates towards zero.
abbrev pub product : ℤ → ℤ → ℤ
product a b =
    pos (pos_part a * pos_part b + neg_part a * neg_part b)
    -ℤ pos (pos_part a * neg_part b + neg_part a * pos_part b)

abbrev pub magnitude : ℤ → ℕ
magnitude a = pos_part a + neg_part a

-- One of the two parts of an integer is zero.
abbrev pub quotient : ℤ → ℤ → ℤ
quotient a c =
    product (pos (pos_part a / magnitude c) -ℤ pos (neg_part a / magnitude c))
      (if ltb_ℤ c (pos 0) then pos 0 -ℤ pos 1 else pos 1)

-- The remainder that goes with it.
abbrev pub remainder : ℤ → ℤ → ℤ
remainder a c = a -ℤ product (quotient a c) c

-- `a * b / c` without overflow in between; a division by zero panics.
abbrev pub mul_div : ℤ → ℤ → ℤ → Option ℤ
mul_div a b c = if eqb (magnitude c) 0 then none else some (wrap64 (quotient (product a b) c))

-- The applied rate: the reference with the spread against the customer.
abbrev pub applied : ℤ → ℤ → Bool → ℤ
applied reference spread_bps sells_usd = wrap64 (
    quotient
      (wrap64 (
        product reference (
          if sells_usd
          then wrap64 (pos 10000 -ℤ spread_bps)
          else wrap64 (pos 10000 +ℤ spread_bps))))
      (pos 10000))

-- What is received at the applied rate, and what the reference would have given.
pub record Price : Type 0 where
  pub rate : ℤ
  pub to_micros : Option ℤ
  pub at_reference : Option ℤ

abbrev pub price : ℤ → ℤ → Bool → ℤ → Price
price reference spread_bps sells_usd from_micros =
    let rate = applied reference spread_bps sells_usd in
    if sells_usd
    then record {
      rate = rate;
      to_micros = mul_div from_micros rate (pos 1000000);
      at_reference = mul_div from_micros reference (pos 1000000);
    }
    else record {
      rate = rate;
      to_micros = mul_div from_micros (pos 1000000) rate;
      at_reference = mul_div from_micros (pos 1000000) reference;
    }

-- Cut to a hundredth of the currency's unit.
abbrev pub truncated : ℤ → ℤ
truncated to = wrap64 (to -ℤ remainder to (pos 10000))

-- What is received, and the cost, in the currency that is received.
unfoldable pub finish : Option ℤ → Option ℤ → Result FxError (ℤ × ℤ)
finish (some to) (some at_reference) =
    if leb_ℤ (truncated to) (pos 0)
    then err too_small
    else ok (truncated to, wrap64 (at_reference -ℤ truncated to))
finish none _ = err division_by_zero
finish (some _) none = err division_by_zero

abbrev pub priced : ℤ → ℤ → Bool → ℤ → Result FxError (ℤ × ℤ)
priced reference spread_bps sells_usd from_micros =
    let p = price reference spread_bps sells_usd from_micros in finish p.to_micros p.at_reference

-- The two accounts, owned, main ones and of the two currencies.
abbrev pub pair_check : String → Account → Account → Option FxError
pair_check customer_id from to =
    if not (from.owner_id == customer_id)
      || not (to.owner_id == customer_id)
      || not (from.parent_account_id == "")
      || not (to.parent_account_id == "")
    then some not_owned
    else if from.currency == to.currency
    then some same_currency
    else if not (from.currency ++ to.currency == "USDPEN")
        && not (from.currency ++ to.currency == "PENUSD")
    then some wrong_pair
    else none

abbrev pub convert_entries : Quote → String → String → List Entry
convert_entries q from_position to_position =
    debit q.from_account_id q.from_micros q.from_currency
    ∷ credit from_position q.from_micros q.from_currency
    ∷ debit to_position q.to_micros q.to_currency
    ∷ credit q.to_account_id q.to_micros q.to_currency
    ∷ []

-- `UPDATE … WHERE id = $1 AND transaction_id IS NULL`
abbrev set_transaction : String → String → Option Row → Dict Row → Dict Row
set_transaction id tx none m = m
set_transaction id tx (some r) m = elim r.transaction_id [
  | none ↦ insert id (record r { transaction_id = some tx }) m
  | some _ ↦ m
]

abbrev is_null : Option String → Bool
is_null none = true
is_null (some _) = false

-- The row of a quote, if it is the customer's.
abbrev pub owned_row : String → Option Row → Option Row
owned_row customer_id none = none
owned_row customer_id (some r) = if r.customer_id == customer_id then some r else none

abbrev has_row : Option Row → Bool
has_row none = false
has_row (some _) = true

module _ (C : Core) (rate_text : ℤ → String) where
  abbrev pub World : Type 0
  World = Core.State C × Table

  after_get_to :
      String
      → Result CoreError Account × Core.State C
      → Account
      → Result FxError (Account × Account) × Core.State C
  after_get_to customer_id (err _, c) from = (err not_owned, c)
  after_get_to customer_id (ok to, c) from = elim (pair_check customer_id from to) [
    | none ↦ (ok (from, to), c)
    | some e ↦ (err e, c)
  ]

  after_get_from :
      String
      → String
      → Result CoreError Account × Core.State C
      → Result FxError (Account × Account) × Core.State C
  after_get_from customer_id to_id (err _, c) = (err not_owned, c)
  after_get_from customer_id to_id (ok from, c) =
      after_get_to customer_id (get_account_by_id C to_id c) from

  unfoldable pub owned_pair :
      String → String → String → Core.State C → Result FxError (Account × Account) × Core.State C
  unfolding after_get_from after_get_to
  owned_pair customer_id from_id to_id c =
      after_get_from customer_id to_id (get_account_by_id C from_id c)

  -- The key of the table, and its checks on the two amounts.
  breaks_constraint : Quote → Table → Bool
  breaks_constraint q t =
      has_row (lookup q.id t.rows) || (leb_ℤ q.from_micros (pos 0) || leb_ℤ q.to_micros (pos 0))

  insert_quote : String → Quote → Table → Result FxError Quote × Table
  unfolding breaks_constraint
  insert_quote customer_id q t =
      if next_fault t.faults || breaks_constraint q t then (err statement_failed, executed t) else (
        ok q,
        record (executed t) {
          rows =
              insert q.id (record { customer_id = customer_id; quote = q; transaction_id = none })
                t.rows;
        },
      )

  after_priced :
      String → Quote → Result FxError (ℤ × ℤ) → Core.State C → Table → Result FxError Quote × World
  after_priced customer_id q (err e) c t = (err e, (c, t))
  after_priced customer_id q (ok (to, cost)) c t =
      let (r, t') = insert_quote customer_id (record q { to_micros = to; cost_micros = cost }) t in
      (r, (c, t'))

  after_pair :
      String
      → String
      → String
      → ℤ
      → Result FxError ℤ
      → ℤ
      → String
      → ℕ
      → Result FxError (Account × Account) × Core.State C
      → Table
      → Result FxError Quote × World
  after_pair customer_id from_id to_id spread_bps reference from_micros id now (err e, c) t =
      (err e, (c, t))
  after_pair customer_id from_id to_id spread_bps (err e) from_micros id now (ok _, c) t =
      (err rate_failed, (c, t))
  after_pair customer_id from_id to_id spread_bps (ok reference) from_micros id now
        (ok (from, to), c) t =
      let sells = from.currency == "USD" in
      after_priced customer_id
        (record {
          id = id;
          from_account_id = from_id;
          to_account_id = to_id;
          from_currency = from.currency;
          to_currency = to.currency;
          from_micros = from_micros;
          to_micros = pos 0;
          reference_rate = reference;
          applied_rate = applied reference spread_bps sells;
          cost_micros = pos 0;
          expires_at = now + quote_ttl;
        })
        (priced reference spread_bps sells from_micros) c t

  unfoldable pub quote :
      String
      → String
      → String
      → ℤ
      → Result FxError ℤ
      → ℤ
      → String
      → ℕ
      → World
      → Result FxError Quote × World
  unfolding after_pair after_priced insert_quote
  quote customer_id from_id to_id spread_bps reference from_micros id now (c, t) =
      after_pair customer_id from_id to_id spread_bps reference from_micros id now
        (owned_pair customer_id from_id to_id c) t

  -- The quote's identifier is that of its row; `after_update` also when nothing was updated.
  after_update :
      Quote → PostResult → Core.State C → Table → Result FxError (Quote × PostResult) × World
  after_update q p c t = if next_fault t.faults then (err statement_failed, (c, executed t)) else (
    ok (q, p),
    (
      c,
      record (executed t) {
        rows = set_transaction q.id p.transaction_id (lookup q.id t.rows) t.rows;
      },
    ),
  )

  after_convert :
      Quote
      → Result CoreError PostResult × Core.State C
      → Table
      → Result FxError (Quote × PostResult) × World
  after_convert q (err e, c) t = (err (core_failed e), (c, t))
  after_convert q (ok p, c) t = after_update q p c t

  after_to_position :
      Quote
      → Account
      → Result CoreError Account × Core.State C
      → Table
      → Result FxError (Quote × PostResult) × World
  after_to_position q from (err e, c) t = (err (core_failed e), (c, t))
  after_to_position q from (ok to, c) t =
      after_convert q
        (post C ("fx:" ++ q.id) "fx_conversion" (convert_entries q from.id to.id)
          ("Cambio a " ++ (q.to_currency ++ (" · " ++ (rate_text q.applied_rate ++ " por dólar"))))
          c)
        t

  after_from_position :
      Quote
      → Result CoreError Account × Core.State C
      → Table
      → Result FxError (Quote × PostResult) × World
  after_from_position q (err e, c) t = (err (core_failed e), (c, t))
  after_from_position q (ok from, c) t =
      after_to_position q from (get_account C (position_prefix ++ q.to_currency) c) t

  with_row : ℕ → Option Row → World → Result FxError (Quote × PostResult) × World
  with_row now none w = (err not_found, w)
  with_row now (some r) (c, t) =
      if is_null r.transaction_id && ltb r.quote.expires_at now
      then (err expired, (c, t))
      else after_from_position r.quote (get_account C (position_prefix ++ r.quote.from_currency) c)
          t

  -- What does not parse as an identifier is in no row.
  unfoldable pub convert : String → String → ℕ → World → Result FxError (Quote × PostResult) × World
  unfolding with_row after_from_position after_to_position after_convert after_update
  convert customer_id quote_id now (c, t) =
      if next_fault t.faults
      then (err statement_failed, (c, executed t))
      else with_row now (owned_row customer_id (lookup quote_id t.rows)) (c, executed t)
