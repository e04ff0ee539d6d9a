-- ===== src/Fx/Convert.antt =====
-- What executing a quote does to the book.
use Prim.Native.String.{◌++◌}
use aerarium_agentic_banking.Common.{
  ℕ, String, ◌≡◌, refl, ◌∙◌, ap, inl, inr, ◌&&◌, Option, none, some, List, ltb, Result, ok, err,
  Bool-cases, lookup, ◌==◌,
}
use aerarium_agentic_banking.Common.Int.{ℤ, int_laws}
use aerarium_agentic_banking.Core.Entry.{PostResult}
use aerarium_agentic_banking.Core.Errors.{CoreError}
use aerarium_agentic_banking.Core.Client.{Core, Account, post}
use aerarium_agentic_banking.Core.Book.{
  Posting, Recorded-held, find, IsBalanced, IsSound, IsLedger, post-IsSound, posting,
}
use aerarium_agentic_banking.Fx.{
  Quote, Row, Table, next_fault, is_null, owned_row, position_prefix, convert_entries, after_update,
  after_convert, after_to_position, after_from_position, with_row, convert,
}

convert-IsBalanced : (q : Quote) (a b : String) → IsBalanced (convert_entries q a b)
convert-IsBalanced q a b c = elim (Bool-cases (q.from_currency == c)) [
  | inl from ↦ elim (Bool-cases (q.to_currency == c)) [
    | inl to ↦ rw (from, to) (omega int_laws)
    | inr other ↦ rw (from, other) (omega int_laws)
  ]
  | inr not_from ↦ elim (Bool-cases (q.to_currency == c)) [
    | inl to ↦ rw (not_from, to) (omega int_laws)
    | inr other ↦ rw (not_from, other) (omega int_laws)
  ]
]

module _ (C : Core) (rate_text : ℤ → String) (L : IsLedger C) where
  open L use {book}

  after_update_core :
      (q : Quote) (p : PostResult) (c : Core.State C) (t : Table)
      → (after_update C rate_text q p c t).1.0 ≡ c
  unfolding after_update
  after_update_core q p c t = elim (Bool-cases (next_fault t.faults)) [
    | inl fails ↦ rw fails refl
    | inr works ↦ rw works refl
  ]

  after_convert_core :
      (q : Quote) (a : Result CoreError PostResult × Core.State C) (t : Table)
      → (after_convert C rate_text q a t).1.0 ≡ a.1
  unfolding after_convert
  after_convert_core q (ok p, c) t = after_update_core q p c t
  after_convert_core q (err e, c) t = refl

  -- What the book of a conversion is, by what holds after each call.
  module _ (Fits : List Posting → Type 0) (q : Quote)
      (posts : (a b text : String) (c : Core.State C)
        → Fits (book c)
        → Fits
            (book (post C ("fx:" ++ q.id) "fx_conversion" (convert_entries q a b) text c).1)) where
    after_to_position-Fits :
        (from : Account) (a : Result CoreError Account × Core.State C) (t : Table)
        → Fits (book a.1)
        → Fits (book (after_to_position C rate_text q from a t).1.0)
    unfolding after_to_position
    after_to_position-Fits from (ok to, c) t h = rw after_convert_core (posts from.id to.id _ c h)
    after_to_position-Fits from (err e, c) t h = h

    after_from_position-Fits :
        (a : Result CoreError Account × Core.State C) (t : Table)
        → Fits (book a.1)
        → Fits (book (after_from_position C rate_text q a t).1.0)
    unfolding after_from_position
    after_from_position-Fits (ok from, c) t h =
        after_to_position-Fits from _ t
          (rw (L.get_account_reads (position_prefix ++ q.to_currency) c) h)
    after_from_position-Fits (err e, c) t h = h

    with_row-Fits :
        (now : ℕ) (r : Row) (c : Core.State C) (t : Table)
        → r.quote ≡ q
        → Fits (book c)
        → Fits (book (with_row C rate_text now (some r) (c, t)).1.0)
    unfolding with_row
    with_row-Fits now r c t e h =
        elim (Bool-cases (is_null r.transaction_id && ltb r.quote.expires_at now)) [
          | inl late ↦ rw late h
          | inr valid ↦
              rw (valid, e)
                (after_from_position-Fits _ t
                  (rw (L.get_account_reads (position_prefix ++ q.from_currency) c) h))
        ]

  with_owned-Fits :
      (Fits : List Posting → Type 0) (now : ℕ) (o : Option Row) (c : Core.State C) (t : Table)
      → ((q : Quote) (a b text : String) (d : Core.State C)
          → Fits (book d)
          → Fits (book (post C ("fx:" ++ q.id) "fx_conversion" (convert_entries q a b) text d).1))
      → Fits (book c)
      → Fits (book (with_row C rate_text now o (c, t)).1.0)
  unfolding with_row
  with_owned-Fits Fits now none c t posts h = h
  with_owned-Fits Fits now (some r) c t posts h =
      with_row-Fits Fits r.quote (posts r.quote) now r c t refl h

  -- If debits equal credits in every currency over the whole book, they do so after the execution
  -- of a quote, which moves two currencies, whatever the table and the core answer.
  pub convert-IsSound :
      (customer_id quote_id : String) (now : ℕ) (c : Core.State C) (t : Table)
      → IsSound (book c)
      → IsSound (book (convert C rate_text customer_id quote_id now (c, t)).1.0)
  unfolding convert
  convert-IsSound customer_id quote_id now c t s = elim (Bool-cases (next_fault t.faults)) [
    | inl fails ↦ rw fails s
    | inr works ↦ rw works (
        with_owned-Fits IsSound now _ c _
          (λ q a b text d k. post-IsSound C L _ _ _ _ d (convert-IsBalanced q a b) k) s)
  ]

  with_row_again :
      (now : ℕ) (r : Row) (c : Core.State C) (t : Table) (p : Posting)
      → find ("fx:" ++ r.quote.id) (book c) ≡ some p
      → book (with_row C rate_text now (some r) (c, t)).1.0 ≡ book c
  with_row_again now r c t p h =
      with_row-Fits (λ b. b ≡ book c) r.quote
        (λ a b text d e.
          Recorded-held L.Same
            (posting ("fx:" ++ r.quote.id) "fx_conversion" (convert_entries r.quote a b)) (book d) _
            _ p (ap (find ("fx:" ++ r.quote.id)) e ∙ h)
            (L.records ("fx:" ++ r.quote.id) "fx_conversion" (convert_entries r.quote a b) text d)
          ∙ e)
        now r c t refl refl

  owned_again :
      (customer_id : String) (now : ℕ) (r : Row) (c : Core.State C) (t : Table) (p : Posting)
      → find ("fx:" ++ r.quote.id) (book c) ≡ some p
      → book (with_row C rate_text now (owned_row customer_id (some r)) (c, t)).1.0 ≡ book c
  unfolding with_row
  owned_again customer_id now r c t p h = elim (Bool-cases (r.customer_id == customer_id)) [
    | inl own ↦ rw own (with_row_again now r c t p h)
    | inr foreign ↦ rw foreign refl
  ]

  -- Once the book holds a posting under a quote's key, executing the quote again changes nothing
  -- in the book, whoever asks, whenever, whatever the table has kept of the first execution, and
  -- however the calls end.
  pub convert_again :
      (customer_id quote_id : String) (now : ℕ) (c : Core.State C) (t : Table) (r : Row)
      (p : Posting)
      → lookup quote_id t.rows ≡ some r
      → find ("fx:" ++ r.quote.id) (book c) ≡ some p
      → book (convert C rate_text customer_id quote_id now (c, t)).1.0 ≡ book c
  unfolding convert
  convert_again customer_id quote_id now c t r p h k = elim (Bool-cases (next_fault t.faults)) [
    | inl fails ↦ rw fails refl
    | inr works ↦ rw (works, h) (owned_again customer_id now r c _ p k)
  ]
