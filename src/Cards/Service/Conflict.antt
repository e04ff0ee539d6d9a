-- ===== src/Cards/Service/Conflict.antt =====
-- A clearing under a key that the book holds for other entries.
use aerarium_agentic_banking.Common.{
  String, ◌≡◌, refl, inl, inr, ◌⊎◌, ◌&&◌, false, some, arith, ◌==◌, Result, ok, err, Bool,
  Bool-cases, lookup, List, Dict,
}
use aerarium_agentic_banking.Common.Int.{pos, leb_ℤ, ltb_ℤ}
use aerarium_agentic_banking.Core.Entry.{PostResult}
use aerarium_agentic_banking.Core.Errors.{
  CoreError, idempotency_conflict, unavailable, is_insufficient_funds,
}
use aerarium_agentic_banking.Core.Client.{Core}
use aerarium_agentic_banking.Core.Book.{Posting, find, IsLedger, Refused, Recorded-held}
use aerarium_agentic_banking.Cards.Port.{CardDirectory, ClearingNotification}
use aerarium_agentic_banking.Cards.Store.{
  Status, status_held, Row, Authorization, Table, StoreError, scan,
}
use aerarium_agentic_banking.Cards.Store.Reads.{get_rows}
use aerarium_agentic_banking.Cards.Service.{
  Accounts, ServiceError, ClearingResult, store_error, missing_id, invalid_amount, posting_clearing,
  clear_key, overage_of, after_posting, after_clearing, post_clearing, clear_by_status, clear_read,
  clear,
}
use aerarium_agentic_banking.Cards.Service.Clearing.{clearing_posting, reads_row}

refusal_keeps :
    (e : CoreError) (x : Bool)
    → (e.sentinel ≡ idempotency_conflict) ⊎ (e.sentinel ≡ unavailable)
    → (x && is_insufficient_funds e.sentinel) ≡ false
refusal_keeps e x h = ground arith

module _ (C : Core) (directory : CardDirectory) (accounts : Accounts) (network : String)
    (L : IsLedger C) where
  open L use {book}

  -- An error, with the book and the rows as they were.
  abbrev pub Stuck :
      List Posting
      → Dict Row
      → Result ServiceError ClearingResult
      → List Posting
      → Dict Row
      → Type 0
  Stuck b rows o b' rows' = ((e : ServiceError) × (o ≡ err e)) × (b' ≡ b) × (rows' ≡ rows)

  after_clearing-Stuck :
      (n : ClearingNotification) (a : Authorization) (t : Table)
      (r : Result CoreError PostResult × Core.State C) (b : List Posting)
      → Refused r.0
      → book r.1 ≡ b
      → let (o, (c', t')) = after_clearing C directory accounts network n a t r in
        Stuck b t.rows o (book c') t'.rows
  unfolding after_clearing after_posting
  after_clearing-Stuck n a t (ok p, c) b h same = absurd h
  after_clearing-Stuck n a t (err e, c) b h same =
      rw
        (refusal_keeps e
          (ltb_ℤ (pos 0) (overage_of C directory accounts network a n.final_amount_micros)) h)
        ((posting_clearing e, refl), same, refl)

  module _ (n : ClearingNotification) (a : Authorization) (q : Posting)
      (other : ¬ L.Same (clearing_posting C directory accounts network n a.account_id a) q) where
    clear_by_status-Stuck :
        (x : Status) (c : Core.State C) (t : Table)
        → x ≡ status_held
        → find (clear_key network n.clearing_id) (book c) ≡ some q
        → let (o, (c', t')) = clear_by_status C directory accounts network n a x (c, t) in
          Stuck (book c) t.rows o (book c') t'.rows
    unfolding clear_by_status post_clearing
    clear_by_status-Stuck x c t held known = rw held (
        after_clearing-Stuck n a t _ (book c) (L.conflicts _ _ _ _ c q known other) (
          Recorded-held L.Same (clearing_posting C directory accounts network n a.account_id a)
            (book c) _ _ q known (L.records _ _ _ _ c)))

    clear_read-Stuck :
        (c : Core.State C) (g : Result StoreError Authorization × Table) (rows : Dict Row)
        → ((x : Authorization) → g.0 ≡ ok x → x ≡ a)
        → g.1.rows ≡ rows
        → a.status ≡ status_held
        → find (clear_key network n.clearing_id) (book c) ≡ some q
        → let (o, (c', t')) = clear_read C directory accounts network n c g in
          Stuck (book c) rows o (book c') t'.rows
    unfolding clear_read
    clear_read-Stuck c (ok x, t) rows h same held known =
        rw⁻¹ same (rw (h x refl) (clear_by_status-Stuck a.status c t held known))
    clear_read-Stuck c (err e, t) rows h same held known = ((store_error e, refl), refl, same)

  -- A held authorization whose clearing key the book already holds with another payload, as after
  -- a clearing whose overage the bank advanced and whose row could then not be marked: every
  -- further clearing under that key ends in an error, with the book and the rows as they were, so
  -- the authorization stays held.
  pub clear_conflicts :
      (n : ClearingNotification) (c : Core.State C) (t : Table) (row : Row) (q : Posting)
      → lookup n.network_transaction_id t.rows ≡ some row
      → row.status ≡ status_held
      → find (clear_key network n.clearing_id) (book c) ≡ some q
      → ¬ L.Same
          (clearing_posting C directory accounts network n row.account_id
            (scan n.network_transaction_id row))
          q
      → let (o, (c', t')) = clear C directory accounts network n (c, t) in
        Stuck (book c) t.rows o (book c') t'.rows
  unfolding clear
  clear_conflicts n c t row q there held known other = elim (Bool-cases (n.clearing_id == "")) [
    | inl blank ↦ rw blank ((missing_id, refl), refl, refl)
    | inr given ↦ rw given (elim (Bool-cases (leb_ℤ n.final_amount_micros (pos 0))) [
      | inl bad ↦ rw bad ((invalid_amount n.final_amount_micros, refl), refl, refl)
      | inr good ↦ rw good (
          clear_read-Stuck n (scan n.network_transaction_id row) q other c _ t.rows
            (λ x k. reads_row n.network_transaction_id t row there k)
            (get_rows n.network_transaction_id t) held known)
    ])
  ]
