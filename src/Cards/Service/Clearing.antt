-- ===== src/Cards/Service/Clearing.antt =====
-- What a clearing posts, and who has paid what behind it.
use aerarium_agentic_banking.Common.{
  String, ◌≡◌, refl, sym, ◌∙◌, ap, inl, inr, ◌⊎◌, ◌&&◌, true, false, none, some, List, ◌∷◌, arith,
  ◌==◌, Result, ok, err, Bool, Bool-cases, lookup,
}
use aerarium_agentic_banking.Common.Int.{ℤ, pos, leb_ℤ, ltb_ℤ}
use aerarium_agentic_banking.Core.Entry.{PostResult}
use aerarium_agentic_banking.Core.Errors.{CoreError, unavailable, is_insufficient_funds}
use aerarium_agentic_banking.Core.Client.{Core}
use aerarium_agentic_banking.Core.Book.{Posting, posting, find, IsLedger, New, post-New}
use aerarium_agentic_banking.Cards.Port.{CardDirectory, ClearingNotification}
use aerarium_agentic_banking.Cards.Store.{
  Status, status_held, Row, Authorization, Table, StoreError, scan, get, Done,
}
use aerarium_agentic_banking.Cards.Store.Reads.{get-ok}
use aerarium_agentic_banking.Cards.Service.{
  Accounts, ClearingResult, ServiceError, clear_key, bool_to, overage_of, clearing_entries,
  post_clearing, after_mark_cleared, after_posting, after_clearing, clear_by_status, clear_read,
  clear,
}

-- A refusal for lack of funds has posted nothing.
unchanged :
    (e : CoreError) (b b' made : List Posting) (x : Bool)
    → (x && is_insufficient_funds e.sentinel) ≡ true
    → (b' ≡ b) ⊎ ((e.sentinel ≡ unavailable) × (b' ≡ made))
    → b' ≡ b
unchanged e b b' made x h (inl same) = same
unchanged e b b' made x h (inr (lost, _)) = ground arith

some_injective : {A : Type 0} {x y : A} → some x ≡ some y → x ≡ y
some_injective h = cc

pub reads_row :
    (id : String) (t : Table) (row : Row) {a : Authorization}
    → lookup id t.rows ≡ some row
    → (get id t).0 ≡ ok a
    → a ≡ scan id row
reads_row id t row {a} there g =
    let (r, found, same) = get-ok id t g in same ∙ ap (scan id) (some_injective (sym found ∙ there))

module _ (C : Core) (directory : CardDirectory) (accounts : Accounts) (network : String) where
  open accounts use {auth_hold_id, settlement_id, overage_id}

  abbrev pub clearing_posting : ClearingNotification → String → Authorization → Posting
  clearing_posting n payer a =
      posting (clear_key network n.clearing_id) "card_clearing"
        (clearing_entries C directory accounts network payer a n.final_amount_micros)

  abbrev ByCustomer :
      ClearingNotification → Authorization → List Posting → ℤ → List Posting → Type 0
  ByCustomer n a b overage b' = (overage ≡ pos 0) × (b' ≡ clearing_posting n a.account_id a ∷ b)

  abbrev ByBank : ClearingNotification → Authorization → List Posting → ℤ → List Posting → Type 0
  ByBank n a b overage b' =
      (overage ≡ overage_of C directory accounts network a n.final_amount_micros)
      × (ltb_ℤ (pos 0) overage ≡ true)
      × (b' ≡ clearing_posting n overage_id a ∷ b)

  -- The book behind a clearing that returned a result.
  abbrev pub Cleared :
      ClearingNotification
      → Authorization
      → List Posting
      → Result ServiceError ClearingResult
      → List Posting
      → Type 0
  Cleared n a b (ok o) b' = ByCustomer n a b o.overage_micros b' ⊎ ByBank n a b o.overage_micros b'
  Cleared n a b (err _) b' = Unit

  module _ (L : IsLedger C) (n : ClearingNotification) (a : Authorization) where
    open L use {book}

    after_mark_cleared-Cleared :
        (absorbed : Bool) (p : PostResult) (c : Core.State C) (d : Done × Table) (b : List Posting)
        → ByCustomer n a b
            (bool_to absorbed (overage_of C directory accounts network a n.final_amount_micros))
            (book c)
          ⊎ ByBank n a b
              (bool_to absorbed (overage_of C directory accounts network a n.final_amount_micros))
              (book c)
        → let (o, w) =
            after_mark_cleared C directory accounts network a n.final_amount_micros absorbed p c
              d in
          Cleared n a b o (book w.0)
    unfolding after_mark_cleared
    after_mark_cleared-Cleared absorbed p c (none, t) b h = h
    after_mark_cleared-Cleared absorbed p c (some x, t) b h = tt

    absorbed-Cleared :
        (t : Table) (r : Result CoreError PostResult × Core.State C) (b : List Posting)
        → New (clearing_posting n overage_id a) b r.0 (book r.1)
        → ltb_ℤ (pos 0) (overage_of C directory accounts network a n.final_amount_micros) ≡ true
        → let (o, w) =
            after_posting C directory accounts network a n.final_amount_micros true t r in
          Cleared n a b o (book w.0)
    unfolding after_posting
    absorbed-Cleared t (ok p, c) b (_, made) k =
        after_mark_cleared-Cleared true p c _ b (inr (refl, k, made))
    absorbed-Cleared t (err e, c) b h k = tt

    after_clearing-Cleared :
        (t : Table) (r : Result CoreError PostResult × Core.State C) (b : List Posting)
        → find (clear_key network n.clearing_id) b ≡ none
        → New (clearing_posting n a.account_id a) b r.0 (book r.1)
        → let (o, w) = after_clearing C directory accounts network n a t r in
          Cleared n a b o (book w.0)
    unfolding after_clearing after_posting post_clearing
    after_clearing-Cleared t (ok p, c) b f (_, made) =
        after_mark_cleared-Cleared false p c _ b (inl (refl, made))
    after_clearing-Cleared t (err e, c) b f h =
        elim (Bool-cases (
          ltb_ℤ (pos 0) (overage_of C directory accounts network a n.final_amount_micros)
          && is_insufficient_funds e.sentinel)) [
            | inl absorbs ↦ rw absorbs (
                absorbed-Cleared t _ b
                  (post-New C L _ _ _ _ c b (unchanged e b (book c) _ _ absorbs h) f)
                  (ground arith))
            | inr fails ↦ rw fails tt
          ]

    clear_by_status-Cleared :
        (x : Status) (c : Core.State C) (t : Table)
        → x ≡ status_held
        → find (clear_key network n.clearing_id) (book c) ≡ none
        → let (o, w) = clear_by_status C directory accounts network n a x (c, t) in
          Cleared n a (book c) o (book w.0)
    unfolding clear_by_status post_clearing
    clear_by_status-Cleared x c t e f =
        rw e (after_clearing-Cleared t _ (book c) f (post-New C L _ _ _ _ c (book c) refl f))

  clear_read-Cleared :
      (L : IsLedger C) (n : ClearingNotification) (c : Core.State C)
      (g : Result StoreError Authorization × Table) (a : Authorization)
      → ((x : Authorization) → g.0 ≡ ok x → x ≡ a)
      → a.status ≡ status_held
      → find (clear_key network n.clearing_id) (IsLedger.book L c) ≡ none
      → let (o, w) = clear_read C directory accounts network n c g in
        Cleared n a (IsLedger.book L c) o (IsLedger.book L w.0)
  unfolding clear_read
  clear_read-Cleared L n c (ok x, t) a h held f =
      rw (h x refl) (clear_by_status-Cleared L n a a.status c t held f)
  clear_read-Cleared L n c (err e, t) a h held f = tt

  -- A clearing of a held authorization under a new key that returns a result has made one posting,
  -- either of the customer's account, with no overage, or of the bank's, with an overage.
  pub clear-Cleared :
      (L : IsLedger C) (n : ClearingNotification) (c : Core.State C) (t : Table) (row : Row)
      → lookup n.network_transaction_id t.rows ≡ some row
      → row.status ≡ status_held
      → find (clear_key network n.clearing_id) (IsLedger.book L c) ≡ none
      → let (o, w) = clear C directory accounts network n (c, t) in
        Cleared n (scan n.network_transaction_id row) (IsLedger.book L c) o (IsLedger.book L w.0)
  unfolding clear
  clear-Cleared L n c t row there held f = elim (Bool-cases (n.clearing_id == "")) [
    | inl blank ↦ rw blank tt
    | inr given ↦ rw given (elim (Bool-cases (leb_ℤ n.final_amount_micros (pos 0))) [
      | inl bad ↦ rw bad tt
      | inr good ↦ rw good (
          clear_read-Cleared L n c _ (scan n.network_transaction_id row)
            (λ x k. reads_row n.network_transaction_id t row there k) held f)
    ])
  ]
