-- ===== src/Cards/Service/Sound.antt =====
-- Debits equal credits through every operation on cards.
use aerarium_agentic_banking.Common.{
  String, ◌≡◌, refl, inl, inr, ◌&&◌, false, some, arith, ◌==◌, Result, ok, err, Bool-cases, lookup,
}
use aerarium_agentic_banking.Common.Int.{
  ℤ, pos, ◌-ℤ◌, ◌<ℤ◌, leb_ℤ, ltb_ℤ, IsInt64, wrap64, wrap64_of_IsInt64, int_laws,
}
use aerarium_agentic_banking.Core.Entry.{PostResult}
use aerarium_agentic_banking.Core.Errors.{CoreError, is_insufficient_funds}
use aerarium_agentic_banking.Core.Client.{Core}
use aerarium_agentic_banking.Core.Book.{
  IsBalanced, IsSound, IsLedger, post-IsSound, transfer-IsBalanced,
}
use aerarium_agentic_banking.Cards.Port.{
  Card, CardStatus, card_active, card_frozen, card_cancelled, DirectoryError, unknown_card,
  other_failure, CardDirectory, AuthorizationRequest, ClearingNotification, ReversalNotification,
}
use aerarium_agentic_banking.Cards.Store.{
  Status, status_held, status_cleared, status_reversed, Row, Authorization, Table, get, Reservation,
  StoreError, created, existing, reserve,
}
use aerarium_agentic_banking.Cards.Service.{
  Accounts, to_authorization, after_reserve, with_card, after_directory, authorize, overage_of,
  clearing_entries, post_clearing, after_clearing, clear_by_status, clear_read, clear,
  reverse_by_status, reverse_read, reverse,
}
use aerarium_agentic_banking.Cards.Store.Reads.{get-ok}
use aerarium_agentic_banking.Cards.Service.Frame.{
  after_hold_core, after_posting_core, after_release_core,
}

-- An amount as the program admits it: positive, in 64 bits.
abbrev pub IsAmount : ℤ → Type 0
IsAmount a = (pos 0 <ℤ a) × IsInt64 a

-- The table's check on the authorized amount.
abbrev pub IsChecked : Table → Type 0
IsChecked t = (id : String) (r : Row) → lookup id t.rows ≡ some r → IsAmount r.amount_micros

-- The difference of two admitted amounts does not wrap.
pub wrap64-sub : (a b : ℤ) → IsAmount a → IsAmount b → wrap64 (a -ℤ b) ≡ a -ℤ b
wrap64-sub a b (p, (_, q)) (r, (_, s)) = wrap64_of_IsInt64 (a -ℤ b) (omega int_laws, omega int_laws)

pub ltb_ℤ-both_false : (a b : ℤ) → ltb_ℤ a b ≡ false → ltb_ℤ b a ≡ false → a ≡ b
ltb_ℤ-both_false a b h k = ground arith

positive : (a : ℤ) → leb_ℤ a (pos 0) ≡ false → pos 0 <ℤ a
positive a h = ground arith

module _ (C : Core) (directory : CardDirectory) (accounts : Accounts) (network : String) where
  open accounts use {auth_hold_id, settlement_id, overage_id}

  pub clearing-IsBalanced :
      (overage_account : String) (a : Authorization) (final : ℤ)
      → IsAmount a.amount_micros
      → IsAmount final
      → IsBalanced (clearing_entries C directory accounts network overage_account a final)
  clearing-IsBalanced overage_account a final p q c = elim (Bool-cases (a.currency == c)) [
    | inr other ↦ elim (Bool-cases (ltb_ℤ final a.amount_micros)) [
      | inl less ↦ rw (less, other) (omega int_laws)
      | inr not_less ↦ elim (Bool-cases (ltb_ℤ a.amount_micros final)) [
        | inl more ↦ rw (not_less, more, other) (omega int_laws)
        | inr same ↦ rw (not_less, same, other) (omega int_laws)
      ]
    ]
    | inl here ↦ elim (Bool-cases (ltb_ℤ final a.amount_micros)) [
      | inl less ↦ rw (less, here, wrap64-sub a.amount_micros final p q) (omega int_laws)
      | inr not_less ↦ elim (Bool-cases (ltb_ℤ a.amount_micros final)) [
        | inl more ↦
            rw (not_less, more, here, wrap64-sub final a.amount_micros q p) (omega int_laws)
        | inr same ↦
            rw (not_less, same, here, ltb_ℤ-both_false final a.amount_micros not_less same)
              (omega int_laws)
      ]
    ]
  ]

  module _ (L : IsLedger C) where
    open L use {book}

    after_reserve-IsSound :
        (req : AuthorizationRequest) (card : Card) (c : Core.State C)
        (a : Result StoreError Reservation × Table)
        → IsSound (book c)
        → IsSound (book (after_reserve C directory accounts network req card c a).1.0)
    unfolding after_reserve
    after_reserve-IsSound req card c (ok created, t) s = rw after_hold_core (
        post-IsSound C L _ _ _ _ c
          (transfer-IsBalanced card.account_id auth_hold_id req.amount_micros req.currency) s)
    after_reserve-IsSound req card c (ok (existing a), t) s = s
    after_reserve-IsSound req card c (err x, t) s = s

    with_card-IsSound :
        (req : AuthorizationRequest) (card : Card) (x : CardStatus) (w : Core.State C × Table)
        → IsSound (book w.0)
        → IsSound (book (with_card C directory accounts network req card x w).1.0)
    unfolding with_card
    with_card-IsSound req card card_frozen w s = s
    with_card-IsSound req card card_cancelled w s = s
    with_card-IsSound req card card_active (c, t) s =
        after_reserve-IsSound req card c (reserve (to_authorization req card) t) s

    after_directory-IsSound :
        (req : AuthorizationRequest) (d : Result DirectoryError Card) (w : Core.State C × Table)
        → IsSound (book w.0)
        → IsSound (book (after_directory C directory accounts network req d w).1.0)
    unfolding after_directory
    after_directory-IsSound req (ok card) w s = with_card-IsSound req card card.status w s
    after_directory-IsSound req (err unknown_card) w s = s
    after_directory-IsSound req (err other_failure) w s = s

    -- If debits equal credits in every currency over the whole book, they do so after an
    -- authorization, whatever the directory, the table and the core answer.
    pub authorize-IsSound :
        (req : AuthorizationRequest) (w : Core.State C × Table)
        → IsSound (book w.0)
        → IsSound (book (authorize C directory accounts network req w).1.0)
    unfolding authorize
    authorize-IsSound req w s = elim (Bool-cases (req.network_transaction_id == "")) [
      | inl blank ↦ rw blank s
      | inr given ↦ rw given (elim (Bool-cases (leb_ℤ req.amount_micros (pos 0))) [
        | inl bad ↦ rw bad s
        | inr good ↦ rw good (after_directory-IsSound req (directory req.card_id) w s)
      ])
    ]

    module _ (n : ClearingNotification) (a : Authorization) (p : IsAmount a.amount_micros)
        (q : IsAmount n.final_amount_micros) where
      after_clearing-IsSound :
          (t : Table) (r : Result CoreError PostResult × Core.State C)
          → IsSound (book r.1)
          → IsSound (book (after_clearing C directory accounts network n a t r).1.0)
      unfolding after_clearing post_clearing
      after_clearing-IsSound t (ok x, c) s = rw after_posting_core s
      after_clearing-IsSound t (err e, c) s =
          elim (Bool-cases (
            ltb_ℤ (pos 0) (overage_of C directory accounts network a n.final_amount_micros)
            && is_insufficient_funds e.sentinel)) [
              | inl absorbs ↦
                  rw (absorbs, after_posting_core)
                    (post-IsSound C L _ _ _ _ c
                      (clearing-IsBalanced overage_id a n.final_amount_micros p q) s)
              | inr fails ↦ rw (fails, after_posting_core) s
            ]

      clear_by_status-IsSound :
          (x : Status) (w : Core.State C × Table)
          → IsSound (book w.0)
          → IsSound (book (clear_by_status C directory accounts network n a x w).1.0)
      unfolding clear_by_status post_clearing
      clear_by_status-IsSound status_cleared w s = s
      clear_by_status-IsSound status_reversed w s = s
      clear_by_status-IsSound status_held (c, t) s = after_clearing-IsSound t _ (
          post-IsSound C L _ _ _ _ c (clearing-IsBalanced a.account_id a n.final_amount_micros p q)
            s)

    clear_read-IsSound :
        (n : ClearingNotification) (c : Core.State C) (g : Result StoreError Authorization × Table)
        → IsAmount n.final_amount_micros
        → ((a : Authorization) → g.0 ≡ ok a → IsAmount a.amount_micros)
        → IsSound (book c)
        → IsSound (book (clear_read C directory accounts network n c g).1.0)
    unfolding clear_read
    clear_read-IsSound n c (ok a, t) q h s =
        clear_by_status-IsSound n a (h a refl) q a.status (c, t) s
    clear_read-IsSound n c (err x, t) q h s = s

    get-IsAmount :
        (id : String) (t : Table) (a : Authorization)
        → IsChecked t
        → (get id t).0 ≡ ok a
        → IsAmount a.amount_micros
    get-IsAmount id t a k h = let (r, found, same) = get-ok id t h in rw same (k id r found)

    -- If debits equal credits in every currency over the whole book, they do so after a clearing
    -- whose final amount is an int64, when the table's amounts are positive int64s: whichever of the
    -- two amounts is greater, and whoever pays what exceeds the hold.
    pub clear-IsSound :
        (n : ClearingNotification) (c : Core.State C) (t : Table)
        → IsInt64 n.final_amount_micros
        → IsChecked t
        → IsSound (book c)
        → IsSound (book (clear C directory accounts network n (c, t)).1.0)
    unfolding clear
    clear-IsSound n c t i k s = elim (Bool-cases (n.clearing_id == "")) [
      | inl blank ↦ rw blank s
      | inr given ↦ rw given (elim (Bool-cases (leb_ℤ n.final_amount_micros (pos 0))) [
        | inl bad ↦ rw bad s
        | inr good ↦ rw good (
            clear_read-IsSound n c _ (positive n.final_amount_micros good, i)
              (λ a. get-IsAmount n.network_transaction_id t a k) s)
      ])
    ]

    reverse_by_status-IsSound :
        (n : ReversalNotification) (a : Authorization) (x : Status) (w : Core.State C × Table)
        → IsSound (book w.0)
        → IsSound (book (reverse_by_status C directory accounts network n a x w).1.0)
    unfolding reverse_by_status
    reverse_by_status-IsSound n a status_cleared w s = s
    reverse_by_status-IsSound n a status_reversed w s = s
    reverse_by_status-IsSound n a status_held (c, t) s = rw after_release_core (
        post-IsSound C L _ _ _ _ c
          (transfer-IsBalanced auth_hold_id a.account_id a.amount_micros a.currency) s)

    reverse_read-IsSound :
        (n : ReversalNotification) (c : Core.State C) (g : Result StoreError Authorization × Table)
        → IsSound (book c)
        → IsSound (book (reverse_read C directory accounts network n c g).1.0)
    unfolding reverse_read
    reverse_read-IsSound n c (ok a, t) s = reverse_by_status-IsSound n a a.status (c, t) s
    reverse_read-IsSound n c (err x, t) s = s

    -- If debits equal credits in every currency over the whole book, they do so after a reversal,
    -- whatever the table and the core answer.
    pub reverse-IsSound :
        (n : ReversalNotification) (c : Core.State C) (t : Table)
        → IsSound (book c)
        → IsSound (book (reverse C directory accounts network n (c, t)).1.0)
    unfolding reverse
    reverse-IsSound n c t s = reverse_read-IsSound n c (get n.network_transaction_id t) s

    -- Debits equal credits in every currency over the whole book after an authorization, after a
    -- clearing of an int64 amount and after a reversal, if they did before and the table's amounts
    -- are positive int64s, whatever the directory, the table and the core answer.
    pub cards-IsSound :
        (req : AuthorizationRequest) (n : ClearingNotification) (m : ReversalNotification)
        (c : Core.State C) (t : Table)
        → IsInt64 n.final_amount_micros
        → IsChecked t
        → IsSound (book c)
        → IsSound (book (authorize C directory accounts network req (c, t)).1.0)
          × IsSound (book (clear C directory accounts network n (c, t)).1.0)
          × IsSound (book (reverse C directory accounts network m (c, t)).1.0)
    cards-IsSound req n m c t i k s =
        (authorize-IsSound req (c, t) s, clear-IsSound n c t i k s, reverse-IsSound m c t s)
