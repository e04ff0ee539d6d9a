-- ===== src/Cards/Service/Terminal.antt =====
-- An authorization that was cleared or reversed stays as it is.
use aerarium_agentic_banking.Common.{
  String, ◌≡◌, refl, inl, inr, ◌&&◌, true, false, none, some, ◌==◌, Result, ok, err, Bool,
  Bool-cases, lookup,
}
use aerarium_agentic_banking.Common.Int.{ℤ, pos, leb_ℤ, ltb_ℤ}
use aerarium_agentic_banking.Core.Entry.{PostResult}
use aerarium_agentic_banking.Core.Errors.{CoreError, is_insufficient_funds}
use aerarium_agentic_banking.Core.Client.{Core}
use aerarium_agentic_banking.Cards.Port.{
  Card, CardStatus, card_active, card_frozen, card_cancelled, DirectoryError, unknown_card,
  other_failure, CardDirectory, AuthorizationRequest, ClearingNotification, ReversalNotification,
}
use aerarium_agentic_banking.Cards.Store.{
  Status, status_held, status_cleared, status_reversed, Row, Authorization, Table, get, Reservation,
  StoreError, created, existing,
}
use aerarium_agentic_banking.Cards.Service.{
  Accounts, to_authorization, after_hold, after_reserve, with_card, after_directory, authorize,
  overage_of, after_posting, after_clearing, clear_by_status, clear_read, clear, after_release,
  reverse_by_status, reverse_read, reverse,
}
use aerarium_agentic_banking.Common.{◌≢◌, ◌∙◌, eq_iff}
use aerarium_agentic_banking.Cards.Store.Reads.{
  get-ok, get_rows, mark_held_frame, mark_cleared_frame, mark_reversed_frame, drop_frame,
  reserve-created, reserve_known, reserve_frame,
}
use aerarium_agentic_banking.Cards.Service.Frame.{
  after_drop_keeps, after_mark_held_keeps, after_mark_cleared_keeps, after_mark_reversed_keeps,
}

module _ (C : Core) (directory : CardDirectory) (accounts : Accounts) (network : String) where
  module _ (id : String) (row : Row) where
    after_hold_rows :
        (req : AuthorizationRequest) (t : Table) (a : Result CoreError PostResult × Core.State C)
        → (req.network_transaction_id == id) ≡ false
        → lookup id (after_hold C directory accounts network req t a).1.1.rows ≡ lookup id t.rows
    unfolding after_hold
    after_hold_rows req t (ok p, c) h =
        rw after_mark_held_keeps
          (mark_held_frame req.network_transaction_id id p.transaction_id t h)
    after_hold_rows req t (err e, c) h =
        rw after_drop_keeps (drop_frame req.network_transaction_id id t h)

    after_reserve_rows :
        (req : AuthorizationRequest) (card : Card) (c : Core.State C)
        (a : Result StoreError Reservation × Table)
        → (a.0 ≡ ok created → (req.network_transaction_id == id) ≡ false)
        → lookup id (after_reserve C directory accounts network req card c a).1.1.rows
          ≡ lookup id a.1.rows
    unfolding after_reserve
    after_reserve_rows req card c (ok created, t) h = after_hold_rows req t _ (h refl)
    after_reserve_rows req card c (ok (existing a), t) h = refl
    after_reserve_rows req card c (err x, t) h = refl

    with_card_rows :
        (req : AuthorizationRequest) (card : Card) (x : CardStatus) (c : Core.State C) (t : Table)
        → lookup id t.rows ≡ some row
        → lookup id (with_card C directory accounts network req card x (c, t)).1.1.rows ≡ some row
    unfolding with_card
    with_card_rows req card card_frozen c t h = h
    with_card_rows req card card_cancelled c t h = h
    with_card_rows req card card_active c t h =
        elim (Bool-cases (req.network_transaction_id == id)) [
          | inl same ↦
              let e = (eq_iff req.network_transaction_id id).0 same in
              let known : lookup req.network_transaction_id t.rows ≢ none = λ k. cc in
              after_reserve_rows req card c _
                (λ k. absurd (known (reserve-created (to_authorization req card) t k).0))
              ∙ rw (reserve_known (to_authorization req card) t known) h
          | inr other ↦
              after_reserve_rows req card c _ (λ k. other)
              ∙ reserve_frame id (to_authorization req card) t other
              ∙ h
        ]

    after_directory_rows :
        (req : AuthorizationRequest) (d : Result DirectoryError Card) (c : Core.State C) (t : Table)
        → lookup id t.rows ≡ some row
        → lookup id (after_directory C directory accounts network req d (c, t)).1.1.rows ≡ some row
    unfolding after_directory
    after_directory_rows req (ok card) c t h = with_card_rows req card card.status c t h
    after_directory_rows req (err unknown_card) c t h = h
    after_directory_rows req (err other_failure) c t h = h

    -- An authorization, of the same purchase or of another, leaves every row that was there as it
    -- was, whatever the row's status and however the authorization ends.
    pub authorize_keeps_rows :
        (req : AuthorizationRequest) (c : Core.State C) (t : Table)
        → lookup id t.rows ≡ some row
        → lookup id (authorize C directory accounts network req (c, t)).1.1.rows ≡ some row
    unfolding authorize
    authorize_keeps_rows req c t h = elim (Bool-cases (req.network_transaction_id == "")) [
      | inl blank ↦ rw blank h
      | inr given ↦ rw given (elim (Bool-cases (leb_ℤ req.amount_micros (pos 0))) [
        | inl bad ↦ rw bad h
        | inr good ↦ rw good (after_directory_rows req (directory req.card_id) c t h)
      ])
    ]

    after_posting_rows :
        (a : Authorization) (final : ℤ) (absorbed : Bool) (t : Table)
        (p : Result CoreError PostResult × Core.State C)
        → (a.network_transaction_id == id) ≡ false
        → lookup id (after_posting C directory accounts network a final absorbed t p).1.1.rows
          ≡ lookup id t.rows
    unfolding after_posting
    after_posting_rows a final absorbed t (ok p, c) h =
        rw after_mark_cleared_keeps (mark_cleared_frame a.network_transaction_id id final _ t h)
    after_posting_rows a final absorbed t (err e, c) h = refl

    after_clearing_rows :
        (n : ClearingNotification) (a : Authorization) (t : Table)
        (p : Result CoreError PostResult × Core.State C)
        → (a.network_transaction_id == id) ≡ false
        → lookup id (after_clearing C directory accounts network n a t p).1.1.rows
          ≡ lookup id t.rows
    unfolding after_clearing
    after_clearing_rows n a t (ok p, c) h =
        after_posting_rows a n.final_amount_micros false t (ok p, c) h
    after_clearing_rows n a t (err e, c) h =
        elim (Bool-cases (
          ltb_ℤ (pos 0) (overage_of C directory accounts network a n.final_amount_micros)
          && is_insufficient_funds e.sentinel)) [
            | inl absorbs ↦ rw absorbs (after_posting_rows a n.final_amount_micros true t _ h)
            | inr fails ↦ rw fails (after_posting_rows a n.final_amount_micros false t (err e, c) h)
          ]

    clear_by_status_rows :
        (n : ClearingNotification) (a : Authorization) (x : Status) (c : Core.State C) (t : Table)
        → (x ≡ status_held → (a.network_transaction_id == id) ≡ false)
        → lookup id (clear_by_status C directory accounts network n a x (c, t)).1.1.rows
          ≡ lookup id t.rows
    unfolding clear_by_status
    clear_by_status_rows n a status_held c t h = after_clearing_rows n a t _ (h refl)
    clear_by_status_rows n a status_cleared c t h = refl
    clear_by_status_rows n a status_reversed c t h = refl

    clear_read_rows :
        (n : ClearingNotification) (c : Core.State C) (g : Result StoreError Authorization × Table)
        → ((a : Authorization)
            → g.0 ≡ ok a
            → a.status ≡ status_held
            → (a.network_transaction_id == id) ≡ false)
        → lookup id (clear_read C directory accounts network n c g).1.1.rows ≡ lookup id g.1.rows
    unfolding clear_read
    clear_read_rows n c (ok a, t) h = clear_by_status_rows n a a.status c t (h a refl)
    clear_read_rows n c (err x, t) h = refl

    -- What is read as held is not the row in question, if that one is not held.
    read_held_elsewhere :
        (k : String) (t : Table) (a : Authorization)
        → lookup id t.rows ≡ some row
        → row.status ≢ status_held
        → (get k t).0 ≡ ok a
        → a.status ≡ status_held
        → (a.network_transaction_id == id) ≡ false
    read_held_elsewhere k t a h resolved g held =
        let (r, there, same) = get-ok k t g in
        elim (Bool-cases (k == id)) [
          | inl e ↦ let i = (eq_iff k id).0 e in absurd (resolved cc)
          | inr e ↦ rw same e
        ]

    -- A clearing, of the same purchase or of another, leaves a row that is not held, that is, one
    -- that is cleared or reversed, as it was, however the clearing ends.
    pub clear_keeps_resolved :
        (n : ClearingNotification) (c : Core.State C) (t : Table)
        → lookup id t.rows ≡ some row
        → row.status ≢ status_held
        → lookup id (clear C directory accounts network n (c, t)).1.1.rows ≡ some row
    unfolding clear
    clear_keeps_resolved n c t h resolved = elim (Bool-cases (n.clearing_id == "")) [
      | inl blank ↦ rw blank h
      | inr given ↦ rw given (elim (Bool-cases (leb_ℤ n.final_amount_micros (pos 0))) [
        | inl bad ↦ rw bad h
        | inr good ↦ rw good (
            clear_read_rows n c _ (λ a. read_held_elsewhere n.network_transaction_id t a h resolved)
            ∙ rw (get_rows n.network_transaction_id t) h)
      ])
    ]

    after_release_rows :
        (a : Authorization) (t : Table) (p : Result CoreError PostResult × Core.State C)
        → (a.network_transaction_id == id) ≡ false
        → lookup id (after_release C directory accounts network a t p).1.1.rows ≡ lookup id t.rows
    unfolding after_release
    after_release_rows a t (ok p, c) h =
        rw after_mark_reversed_keeps (mark_reversed_frame a.network_transaction_id id t h)
    after_release_rows a t (err e, c) h = refl

    reverse_by_status_rows :
        (n : ReversalNotification) (a : Authorization) (x : Status) (c : Core.State C) (t : Table)
        → (x ≡ status_held → (a.network_transaction_id == id) ≡ false)
        → lookup id (reverse_by_status C directory accounts network n a x (c, t)).1.1.rows
          ≡ lookup id t.rows
    unfolding reverse_by_status
    reverse_by_status_rows n a status_held c t h = after_release_rows a t _ (h refl)
    reverse_by_status_rows n a status_cleared c t h = refl
    reverse_by_status_rows n a status_reversed c t h = refl

    reverse_read_rows :
        (n : ReversalNotification) (c : Core.State C) (g : Result StoreError Authorization × Table)
        → ((a : Authorization)
            → g.0 ≡ ok a
            → a.status ≡ status_held
            → (a.network_transaction_id == id) ≡ false)
        → lookup id (reverse_read C directory accounts network n c g).1.1.rows ≡ lookup id g.1.rows
    unfolding reverse_read
    reverse_read_rows n c (ok a, t) h = reverse_by_status_rows n a a.status c t (h a refl)
    reverse_read_rows n c (err x, t) h = refl

    -- A reversal, of the same purchase or of another, leaves a row that is not held, that is, one
    -- that is cleared or reversed, as it was, however the reversal ends.
    pub reverse_keeps_resolved :
        (n : ReversalNotification) (c : Core.State C) (t : Table)
        → lookup id t.rows ≡ some row
        → row.status ≢ status_held
        → lookup id (reverse C directory accounts network n (c, t)).1.1.rows ≡ some row
    unfolding reverse
    reverse_keeps_resolved n c t h resolved =
        reverse_read_rows n c _ (λ a. read_held_elsewhere n.network_transaction_id t a h resolved)
        ∙ rw (get_rows n.network_transaction_id t) h

  -- Whatever is called, and however it ends, an authorization leaves every row that was there as it
  -- was, and a clearing and a reversal leave every row that is cleared or reversed.
  pub rows_stay :
      (id done : String) (row resolved : Row) (req : AuthorizationRequest)
      (n : ClearingNotification) (m : ReversalNotification) (c : Core.State C) (t : Table)
      → lookup id t.rows ≡ some row
      → lookup done t.rows ≡ some resolved
      → resolved.status ≢ status_held
      → (lookup id (authorize C directory accounts network req (c, t)).1.1.rows ≡ some row)
        × (lookup done (clear C directory accounts network n (c, t)).1.1.rows ≡ some resolved)
        × (lookup done (reverse C directory accounts network m (c, t)).1.1.rows ≡ some resolved)
  rows_stay id done row resolved req n m c t h k r = (
    authorize_keeps_rows id row req c t h,
    clear_keeps_resolved done resolved n c t k r,
    reverse_keeps_resolved done resolved m c t k r,
  )
