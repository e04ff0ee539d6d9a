-- ===== src/Cards/Service/Held.antt =====
-- What an authorization decides, and the money and the row behind it.
use aerarium_agentic_banking.Common.{
  String, ◌≡◌, refl, sym, ◌∙◌, ap, inl, inr, ◌⊎◌, true, false, none, some, List, [], ◌∷◌, ◌==◌,
  Result, ok, err, Bool-cases, lookup, insert, lookup-insert, eq_refl, Dict,
}
use aerarium_agentic_banking.Common.Int.{pos, leb_ℤ}
use aerarium_agentic_banking.Core.Entry.{PostResult, debit, credit}
use aerarium_agentic_banking.Core.Errors.{CoreError, unavailable}
use aerarium_agentic_banking.Core.Client.{Core}
use aerarium_agentic_banking.Core.Book.{Posting, posting, find, IsLedger, New, post-New}
use aerarium_agentic_banking.Cards.Port.{
  Card, CardStatus, card_active, CardDirectory, AuthorizationRequest, AuthorizationDecision,
  decline_system_error,
}
use aerarium_agentic_banking.Cards.Store.{
  status_held, Row, Table, StoreError, reserved_row, Reservation, created, existing, reserve, Done,
}
use aerarium_agentic_banking.Cards.Store.Reads.{
  reserve-created, mark_held_shown, drop_gone, reserve-existing, reserve_failed,
}
use aerarium_agentic_banking.Cards.Service.{
  Accounts, ServiceError, auth_key, decline_reason, to_authorization, after_drop, after_mark_held,
  after_hold, after_reserve, with_card, after_directory, authorize,
}

module _ (C : Core) (directory : CardDirectory) (accounts : Accounts) (network : String) where
  -- The money goes from the customer's account to the account of what is held.
  abbrev pub hold_posting : AuthorizationRequest → Card → Posting
  hold_posting req card =
      posting (auth_key network req.network_transaction_id) "card_authorization_hold" (
        debit card.account_id req.amount_micros req.currency
        ∷ credit accounts.auth_hold_id req.amount_micros req.currency
        ∷ [])

  -- The row of an authorization whose money is held under a posting's identifier.
  abbrev pub HeldRow : AuthorizationRequest → Card → String → Dict Row → Type 0
  HeldRow req card hold rows =
      (row : Row) × (lookup req.network_transaction_id rows ≡ some row)
      × (row.status ≡ status_held)
      × (row.hold_transaction_id ≡ some hold)
      × (row.account_id ≡ card.account_id)
      × (row.amount_micros ≡ req.amount_micros)

  -- An approval: the card is active, the money is held, and a row says so.
  abbrev pub Backed :
      AuthorizationRequest → Card → List Posting → String → List Posting → Dict Row → Type 0
  Backed req card b hold b' rows = (b' ≡ hold_posting req card ∷ b) × HeldRow req card hold rows

  -- A decline: there is no row, and no money is held unless the core's answer was lost.
  abbrev pub Unbacked :
      AuthorizationRequest
      → Card
      → List Posting
      → AuthorizationDecision
      → List Posting
      → Dict Row
      → Type 0
  Unbacked req card b d b' rows =
      (lookup req.network_transaction_id rows ≡ none)
      × ((b' ≡ b) ⊎ ((d.reason ≡ decline_system_error) × (b' ≡ hold_posting req card ∷ b)))

  abbrev pub Decided :
      AuthorizationRequest
      → Card
      → List Posting
      → Result ServiceError AuthorizationDecision
      → List Posting
      → Dict Row
      → Type 0
  Decided req card b (ok d) b' rows =
      ((d.approved ≡ true)
        × (card.status ≡ card_active)
        × Backed req card b d.hold_transaction_id b' rows)
      ⊎ ((d.approved ≡ false) × Unbacked req card b d b' rows)
  Decided req card b (err _) b' rows = (b' ≡ b) ⊎ (b' ≡ hold_posting req card ∷ b)

  module _ (L : IsLedger C) (req : AuthorizationRequest) (card : Card)
      (active : card.status ≡ card_active) where
    open L use {book}

    after_mark_held-Decided :
        (p : PostResult) (c : Core.State C) (d : Done × Table) (b : List Posting)
        → book c ≡ hold_posting req card ∷ b
        → (d.0 ≡ none → HeldRow req card p.transaction_id d.1.rows)
        → let (o, w) = after_mark_held C directory accounts network p c d in
          Decided req card b o (book w.0) w.1.rows
    unfolding after_mark_held
    after_mark_held-Decided p c (none, t) b e h = inl (refl, active, (e, h refl))
    after_mark_held-Decided p c (some x, t) b e h = inr e

    after_drop-Decided :
        (e : CoreError) (c : Core.State C) (d : Done × Table) (b : List Posting)
        → (book c ≡ b) ⊎ ((e.sentinel ≡ unavailable) × (book c ≡ hold_posting req card ∷ b))
        → (d.0 ≡ none → lookup req.network_transaction_id d.1.rows ≡ none)
        → let (o, w) = after_drop C directory accounts network e c d in
          Decided req card b o (book w.0) w.1.rows
    unfolding after_drop
    after_drop-Decided e c (none, t) b (inl same) h = inr (refl, (h refl, inl same))
    after_drop-Decided e c (none, t) b (inr (lost, made)) h =
        inr (refl, (h refl, inr (ap decline_reason lost, made)))
    after_drop-Decided e c (some x, t) b (inl same) h = inl same
    after_drop-Decided e c (some x, t) b (inr (lost, made)) h = inr made

    after_hold-Decided :
        (t : Table) (m : Dict Row) (now : _) (a : Result CoreError PostResult × Core.State C)
        (b : List Posting)
        → New (hold_posting req card) b a.0 (book a.1)
        → t.rows
          ≡ insert req.network_transaction_id (reserved_row (to_authorization req card) now) m
        → lookup req.network_transaction_id m ≡ none
        → let (o, w) = after_hold C directory accounts network req t a in
          Decided req card b o (book w.0) w.1.rows
    unfolding after_hold
    after_hold-Decided t m now (ok p, c) b n e absent = after_mark_held-Decided p c _ b n.1 (λ d. (
      record (reserved_row (to_authorization req card) now) {
        hold_transaction_id = some p.transaction_id;
      },
      mark_held_shown req.network_transaction_id p.transaction_id t
          (reserved_row (to_authorization req card) now) d
          (rw
            (
              e,
              lookup-insert req.network_transaction_id req.network_transaction_id
                  (reserved_row (to_authorization req card) now) m,
              eq_refl req.network_transaction_id,
            )
            refl),
      refl,
      refl,
      refl,
      refl,
    ))
    after_hold-Decided t m now (err x, c) b n e absent =
        after_drop-Decided x c _ b n
          (λ d. drop_gone req.network_transaction_id t _ m d e refl absent)

    after_reserve-Decided :
        (c : Core.State C) (t : Table)
        → find (auth_key network req.network_transaction_id) (book c) ≡ none
        → lookup req.network_transaction_id t.rows ≡ none
        → (a : Result StoreError Reservation × Table) → reserve (to_authorization req card) t ≡ a
        → let (o, w) = after_reserve C directory accounts network req card c a in
          Decided req card (book c) o (book w.0) w.1.rows
    unfolding after_reserve
    after_reserve-Decided c t f absent (ok created, t') e =
        let (_, inserted) = reserve-created (to_authorization req card) t (ap (λ x. x.0) e) in
        after_hold-Decided t' t.rows (Table.now t) _ (book c)
          (post-New C L _ _ _ _ c (book c) refl f) (ap (λ x. x.1.rows) (sym e) ∙ inserted) absent
    after_reserve-Decided c t f absent (ok (existing x), t') e =
        absurd (reserve-existing (to_authorization req card) t absent (ap (λ y. y.0) e))
    after_reserve-Decided c t f absent (err x, t') e = inr (
      refl,
      (
        ap (λ y. lookup req.network_transaction_id y.1.rows) (sym e)
            ∙ ap (lookup req.network_transaction_id)
                (reserve_failed (to_authorization req card) t (ap (λ y. y.0) e))
            ∙ absent,
        inl refl,
      ),
    )

    with_card-Decided :
        (c : Core.State C) (t : Table)
        → find (auth_key network req.network_transaction_id) (book c) ≡ none
        → lookup req.network_transaction_id t.rows ≡ none
        → let (o, w) = with_card C directory accounts network req card card_active (c, t) in
          Decided req card (book c) o (book w.0) w.1.rows
    unfolding with_card
    with_card-Decided c t f absent = after_reserve-Decided c t f absent _ refl

    with_active-Decided :
        (x : CardStatus) (c : Core.State C) (t : Table)
        → x ≡ card_active
        → find (auth_key network req.network_transaction_id) (book c) ≡ none
        → lookup req.network_transaction_id t.rows ≡ none
        → let (o, w) = with_card C directory accounts network req card x (c, t) in
          Decided req card (book c) o (book w.0) w.1.rows
    with_active-Decided x c t e f absent = rw e (with_card-Decided c t f absent)

    -- The first authorization of a purchase with an active card, of which neither the book nor the
    -- table has anything: approved, its amount is held in the book and a row has it as held, for
    -- the card's account and under the hold's identifier; declined, there is no row, and nothing
    -- is held unless the decline is for a system error, after the core's answer was lost; after an
    -- error, at most the hold was posted.
    pub authorize-Decided :
        (c : Core.State C) (t : Table)
        → directory req.card_id ≡ ok card
        → find (auth_key network req.network_transaction_id) (book c) ≡ none
        → lookup req.network_transaction_id t.rows ≡ none
        → let (o, w) = authorize C directory accounts network req (c, t) in
          Decided req card (book c) o (book w.0) w.1.rows
    unfolding authorize after_directory
    authorize-Decided c t known f absent = elim (Bool-cases (req.network_transaction_id == "")) [
      | inl blank ↦ rw blank (inl refl)
      | inr given ↦ rw given (elim (Bool-cases (leb_ℤ req.amount_micros (pos 0))) [
        | inl bad ↦ rw bad (inl refl)
        | inr good ↦ rw (good, known) (with_active-Decided card.status c t active f absent)
      ])
    ]
