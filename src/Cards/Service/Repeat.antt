-- ===== src/Cards/Service/Repeat.antt =====
-- An authorization that comes again, and what comes for a purchase that is not known.
use aerarium_agentic_banking.Common.{
  ℕ, String, ◌≡◌, refl, inl, inr, true, false, none, some, [], ◌==◌, Result, ok, err, Bool-cases,
  lookup, Option, Bool,
}
use aerarium_agentic_banking.Common.Int.{pos, leb_ℤ}
use aerarium_agentic_banking.Core.Client.{Core}
use aerarium_agentic_banking.Cards.Port.{
  AuthorizationDecision, decline_none, Card, card_active, CardDirectory, AuthorizationRequest,
  ClearingNotification, ReversalNotification,
}
use aerarium_agentic_banking.Cards.Store.{
  Status, status_held, status_cleared, status_reversed, Row, Authorization, Table, StoreError, scan,
  reserved_row,
}
use aerarium_agentic_banking.Cards.Store.Reads.{reserve_again, get_unknown, get_rows}
use aerarium_agentic_banking.Cards.Service.{
  Accounts, ServiceError, missing_id, invalid_amount, store_error, repeated, approval,
  to_authorization, after_reserve, with_card, after_directory, authorize, clear, clear_read,
  reverse, reverse_read,
}

abbrev hold_of : Option String → String
hold_of none = ""
hold_of (some hold) = hold

abbrev duplicate_of : Bool → Row → AuthorizationDecision
duplicate_of approved row = record {
  approved = approved;
  reason = decline_none;
  hold_transaction_id = hold_of row.hold_transaction_id;
  duplicate = true;
}

-- The answer to a purchase that comes again, by what has become of it.
abbrev pub AsBefore : Status → Row → Result ServiceError AuthorizationDecision → Type 0
AsBefore status_held row o = o ≡ ok (duplicate_of true row)
AsBefore status_cleared row o = o ≡ ok (duplicate_of true row)
AsBefore status_reversed row o = o ≡ ok (duplicate_of false row)

module _ (C : Core) (directory : CardDirectory) (accounts : Accounts) (network : String) where
  authorize_again_scanned :
      (req : AuthorizationRequest) (card : Card) (c : Core.State C) (t : Table) (row : Row)
      → directory req.card_id ≡ ok card
      → card.status ≡ card_active
      → lookup req.network_transaction_id t.rows ≡ some row
      → t.faults ≡ []
      → (req.network_transaction_id == "") ≡ false
      → leb_ℤ req.amount_micros (pos 0) ≡ false
      → let (o, (c', t')) = authorize C directory accounts network req (c, t) in
        (o ≡ ok (repeated (scan req.network_transaction_id row))) × (c' ≡ c) × (t'.rows ≡ t.rows)
  unfolding authorize after_directory with_card after_reserve
  authorize_again_scanned req card c t row known active there works given positive =
      rw
        (
          given,
          positive,
          known,
          active,
          reserve_again (to_authorization req card) t row there works,
        )
        (refl, refl, refl)

  -- A purchase whose row was reserved, but whose hold was never posted, because the process ended
  -- in between: when the network repeats the authorization with an active card, a positive amount and no
  -- statement failing, it is approved, though the core is not called and nothing is held.
  pub authorize_after_crash :
      (req : AuthorizationRequest) (card : Card) (c : Core.State C) (t : Table) (now : ℕ)
      → directory req.card_id ≡ ok card
      → card.status ≡ card_active
      → lookup req.network_transaction_id t.rows
        ≡ some (reserved_row (to_authorization req card) now)
      → t.faults ≡ []
      → (req.network_transaction_id == "") ≡ false
      → leb_ℤ req.amount_micros (pos 0) ≡ false
      → let (o, (c', t')) = authorize C directory accounts network req (c, t) in
        (o ≡ ok (record (approval "") { duplicate = true })) × (c' ≡ c)
  authorize_after_crash req card c t now known active there works given positive =
      let (decided, kept, _) =
        authorize_again_scanned req card c t _ known active there works given positive in
      (decided, kept)

  clear_read_unknown :
      (n : ClearingNotification) (c : Core.State C) (t : Table)
      (g : Result StoreError Authorization × Table)
      → (e : StoreError) × (g.0 ≡ err e)
      → g.1.rows ≡ t.rows
      → let (o, (c', t')) = clear_read C directory accounts network n c g in
        (e : ServiceError) × (o ≡ err e) × (c' ≡ c) × (t'.rows ≡ t.rows)
  unfolding clear_read
  clear_read_unknown n c t (ok a, t') (e, h) k = cc
  clear_read_unknown n c t (err x, t') (e, h) k = (store_error x, refl, refl, k)

  reverse_read_unknown :
      (n : ReversalNotification) (c : Core.State C) (t : Table)
      (g : Result StoreError Authorization × Table)
      → (e : StoreError) × (g.0 ≡ err e)
      → g.1.rows ≡ t.rows
      → let (o, (c', t')) = reverse_read C directory accounts network n c g in
        (e : StoreError) × (o ≡ some (store_error e)) × (c' ≡ c) × (t'.rows ≡ t.rows)
  unfolding reverse_read
  reverse_read_unknown n c t (ok a, t') (e, h) k = cc
  reverse_read_unknown n c t (err x, t') (e, h) k = (x, refl, refl, k)

  clear_unknown :
      (n : ClearingNotification) (c : Core.State C) (t : Table)
      → lookup n.network_transaction_id t.rows ≡ none
      → let (o, (c', t')) = clear C directory accounts network n (c, t) in
        (e : ServiceError) × (o ≡ err e) × (c' ≡ c) × (t'.rows ≡ t.rows)
  unfolding clear
  clear_unknown n c t h = elim (Bool-cases (n.clearing_id == "")) [
    | inl blank ↦ rw blank (missing_id, refl, refl, refl)
    | inr given ↦ rw given (elim (Bool-cases (leb_ℤ n.final_amount_micros (pos 0))) [
      | inl bad ↦ rw bad (invalid_amount n.final_amount_micros, refl, refl, refl)
      | inr good ↦ rw good (
          clear_read_unknown n c t _ (get_unknown n.network_transaction_id t h)
            (get_rows n.network_transaction_id t))
    ])
  ]

  reverse_unknown :
      (n : ReversalNotification) (c : Core.State C) (t : Table)
      → lookup n.network_transaction_id t.rows ≡ none
      → let (o, (c', t')) = reverse C directory accounts network n (c, t) in
        (e : StoreError) × (o ≡ some (store_error e)) × (c' ≡ c) × (t'.rows ≡ t.rows)
  unfolding reverse
  reverse_unknown n c t h =
      reverse_read_unknown n c t _ (get_unknown n.network_transaction_id t h)
        (get_rows n.network_transaction_id t)

  -- A clearing or a reversal of a purchase that has no row ends in an error, without a call to the
  -- core and without a change of any row.
  pub unknown_moves_nothing :
      (n : ClearingNotification) (m : ReversalNotification) (c : Core.State C) (t : Table)
      → lookup n.network_transaction_id t.rows ≡ none
      → lookup m.network_transaction_id t.rows ≡ none
      → let (o, (c', t')) = clear C directory accounts network n (c, t) in
        let (p, (c'', t'')) = reverse C directory accounts network m (c, t) in
        ((e : ServiceError) × (o ≡ err e) × (c' ≡ c) × (t'.rows ≡ t.rows))
        × ((e : StoreError) × (p ≡ some (store_error e)) × (c'' ≡ c) × (t''.rows ≡ t.rows))
  unknown_moves_nothing n m c t h k = (clear_unknown n c t h, reverse_unknown m c t k)
