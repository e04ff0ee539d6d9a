-- ===== src/Rails/Service/Sound.antt =====
-- Debits equal credits through every operation of the rail's adapter.
use aerarium_agentic_banking.Common.{String, ◌≡◌, refl, inl, inr, ◌==◌, Result, ok, err, Bool-cases}
use aerarium_agentic_banking.Common.Int.{pos, leb_ℤ}
use aerarium_agentic_banking.Core.Entry.{PostResult}
use aerarium_agentic_banking.Core.Errors.{CoreError}
use aerarium_agentic_banking.Core.Client.{Core}
use aerarium_agentic_banking.Core.Book.{IsSound, IsLedger, post-IsSound, transfer-IsBalanced}
use aerarium_agentic_banking.Rails.Port.{
  RailError, AliasTarget, SendReceipt, InboundCredit, Rail, AccountResolver, is_definitive,
}
use aerarium_agentic_banking.Rails.Service.{
  Accounts, OutboundRequest, to_send_request, after_settle, after_reverse, after_send,
  after_reserve, after_resolve, send_outbound, after_credit, after_alias, handle_inbound_credit,
}

module _ (C : Core) (R : Rail) (accounts : Accounts) (L : IsLedger C) where
  open accounts use {settlement_id, in_transit_id}
  open L use {book}

  after_settle_keeps :
      (t : SendReceipt) (r : Rail.State R) (a : Result CoreError PostResult × Core.State C)
      → (after_settle C R accounts t r a).1.0 ≡ a.1
  unfolding after_settle
  after_settle_keeps t r (ok p, c) = refl
  after_settle_keeps t r (err e, c) = refl

  after_reverse_keeps :
      (e : RailError) (r : Rail.State R) (a : Result CoreError PostResult × Core.State C)
      → (after_reverse C R accounts e r a).1.0 ≡ a.1
  unfolding after_reverse
  after_reverse_keeps e r (ok p, c) = refl
  after_reverse_keeps e r (err x, c) = refl

  after_send-IsSound :
      (req : OutboundRequest) (c : Core.State C) (a : Result RailError SendReceipt × Rail.State R)
      → IsSound (book c)
      → IsSound (book (after_send C R accounts req c a).1.0)
  unfolding after_send
  after_send-IsSound req c (ok t, r) s = rw after_settle_keeps (
      post-IsSound C L _ _ _ _ c
        (transfer-IsBalanced in_transit_id settlement_id req.amount_micros req.currency) s)
  after_send-IsSound req c (err e, r) s = elim (Bool-cases (is_definitive e.kind)) [
    | inl definitive ↦
        rw (definitive, after_reverse_keeps)
          (post-IsSound C L _ _ _ _ c
            (transfer-IsBalanced in_transit_id req.from_account_id req.amount_micros req.currency)
            s)
    | inr ambiguous ↦ rw ambiguous s
  ]

  after_reserve-IsSound :
      (req : OutboundRequest) (r : Rail.State R) (a : Result CoreError PostResult × Core.State C)
      → IsSound (book a.1)
      → IsSound (book (after_reserve C R accounts req r a).1.0)
  unfolding after_reserve
  after_reserve-IsSound req r (ok p, c) s =
      after_send-IsSound req c (Rail.send R (to_send_request req) r) s
  after_reserve-IsSound req r (err e, c) s = s

  after_resolve-IsSound :
      (req : OutboundRequest) (c : Core.State C) (a : Result RailError AliasTarget × Rail.State R)
      → IsSound (book c)
      → IsSound (book (after_resolve C R accounts req c a).1.0)
  unfolding after_resolve
  after_resolve-IsSound req c (ok t, r) s = after_reserve-IsSound req r _ (
      post-IsSound C L _ _ _ _ c
        (transfer-IsBalanced req.from_account_id in_transit_id req.amount_micros req.currency) s)
  after_resolve-IsSound req c (err e, r) s = s

  -- If debits equal credits in every currency over the whole book, they do so after a transfer
  -- out, whatever the rail and the core answer and whatever the book already holds of this transfer.
  pub send_outbound-IsSound :
      (req : OutboundRequest) (c : Core.State C) (r : Rail.State R)
      → IsSound (book c)
      → IsSound (book (send_outbound C R accounts req (c, r)).1.0)
  unfolding send_outbound
  send_outbound-IsSound req c r s = elim (Bool-cases (req.transfer_id == "")) [
    | inl blank ↦ rw blank s
    | inr given ↦ rw given (elim (Bool-cases (leb_ℤ req.amount_micros (pos 0))) [
      | inl bad ↦ rw bad s
      | inr good ↦ rw good (after_resolve-IsSound req c (Rail.resolve_alias R req.to_alias r) s)
    ])
  ]

  module _ (D : AccountResolver) where
    after_credit_keeps :
        (id : String) (d : AccountResolver.State D) (a : Result CoreError PostResult × Core.State C)
        → (after_credit C R accounts D id d a).1.0 ≡ a.1
    unfolding after_credit
    after_credit_keeps id d (ok p, c) = refl
    after_credit_keeps id d (err e, c) = refl

    after_alias-IsSound :
        (credited : InboundCredit) (c : Core.State C)
        (a : Result RailError String × AccountResolver.State D)
        → IsSound (book c)
        → IsSound (book (after_alias C R accounts D credited c a).1.0)
    unfolding after_alias
    after_alias-IsSound credited c (ok id, d) s = rw after_credit_keeps (
        post-IsSound C L _ _ _ _ c
          (transfer-IsBalanced settlement_id id credited.amount_micros credited.currency) s)
    after_alias-IsSound credited c (err e, d) s = s

    -- If debits equal credits in every currency over the whole book, they do so after an incoming
    -- credit, whatever the directory of aliases and the core answer.
    pub handle_inbound_credit-IsSound :
        (credited : InboundCredit) (c : Core.State C) (d : AccountResolver.State D)
        → IsSound (book c)
        → IsSound (book (handle_inbound_credit C R accounts D credited (c, d)).1.0)
    unfolding handle_inbound_credit
    handle_inbound_credit-IsSound credited c d s =
        elim (Bool-cases (credited.rail_transaction_id == "")) [
          | inl blank ↦ rw blank s
          | inr given ↦ rw given (elim (Bool-cases (leb_ℤ credited.amount_micros (pos 0))) [
            | inl bad ↦ rw bad s
            | inr good ↦ rw good (after_alias-IsSound credited c _ s)
          ])
        ]

    -- Debits equal credits in every currency over the whole book after a transfer out and after an
    -- incoming credit, if they did before, whatever the rail, the directory and the core answer.
    pub rails-IsSound :
        (req : OutboundRequest) (credited : InboundCredit) (c : Core.State C) (r : Rail.State R)
        (d : AccountResolver.State D)
        → IsSound (book c)
        → IsSound (book (send_outbound C R accounts req (c, r)).1.0)
          × IsSound (book (handle_inbound_credit C R accounts D credited (c, d)).1.0)
    rails-IsSound req credited c r d s =
        (send_outbound-IsSound req c r s, handle_inbound_credit-IsSound credited c d s)
