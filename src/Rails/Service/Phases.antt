-- ===== src/Rails/Service/Phases.antt =====
-- What a transfer out leaves in the book, by how it ended.
use aerarium_agentic_banking.Common.{
  ◌≡◌, refl, ◌∙◌, ◌⊎◌, inl, inr, none, List, ◌∷◌, ◌==◌, Result, ok, err, Bool-cases,
}
use aerarium_agentic_banking.Common.Int.{pos, leb_ℤ}
use aerarium_agentic_banking.Core.Entry.{PostResult}
use aerarium_agentic_banking.Core.Errors.{CoreError}
use aerarium_agentic_banking.Core.Client.{Core}
use aerarium_agentic_banking.Core.Book.{
  Posting, posting, find, New, find-cons_ne, IsLedger, post-New,
}
use aerarium_agentic_banking.Rails.Port.{RailError, AliasTarget, SendReceipt, Rail, is_definitive}
use aerarium_agentic_banking.Rails.Service.{
  Accounts, OutboundStatus, outbound_settled, outbound_reversed, outbound_in_transit,
  OutboundRequest, OutboundResult, ServiceError, reserving, reversing, reserve_key, settle_key,
  reverse_key, reserve_entries, settle_entries, reverse_entries, to_send_request, after_settle,
  after_reverse, after_send, after_reserve, after_resolve, send_outbound,
}
use aerarium_agentic_banking.Rails.Service.Keys.{
  reserve_key-ne-settle_key, reserve_key-ne-reverse_key,
}

module _ (C : Core) (R : Rail) (accounts : Accounts) where
  abbrev pub reserving_posting : OutboundRequest → Posting
  reserving_posting req =
      posting (reserve_key (Rail.name R) req.transfer_id) "rail_outbound_reserve"
        (reserve_entries C R accounts req)

  abbrev pub settling_posting : OutboundRequest → Posting
  settling_posting req =
      posting (settle_key (Rail.name R) req.transfer_id) "rail_outbound_settle"
        (settle_entries C R accounts req)

  abbrev pub reversing_posting : OutboundRequest → Posting
  reversing_posting req =
      posting (reverse_key (Rail.name R) req.transfer_id) "rail_outbound_reverse"
        (reverse_entries C R accounts req)

  abbrev pub EndsWith : OutboundRequest → OutboundStatus → List Posting → List Posting → Type 0
  EndsWith req outbound_settled b b' = b' ≡ settling_posting req ∷ reserving_posting req ∷ b
  EndsWith req outbound_reversed b b' = b' ≡ reversing_posting req ∷ reserving_posting req ∷ b
  EndsWith req outbound_in_transit b b' =
      (b' ≡ reserving_posting req ∷ b) ⊎ (b' ≡ settling_posting req ∷ reserving_posting req ∷ b)

  -- The book behind each outcome of a transfer, from the book before it.
  abbrev pub Phases :
      OutboundRequest → List Posting → Result ServiceError OutboundResult → List Posting → Type 0
  Phases req b (ok o) b' = EndsWith req o.status b b'
  Phases req b (err (reserving e)) b' = (b' ≡ b) ⊎ (b' ≡ reserving_posting req ∷ b)
  Phases req b (err (reversing e)) b' =
      (b' ≡ reserving_posting req ∷ b) ⊎ (b' ≡ reversing_posting req ∷ reserving_posting req ∷ b)
  Phases req b (err _) b' = b' ≡ b

  -- No phase of the transfer is in the book.
  pub record IsFresh (req : OutboundRequest) (b : List Posting) : Type 0 where
    pub not_reserved : find (reserve_key (Rail.name R) req.transfer_id) b ≡ none
    pub not_settled : find (settle_key (Rail.name R) req.transfer_id) b ≡ none
    pub not_reversed : find (reverse_key (Rail.name R) req.transfer_id) b ≡ none

  module _ (L : IsLedger C) (req : OutboundRequest) where
    open L use {book, records}

    after_settle-Phases :
        (receipt : SendReceipt) (r : Rail.State R) (b : List Posting)
        (a : Result CoreError PostResult × Core.State C)
        → New (settling_posting req) (reserving_posting req ∷ b) a.0 (book a.1)
        → let (o, w) = after_settle C R accounts receipt r a in Phases req b o (book w.0)
    unfolding after_settle
    after_settle-Phases receipt r b (ok p, c) h = h.1
    after_settle-Phases receipt r b (err e, c) (inl same) = inl same
    after_settle-Phases receipt r b (err e, c) (inr (_, made)) = inr made

    after_reverse-Phases :
        (e : RailError) (r : Rail.State R) (b : List Posting)
        (a : Result CoreError PostResult × Core.State C)
        → New (reversing_posting req) (reserving_posting req ∷ b) a.0 (book a.1)
        → let (o, w) = after_reverse C R accounts e r a in Phases req b o (book w.0)
    unfolding after_reverse
    after_reverse-Phases e r b (ok p, c) h = h.1
    after_reverse-Phases e r b (err x, c) (inl same) = inl same
    after_reverse-Phases e r b (err x, c) (inr (_, made)) = inr made

    after_send-Phases :
        (b : List Posting) (c : Core.State C) (a : Result RailError SendReceipt × Rail.State R)
        → IsFresh req b
        → book c ≡ reserving_posting req ∷ b
        → let (o, w) = after_send C R accounts req c a in Phases req b o (book w.0)
    unfolding after_send
    after_send-Phases b c (ok receipt, r) f h = after_settle-Phases receipt r b _ (
        post-New C L _ _ _ _ c _ h
          (find-cons_ne _ _ b (reserve_key-ne-settle_key (Rail.name R) _ _) ∙ f.not_settled))
    after_send-Phases b c (err e, r) f h = elim (Bool-cases (is_definitive e.kind)) [
      | inl definitive ↦ rw definitive (
          after_reverse-Phases e r b _ (
            post-New C L _ _ _ _ c _ h
              (find-cons_ne _ _ b (reserve_key-ne-reverse_key (Rail.name R) _ _) ∙ f.not_reversed)))
      | inr ambiguous ↦ rw ambiguous (inl h)
    ]

    after_reserve-Phases :
        (b : List Posting) (r : Rail.State R) (a : Result CoreError PostResult × Core.State C)
        → IsFresh req b
        → New (reserving_posting req) b a.0 (book a.1)
        → let (o, w) = after_reserve C R accounts req r a in Phases req b o (book w.0)
    unfolding after_reserve
    after_reserve-Phases b r (ok p, c) f h =
        after_send-Phases b c (Rail.send R (to_send_request req) r) f h.1
    after_reserve-Phases b r (err e, c) f (inl same) = inl same
    after_reserve-Phases b r (err e, c) f (inr (_, made)) = inr made

    after_resolve-Phases :
        (c : Core.State C) (a : Result RailError AliasTarget × Rail.State R)
        → IsFresh req (book c)
        → let (o, w) = after_resolve C R accounts req c a in Phases req (book c) o (book w.0)
    unfolding after_resolve
    after_resolve-Phases c (ok t, r) f =
        after_reserve-Phases (book c) r _ f (post-New C L _ _ _ _ c _ refl f.not_reserved)
    after_resolve-Phases c (err e, r) f = refl

    -- A transfer none of whose phases is in the book adds to it exactly the phases that its
    -- outcome names: settled adds the reserve and the settlement, reversed the reserve and the
    -- reversal, in transit the reserve and at most the settlement whose confirmation was lost.
    -- An error before the reserve adds nothing, and one of a reserve or a reversal adds that
    -- posting at most.
    pub send_outbound-Phases :
        (c : Core.State C) (r : Rail.State R)
        → IsFresh req (book c)
        → let (o, w) = send_outbound C R accounts req (c, r) in Phases req (book c) o (book w.0)
    unfolding send_outbound
    send_outbound-Phases c r f = elim (Bool-cases (req.transfer_id == "")) [
      | inl blank ↦ rw blank refl
      | inr given ↦ rw given (elim (Bool-cases (leb_ℤ req.amount_micros (pos 0))) [
        | inl bad ↦ rw bad refl
        | inr good ↦ rw good (after_resolve-Phases c (Rail.resolve_alias R req.to_alias r) f)
      ])
    ]
