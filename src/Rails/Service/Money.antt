-- ===== src/Rails/Service/Money.antt =====
-- Where the money of a transfer stands, by how the transfer ended.
use aerarium_agentic_banking.Common.{◌≡◌, refl, sym, ◌≢◌, ◌⊎◌, inl, inr, List, ◌∷◌, ok}
use aerarium_agentic_banking.Common.Int.{ℤ, ◌+ℤ◌, ◌-ℤ◌, int_laws}
use aerarium_agentic_banking.Core.Client.{Core}
use aerarium_agentic_banking.Core.Book.{
  Posting, balance, IsLedger, effect-transfer_from, effect-transfer_to, effect-transfer_other,
}
use aerarium_agentic_banking.Rails.Port.{Rail}
use aerarium_agentic_banking.Rails.Service.{
  Accounts, OutboundStatus, outbound_settled, outbound_reversed, outbound_in_transit,
  OutboundRequest, OutboundResult, send_outbound,
}
use aerarium_agentic_banking.Rails.Service.Phases.{
  IsFresh, EndsWith, reserving_posting, settling_posting, reversing_posting, send_outbound-Phases,
}

-- Credits less debits of the three accounts of a transfer, in its currency.
pub record Stands : Type 0 where
  pub customer : ℤ
  pub transit : ℤ
  pub settlement : ℤ

-- The three movements: from the customer to transit, from transit to the rail, and back.
abbrev pub reserved : ℤ → Stands → Stands
reserved x b = record {
  customer = b.customer -ℤ x;
  transit = b.transit +ℤ x;
  settlement = b.settlement;
}

abbrev pub settled : ℤ → Stands → Stands
settled x b = record {
  customer = b.customer;
  transit = b.transit -ℤ x;
  settlement = b.settlement +ℤ x;
}

abbrev pub reversed : ℤ → Stands → Stands
reversed x b = record {
  customer = b.customer +ℤ x;
  transit = b.transit -ℤ x;
  settlement = b.settlement;
}

-- The customer pays exactly if the transfer is not reversed; what is paid is at the rail if it
-- settled, and otherwise still owed by the account in transit, unless the settlement was posted
-- and its confirmation lost.
abbrev pub Moved : ℤ → OutboundStatus → Stands → Stands → Type 0
Moved x outbound_settled b a =
    (a.customer ≡ b.customer -ℤ x) × (a.transit ≡ b.transit) × (a.settlement ≡ b.settlement +ℤ x)
Moved x outbound_reversed b a =
    (a.customer ≡ b.customer) × (a.transit ≡ b.transit) × (a.settlement ≡ b.settlement)
Moved x outbound_in_transit b a =
    (a.customer ≡ b.customer -ℤ x)
    × (((a.transit ≡ b.transit +ℤ x) × (a.settlement ≡ b.settlement))
        ⊎ ((a.transit ≡ b.transit) × (a.settlement ≡ b.settlement +ℤ x)))

stands_eq :
    {s t : Stands}
    → s.customer ≡ t.customer
    → s.transit ≡ t.transit
    → s.settlement ≡ t.settlement
    → s ≡ t
stands_eq p q r = cc

module _ (x : ℤ) (b m a : Stands) (p : m ≡ reserved x b) where
  settled-Moved : a ≡ settled x m → Moved x outbound_settled b a
  settled-Moved q = rw (q, p) (omega int_laws, omega int_laws, omega int_laws)

  reversed-Moved : a ≡ reversed x m → Moved x outbound_reversed b a
  reversed-Moved q = rw (q, p) (omega int_laws, omega int_laws, omega int_laws)

  unconfirmed-Moved : a ≡ settled x m → Moved x outbound_in_transit b a
  unconfirmed-Moved q = rw (q, p) (omega int_laws, inr (omega int_laws, omega int_laws))

reserved-Moved : (x : ℤ) (b m : Stands) → m ≡ reserved x b → Moved x outbound_in_transit b m
reserved-Moved x b m p = rw p (refl, inl (refl, refl))

module _ (C : Core) (R : Rail) (accounts : Accounts) where
  open accounts use {settlement_id, in_transit_id}

  abbrev pub stands : OutboundRequest → List Posting → Stands
  stands req b = record {
    customer = balance req.from_account_id req.currency b;
    transit = balance in_transit_id req.currency b;
    settlement = balance settlement_id req.currency b;
  }

  -- The three accounts of a transfer are three.
  pub record AreDistinct (req : OutboundRequest) : Type 0 where
    pub from_ne_transit : req.from_account_id ≢ in_transit_id
    pub from_ne_settlement : req.from_account_id ≢ settlement_id
    pub transit_ne_settlement : in_transit_id ≢ settlement_id

  module _ (L : IsLedger C) (req : OutboundRequest) (d : AreDistinct req) where
    open L use {book}
    open d use {from_ne_transit, from_ne_settlement, transit_ne_settlement}

    pub reserve_moves :
        (b : List Posting)
        → stands req (reserving_posting C R accounts req ∷ b)
          ≡ reserved req.amount_micros (stands req b)
    reserve_moves b =
        rw
          (
            effect-transfer_from req.from_account_id in_transit_id req.amount_micros req.currency
                from_ne_transit,
            effect-transfer_to req.from_account_id in_transit_id req.amount_micros req.currency
                from_ne_transit,
            effect-transfer_other req.from_account_id in_transit_id req.amount_micros req.currency
                from_ne_transit settlement_id from_ne_settlement transit_ne_settlement,
          )
          (stands_eq (omega int_laws) (omega int_laws) (omega int_laws))

    pub settle_moves :
        (b : List Posting)
        → stands req (settling_posting C R accounts req ∷ b)
          ≡ settled req.amount_micros (stands req b)
    settle_moves b =
        rw
          (
            effect-transfer_other in_transit_id settlement_id req.amount_micros req.currency
                transit_ne_settlement req.from_account_id (λ e. from_ne_transit (sym e))
                (λ e. from_ne_settlement (sym e)),
            effect-transfer_from in_transit_id settlement_id req.amount_micros req.currency
                transit_ne_settlement,
            effect-transfer_to in_transit_id settlement_id req.amount_micros req.currency
                transit_ne_settlement,
          )
          (stands_eq (omega int_laws) (omega int_laws) (omega int_laws))

    pub reverse_moves :
        (b : List Posting)
        → stands req (reversing_posting C R accounts req ∷ b)
          ≡ reversed req.amount_micros (stands req b)
    reverse_moves b =
        rw
          (
            effect-transfer_to in_transit_id req.from_account_id req.amount_micros req.currency
                (λ e. from_ne_transit (sym e)),
            effect-transfer_from in_transit_id req.from_account_id req.amount_micros req.currency
                (λ e. from_ne_transit (sym e)),
            effect-transfer_other in_transit_id req.from_account_id req.amount_micros req.currency
                (λ e. from_ne_transit (sym e)) settlement_id transit_ne_settlement
                from_ne_settlement,
          )
          (stands_eq (omega int_laws) (omega int_laws) (omega int_laws))

    EndsWith-Moved :
        (t : OutboundStatus) (b b' : List Posting)
        → EndsWith C R accounts req t b b'
        → Moved req.amount_micros t (stands req b) (stands req b')
    EndsWith-Moved outbound_settled b b' h = rw h (
        settled-Moved req.amount_micros _ _ _ (reserve_moves b)
          (settle_moves (reserving_posting C R accounts req ∷ b)))
    EndsWith-Moved outbound_reversed b b' h = rw h (
        reversed-Moved req.amount_micros _ _ _ (reserve_moves b)
          (reverse_moves (reserving_posting C R accounts req ∷ b)))
    EndsWith-Moved outbound_in_transit b b' (inl h) =
        rw h (reserved-Moved req.amount_micros _ _ (reserve_moves b))
    EndsWith-Moved outbound_in_transit b b' (inr h) = rw h (
        unconfirmed-Moved req.amount_micros _ _ _ (reserve_moves b)
          (settle_moves (reserving_posting C R accounts req ∷ b)))

    -- A transfer none of whose phases is in the book, between three distinct accounts: when it
    -- returns a result, the customer has paid the amount exactly if it was not reversed, and the
    -- amount is at the rail's position if it settled; in transit, it is owed by the account in
    -- transit or, with the confirmation of the settlement lost, at the rail's position.
    pub send_outbound-Moved :
        (c : Core.State C) (r : Rail.State R) {o : OutboundResult}
        → IsFresh C R accounts req (book c)
        → (send_outbound C R accounts req (c, r)).0 ≡ ok o
        → Moved req.amount_micros o.status
            (stands req (book c))
            (stands req (book (send_outbound C R accounts req (c, r)).1.0))
    send_outbound-Moved c r {o} f h =
        EndsWith-Moved o.status _ _ (rw h at (send_outbound-Phases C R accounts L req c r f))
