-- ===== src/Rails/Service/Repeat.antt =====
-- A transfer that the rail rejected and that is sent again under its identifier.
use aerarium_agentic_banking.Common.{
  ◌≡◌, sym, ap, ◌∙◌, inl, inr, none, some, List, ◌∷◌, ◌==◌, Result, ok, err, Bool-cases,
}
use aerarium_agentic_banking.Common.Int.{ℤ, pos, ◌+ℤ◌, ◌-ℤ◌, leb_ℤ, int_laws}
use aerarium_agentic_banking.Core.Entry.{PostResult}
use aerarium_agentic_banking.Core.Errors.{CoreError}
use aerarium_agentic_banking.Core.Client.{Core}
use aerarium_agentic_banking.Core.Book.{
  Posting, find, New, IsLedger, post-New, post-known, find-cons_ne, find-cons_self,
}
use aerarium_agentic_banking.Rails.Port.{RailError, AliasTarget, SendReceipt, Rail, is_definitive}
use aerarium_agentic_banking.Rails.Service.{
  Accounts, outbound_settled, OutboundRequest, OutboundResult, ServiceError, reserve_key,
  settle_key, after_settle, after_reverse, after_send, after_reserve, after_resolve, send_outbound,
}
use aerarium_agentic_banking.Rails.Service.Keys.{
  reserve_key-ne-settle_key, reserve_key-ne-reverse_key, reverse_key-ne-settle_key,
}
use aerarium_agentic_banking.Rails.Service.Phases.{
  IsFresh, reserving_posting, settling_posting, reversing_posting,
}
use aerarium_agentic_banking.Rails.Service.Money.{
  Stands, stands, AreDistinct, reserved, settled, reversed, reserve_moves, settle_moves,
  reverse_moves,
}

-- The amount has left through the rail, the customer has kept it, and the account in transit,
-- a liability, is short of it.
abbrev pub PaidByTheBank : ℤ → Stands → Stands → Type 0
PaidByTheBank x b a =
    (a.customer ≡ b.customer) × (a.transit ≡ b.transit -ℤ x) × (a.settlement ≡ b.settlement +ℤ x)

steps-PaidByTheBank :
    (x : ℤ) (b m n a : Stands)
    → m ≡ reserved x b
    → n ≡ reversed x m
    → a ≡ settled x n
    → PaidByTheBank x b a
steps-PaidByTheBank x b m n a p q r = rw (r, q, p) (omega int_laws, omega int_laws, omega int_laws)

module _ (C : Core) (R : Rail) (accounts : Accounts) (L : IsLedger C) (req : OutboundRequest) where
  open L use {book}

  -- The book behind a result that says settled.
  abbrev Settles : List Posting → Result ServiceError OutboundResult → List Posting → Type 0
  Settles b (ok o) b' = o.status ≡ outbound_settled → b' ≡ settling_posting C R accounts req ∷ b
  Settles b (err e) b' = Unit

  after_settle-Settles :
      (t : SendReceipt) (r : Rail.State R) (b : List Posting)
      (a : Result CoreError PostResult × Core.State C)
      → New (settling_posting C R accounts req) b a.0 (book a.1)
      → let (o, w) = after_settle C R accounts t r a in Settles b o (book w.0)
  unfolding after_settle
  after_settle-Settles t r b (ok p, c) h = λ _. h.1
  after_settle-Settles t r b (err e, c) h = λ s. cc

  after_reverse-Settles :
      (e : RailError) (r : Rail.State R) (b : List Posting)
      (a : Result CoreError PostResult × Core.State C)
      → let (o, w) = after_reverse C R accounts e r a in Settles b o (book w.0)
  unfolding after_reverse
  after_reverse-Settles e r b (ok p, c) = λ s. cc
  after_reverse-Settles e r b (err x, c) = tt

  after_send-Settles :
      (c : Core.State C) (b : List Posting) (a : Result RailError SendReceipt × Rail.State R)
      → book c ≡ b
      → find (settle_key (Rail.name R) req.transfer_id) b ≡ none
      → let (o, w) = after_send C R accounts req c a in Settles b o (book w.0)
  unfolding after_send
  after_send-Settles c b (ok t, r) e h = after_settle-Settles t r b _ (post-New C L _ _ _ _ c b e h)
  after_send-Settles c b (err x, r) e h = elim (Bool-cases (is_definitive x.kind)) [
    | inl definitive ↦ rw definitive (after_reverse-Settles x r b _)
    | inr ambiguous ↦ rw ambiguous (λ s. cc)
  ]

  after_reserve-Settles :
      (r : Rail.State R) (b : List Posting) (a : Result CoreError PostResult × Core.State C)
      → book a.1 ≡ b
      → find (settle_key (Rail.name R) req.transfer_id) b ≡ none
      → let (o, w) = after_reserve C R accounts req r a in Settles b o (book w.0)
  unfolding after_reserve
  after_reserve-Settles r b (ok p, c) e h = after_send-Settles c b _ e h
  after_reserve-Settles r b (err x, c) e h = tt

  after_resolve-Settles :
      (c : Core.State C) (a : Result RailError AliasTarget × Rail.State R)
      → find (reserve_key (Rail.name R) req.transfer_id) (book c)
        ≡ some (reserving_posting C R accounts req)
      → find (settle_key (Rail.name R) req.transfer_id) (book c) ≡ none
      → let (o, w) = after_resolve C R accounts req c a in Settles (book c) o (book w.0)
  unfolding after_resolve
  after_resolve-Settles c (ok t, r) known h =
      after_reserve-Settles r (book c) _ (post-known C L _ _ _ _ c _ known (L.same_refl _)).1 h
  after_resolve-Settles c (err e, r) known h = tt

  send_outbound-Settles :
      (c : Core.State C) (r : Rail.State R)
      → find (reserve_key (Rail.name R) req.transfer_id) (book c)
        ≡ some (reserving_posting C R accounts req)
      → find (settle_key (Rail.name R) req.transfer_id) (book c) ≡ none
      → let (o, w) = send_outbound C R accounts req (c, r) in Settles (book c) o (book w.0)
  unfolding send_outbound
  send_outbound-Settles c r known h = elim (Bool-cases (req.transfer_id == "")) [
    | inl blank ↦ rw blank tt
    | inr given ↦ rw given (elim (Bool-cases (leb_ℤ req.amount_micros (pos 0))) [
      | inl bad ↦ rw bad tt
      | inr good ↦ rw good (after_resolve-Settles c (Rail.resolve_alias R req.to_alias r) known h)
    ])
  ]

  -- The book of a transfer that was reserved and reversed.
  abbrev pub undone : List Posting → List Posting
  undone b = reversing_posting C R accounts req ∷ reserving_posting C R accounts req ∷ b

  undone-reserved :
      (b : List Posting)
      → find (reserve_key (Rail.name R) req.transfer_id) (undone b)
        ≡ some (reserving_posting C R accounts req)
  undone-reserved b =
      find-cons_ne _ (reversing_posting C R accounts req) (reserving_posting C R accounts req ∷ b)
        (λ e. reserve_key-ne-reverse_key (Rail.name R) _ _ (sym e))
      ∙ find-cons_self (reserving_posting C R accounts req) b

  undone-not_settled :
      (b : List Posting)
      → IsFresh C R accounts req b
      → find (settle_key (Rail.name R) req.transfer_id) (undone b) ≡ none
  undone-not_settled b f =
      find-cons_ne _ (reversing_posting C R accounts req) (reserving_posting C R accounts req ∷ b)
        (reverse_key-ne-settle_key (Rail.name R) _ _)
      ∙ find-cons_ne _ (reserving_posting C R accounts req) b
          (reserve_key-ne-settle_key (Rail.name R) _ _)
      ∙ f.not_settled

  resent_book :
      (c : Core.State C) (r : Rail.State R) (b : List Posting) {o : OutboundResult}
      → IsFresh C R accounts req b
      → book c ≡ undone b
      → (send_outbound C R accounts req (c, r)).0 ≡ ok o
      → o.status ≡ outbound_settled
      → book (send_outbound C R accounts req (c, r)).1.0
        ≡ settling_posting C R accounts req ∷ undone b
  resent_book c r b {o} f e h s =
      let k =
        send_outbound-Settles c r (rw e (undone-reserved b)) (rw e (undone-not_settled b f)) in
      let settles : Settles (book c) (ok o) (book (send_outbound C R accounts req (c, r)).1.0) =
        rw h at k in
      settles s ∙ ap (λ t. settling_posting C R accounts req ∷ t) e

  -- A transfer that was reserved, rejected by the rail and reversed, and then is sent again under
  -- its identifier: if the rail accepts it this time and it comes back as settled, the reserve is
  -- taken for made, so the amount goes out through the rail while the customer has kept it, and
  -- the account in transit is short of it.
  pub resend_pays_twice :
      (d : AreDistinct C R accounts req) (c : Core.State C) (r : Rail.State R) (b : List Posting)
      {o : OutboundResult}
      → IsFresh C R accounts req b
      → book c ≡ undone b
      → (send_outbound C R accounts req (c, r)).0 ≡ ok o
      → o.status ≡ outbound_settled
      → PaidByTheBank req.amount_micros
          (stands C R accounts req b)
          (stands C R accounts req (book (send_outbound C R accounts req (c, r)).1.0))
  resend_pays_twice d c r b {o} f e h s =
      steps-PaidByTheBank req.amount_micros _ _ _ _ (reserve_moves C R accounts L req d b)
        (reverse_moves C R accounts L req d (reserving_posting C R accounts req ∷ b))
        (ap (stands C R accounts req) (resent_book c r b f e h s)
          ∙ settle_moves C R accounts L req d (undone b))
