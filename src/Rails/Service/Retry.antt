-- ===== src/Rails/Service/Retry.antt =====
-- What a second delivery of an incoming credit does, whenever it comes.
use aerarium_agentic_banking.Common.{
  String, ◌≡◌, ◌≢◌, ◌⊎◌, inl, inr, refl, sym, ap, ◌∙◌, true, false, some, arith, eq_iff, eq_refl,
  eq_false_of_ne, ◌==◌, Bool-cases, Result, ok, err,
}
use aerarium_agentic_banking.Common.Int.{ℤ, pos, pos_part, neg_part, ◌+ℤ◌, leb_ℤ, int_laws}
use aerarium_agentic_banking.Core.Entry.{PostResult}
use aerarium_agentic_banking.Core.Errors.{CoreError, idempotency_conflict, unavailable}
use aerarium_agentic_banking.Core.Client.{Core}
use aerarium_agentic_banking.Core.Book.{
  Posting, posting, find, Retried, Refused, IsLedger, Recorded-held, post-find,
}
use aerarium_agentic_banking.Rails.Port.{RailError, InboundCredit, Rail, AccountResolver}
use aerarium_agentic_banking.Rails.Service.{
  Accounts, InboundResult, ServiceError, crediting, rail_error, inbound_key, inbound_entries,
  after_credit, after_alias, handle_inbound_credit,
}

-- The answer to a notification that was applied before, by what the directory says of the alias
-- now: the directory's error; or a duplicate on the same account; or that the core was not reached;
-- or, if the alias is another account's now, a conflict.
abbrev pub Redelivered :
    InboundResult → Result RailError String → Result ServiceError InboundResult → Type 0
Redelivered x (err e) y = y ≡ err (rail_error e)
Redelivered x (ok id) (ok y) =
    (id ≡ x.account_id) × (y.duplicate ≡ true) × (y.account_id ≡ x.account_id)
Redelivered x (ok id) (err (crediting e)) =
    (e.sentinel ≡ unavailable) ⊎ ((id ≢ x.account_id) × (e.sentinel ≡ idempotency_conflict))
Redelivered x (ok id) (err _) = ⊥

cancel_left : (k a : ℤ) → k +ℤ (a +ℤ pos 0) ≡ k +ℤ (pos 0 +ℤ pos 0) → a ≡ pos 0
cancel_left k a h = omega (int_laws, ap pos_part h, ap neg_part h)

module _ (C : Core) (R : Rail) (accounts : Accounts) (L : IsLedger C) where
  open L use {book}

  abbrev inbound_posting : InboundCredit → String → Posting
  inbound_posting credited id =
      posting (inbound_key (Rail.name R) credited.rail_transaction_id) "rail_inbound_credit"
        (inbound_entries C R accounts credited id)

  -- Credits of different accounts are different payloads.
  other_account :
      (credited : InboundCredit) (x y : String) (q : Posting)
      → leb_ℤ credited.amount_micros (pos 0) ≡ false
      → x ≢ y
      → L.Same (inbound_posting credited x) q
      → ¬ L.Same (inbound_posting credited y) q
  other_account credited x y q positive differ h k =
      let e =
        sym (L.same_effect (inbound_posting credited x) q h x credited.currency)
        ∙ L.same_effect (inbound_posting credited y) q k x credited.currency in
      let n = eq_false_of_ne y x (λ z. differ (sym z)) in
      let z = rw (eq_refl x, eq_refl credited.currency, n) at e in
      let zero = rw (cancel_left _ credited.amount_micros z) at positive in absurd (ground arith)

  module _ (D : AccountResolver) where
    after_credit-again :
        (x : InboundResult) (d : AccountResolver.State D)
        (a : Result CoreError PostResult × Core.State C)
        → Retried a.0
        → Redelivered x (ok x.account_id) (after_credit C R accounts D x.account_id d a).0
    unfolding after_credit
    after_credit-again x d (ok p, c) k = (refl, k, refl)
    after_credit-again x d (err e, c) k = inl k

    after_credit-other :
        (x : InboundResult) (id : String) (d : AccountResolver.State D)
        (a : Result CoreError PostResult × Core.State C)
        → id ≢ x.account_id
        → Refused a.0
        → Redelivered x (ok id) (after_credit C R accounts D id d a).0
    unfolding after_credit
    after_credit-other x id d (ok p, c) n k = absurd k
    after_credit-other x id d (err e, c) n (inl k) = inr (n, k)
    after_credit-other x id d (err e, c) n (inr k) = inl k

    after_credit_core :
        (id : String) (d : AccountResolver.State D) (a : Result CoreError PostResult × Core.State C)
        → (after_credit C R accounts D id d a).1.0 ≡ a.1
    unfolding after_credit
    after_credit_core id d (ok p, c) = refl
    after_credit_core id d (err e, c) = refl

    after_credit-ok :
        (id : String) (d : AccountResolver.State D) (a : Result CoreError PostResult × Core.State C)
        (x : InboundResult)
        → (after_credit C R accounts D id d a).0 ≡ ok x
        → (x.account_id ≡ id) × ((r : PostResult) × (a.0 ≡ ok r))
    unfolding after_credit
    after_credit-ok id d (ok p, c) x h = (cc, (p, refl))
    after_credit-ok id d (err e, c) x h = cc

    -- What a credit that was applied leaves in the book.
    after_alias-Applied :
        (credited : InboundCredit) (c : Core.State C)
        (a : Result RailError String × AccountResolver.State D) (x : InboundResult)
        → (after_alias C R accounts D credited c a).0 ≡ ok x
        → (q : Posting) × (find
              (inbound_key (Rail.name R) credited.rail_transaction_id)
              (book (after_alias C R accounts D credited c a).1.0)
            ≡ some q)
          × L.Same (inbound_posting credited x.account_id) q
    unfolding after_alias
    after_alias-Applied credited c (err e, d) x h = cc
    after_alias-Applied credited c (ok id, d) x h =
        let (same_id, (r, answered)) = after_credit-ok id d _ x h in
        let (q, found, same) = post-find C L _ _ _ _ c answered in
        (q, rw after_credit_core found, rw same_id same)

    after_alias-again :
        (credited : InboundCredit) (c : Core.State C)
        (a : Result RailError String × AccountResolver.State D) (x : InboundResult) (q : Posting)
        → leb_ℤ credited.amount_micros (pos 0) ≡ false
        → find (inbound_key (Rail.name R) credited.rail_transaction_id) (book c) ≡ some q
        → L.Same (inbound_posting credited x.account_id) q
        → Redelivered x a.0 (after_alias C R accounts D credited c a).0
          × (book (after_alias C R accounts D credited c a).1.0 ≡ book c)
    unfolding after_alias
    after_alias-again credited c (err e, d) x q positive found same = (refl, refl)
    after_alias-again credited c (ok id, d) x q positive found same = (
      elim (Bool-cases (id == x.account_id)) [
        | inl y ↦
            let e = (eq_iff id x.account_id).0 y in
            rw e (after_credit-again x d _ (L.retries _ _ _ _ c q found same))
        | inr y ↦
            let n : id ≢ x.account_id = λ e. ground (arith, y, (eq_iff id x.account_id).1 e) in
            after_credit-other x id d _ n (
              L.conflicts _ _ _ _ c q found
                (other_account credited x.account_id id q positive (λ e. n (sym e)) same))
      ],
      rw after_credit_core (
          Recorded-held L.Same (inbound_posting credited id) (book c) _ _ q found
            (L.records _ _ _ _ c)),
    )

    -- What the two early returns leave.
    handle_inbound_credit-ok :
        (credited : InboundCredit) (c : Core.State C) (d : AccountResolver.State D)
        (x : InboundResult)
        → (handle_inbound_credit C R accounts D credited (c, d)).0 ≡ ok x
        → ((credited.rail_transaction_id == "") ≡ false)
          × (leb_ℤ credited.amount_micros (pos 0) ≡ false)
    unfolding handle_inbound_credit
    handle_inbound_credit-ok credited c d x h = ground arith

    -- A notification that was applied and is delivered again, at any later time at which the core
    -- still has what its book held under the notification's key, and whatever has become of the
    -- directory: nothing changes in the book, and the answer is the directory's error, a duplicate
    -- on the same account, that the core was not reached, or, only if the directory names another
    -- account now, a conflict.
    pub handle_inbound_credit_again :
        (credited : InboundCredit) (c later : Core.State C) (d now : AccountResolver.State D)
        {x : InboundResult}
        → (handle_inbound_credit C R accounts D credited (c, d)).0 ≡ ok x
        → find (inbound_key (Rail.name R) credited.rail_transaction_id) (book later)
          ≡ find
              (inbound_key (Rail.name R) credited.rail_transaction_id)
              (book (handle_inbound_credit C R accounts D credited (c, d)).1.0)
        → let (y, (c2, _)) = handle_inbound_credit C R accounts D credited (later, now) in
          Redelivered x (AccountResolver.account_id_for_alias D credited.to_alias now).0 y
          × (book c2 ≡ book later)
    unfolding handle_inbound_credit
    handle_inbound_credit_again credited c later d now {x} h kept =
        let (given, positive) = handle_inbound_credit-ok credited c d x h in
        let (q, found, same) = after_alias-Applied credited c _ x (rw (given, positive) at h) in
        let k = rw (given, positive) at kept in
        rw (given, positive) (after_alias-again credited later _ x q positive (k ∙ found) same)
