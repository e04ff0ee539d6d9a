-- ===== src/Rails/Sim/Idempotent.antt =====
-- Resending an order to the simulated rail.
use mathlib.Core.List.{reverse, reverse-append, append_assoc, append-nil}
use aerarium_agentic_banking.Common.{
  ℕ, ◌≡◌, refl, sym, ◌∙◌, ap, Option, none, some, List, [], ◌∷◌, ◌++◌, arith, ok, lookup,
  lookup-insert, eq_refl,
}
use aerarium_agentic_banking.Rails.Port.{
  RailError, AliasTarget, SendRequest, SendReceipt, InboundCredit,
}
use aerarium_agentic_banking.Rails.Sim.{
  Outside, SimRail, wait, send_waited, send_once, send_to, send_new, send, fail_next_sends,
  reject_next_sends, shuffle, shuffle_onto,
}

send_new_recorded :
    (o : Outside) (req : SendRequest) (r : SimRail) (t : SendReceipt)
    → (send_new o req r).0 ≡ ok t
    → lookup req.transfer_id (send_new o req r).1.sent ≡ some t
unfolding send_new
send_new_recorded o req r t h =
    ground (arith, lookup-insert req.transfer_id req.transfer_id t r.sent, eq_refl req.transfer_id)

send_to_recorded :
    (o : Outside) (req : SendRequest) (a : Option AliasTarget) (r : SimRail) (t : SendReceipt)
    → (send_to o req a r).0 ≡ ok t
    → lookup req.transfer_id (send_to o req a r).1.sent ≡ some t
unfolding send_to
send_to_recorded o req none r t h = cc
send_to_recorded o req (some a) r t h = send_new_recorded o req r t h

send_once_recorded :
    (o : Outside) (req : SendRequest) (a : Option SendReceipt) (r : SimRail) (t : SendReceipt)
    → lookup req.transfer_id r.sent ≡ a
    → (send_once o req a r).0 ≡ ok t
    → lookup req.transfer_id (send_once o req a r).1.sent ≡ some t
unfolding send_once
send_once_recorded o req (some x) r t e h = e ∙ cc
send_once_recorded o req none r t e h = send_to_recorded o req (lookup req.alias r.aliases) r t h

send_waited_recorded :
    (o : Outside) (req : SendRequest) (w : Option RailError) (r : SimRail) (t : SendReceipt)
    → (send_waited o req w r).0 ≡ ok t
    → lookup req.transfer_id (send_waited o req w r).1.sent ≡ some t
unfolding send_waited
send_waited_recorded o req (some e) r t h = cc
send_waited_recorded o req none r t h = send_once_recorded o req _ r t refl h

pub send_recorded :
    (o : Outside) (req : SendRequest) (r : SimRail) (t : SendReceipt)
    → (send o req r).0 ≡ ok t
    → lookup req.transfer_id (send o req r).1.sent ≡ some t
unfolding send
send_recorded o req r t h = send_waited_recorded o req (wait o r) r t h

-- The rail with other failures and rejections programmed.
abbrev pub rearmed : ℕ → ℕ → SimRail → SimRail
rearmed fail reject r = fail_next_sends fail (reject_next_sends reject r)

-- An order for which the rail gave a receipt gets the same receipt whenever an order with its
-- identifier comes again and does not end in the wait, even for another alias or amount, whatever
-- failures and rejections are programmed by then; the rail does not register it as a call, nor
-- change in any other way.
pub send_again :
    (o o' : Outside) (req req' : SendRequest) (r : SimRail) (fail reject : ℕ) {t : SendReceipt}
    → (send o req r).0 ≡ ok t
    → req'.transfer_id ≡ req.transfer_id
    → wait o' (rearmed fail reject (send o req r).1) ≡ none
    → send o' req' (rearmed fail reject (send o req r).1)
      ≡ (ok t, rearmed fail reject (send o req r).1)
unfolding send fail_next_sends reject_next_sends
send_again o o' req req' r fail reject {t} h same waited =
    rw (waited, same, send_recorded o req r t h)

-- `Shuffle` reverses.
shuffle_onto-reverse : (l out : List InboundCredit) → shuffle_onto l out ≡ reverse l ++ out
unfolding shuffle_onto
shuffle_onto-reverse [] out = refl
shuffle_onto-reverse (c ∷ l) out =
    shuffle_onto-reverse l (c ∷ out)
    ∙ sym (append_assoc (reverse l) (c ∷ []) out)
    ∙ ap (λ t. t ++ out) (sym (reverse-append (c ∷ []) l))

-- Shuffling notifications delivers all of them, in the reverse order.
pub shuffle-reverse : (l : List InboundCredit) → shuffle l ≡ reverse l
unfolding shuffle
shuffle-reverse l = shuffle_onto-reverse l [] ∙ append-nil (reverse l)
