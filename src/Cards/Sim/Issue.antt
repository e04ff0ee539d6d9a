-- ===== src/Cards/Sim/Issue.antt =====
-- Issuing a card is idempotent by its reference.
use aerarium_agentic_banking.Common.{
  String, false, ◌==◌, ◌≡◌, refl, Option, none, some, ok, lookup, lookup-insert, eq_refl, arith,
}
use aerarium_agentic_banking.Cards.Port.{Card, CardStatus, IssueCardRequest}
use aerarium_agentic_banking.Cards.Sim.{
  Processor, issue_once, issue_card, set_found, set_status, or_unknown, card, new_card,
}

issue_once_again :
    (uuid uuid' reference : String) (req req' : IssueCardRequest) (o : Option String)
    (p : Processor)
    → lookup reference p.issue ≡ o
    → issue_once uuid' reference req'
        (lookup reference (issue_once uuid reference req o p).1.issue)
        (issue_once uuid reference req o p).1
      ≡ issue_once uuid reference req o p
unfolding issue_once
issue_once_again uuid uuid' reference req req' (some id) p h = rw h refl
issue_once_again uuid uuid' reference req req' none p h =
    rw
      (
        lookup-insert reference reference (new_card uuid req p).id p.issue,
        eq_refl reference,
        lookup-insert (new_card uuid req p).id (new_card uuid req p).id (new_card uuid req p)
            p.by_id,
        eq_refl (new_card uuid req p).id,
      )
      refl

-- Asking for a card again under a reference returns the same card and issues none, whatever the
-- second request asks for.
pub issue_card_again :
    (uuid uuid' reference : String) (req req' : IssueCardRequest) (p : Processor)
    → issue_card uuid' reference req' (issue_card uuid reference req p).1
      ≡ issue_card uuid reference req p
unfolding issue_card
issue_card_again uuid uuid' reference req req' p =
    issue_once_again uuid uuid' reference req req' (lookup reference p.issue) p refl

set_found_shown :
    (id : String) (status : CardStatus) (c : Card) (p : Processor)
    → card (set_found id status (some c) p).1 id ≡ ok (record c { status = status })
unfolding set_found card or_unknown
set_found_shown id status c p = rw (lookup-insert id id _ p.by_id, eq_refl id)

set_found_frame :
    (id other : String) (status : CardStatus) (c : Card) (p : Processor)
    → (id == other) ≡ false
    → card (set_found id status (some c) p).1 other ≡ card p other
unfolding set_found card
set_found_frame id other status c p h = rw (lookup-insert id other _ p.by_id, h) refl

card-ok : (p : Processor) (id : String) (c : Card) → card p id ≡ ok c → lookup id p.by_id ≡ some c
unfolding card or_unknown
card-ok p id c h = ground arith

set_found-none :
    (id : String) (status : CardStatus) (c : Card) (p : Processor)
    → (set_found id status (some c) p).0 ≡ none
unfolding set_found
set_found-none id status c p = refl

-- Setting the status of a card that exists succeeds, changes the card's status and nothing else of
-- it, and leaves every other card as it was.
pub set_status_shown :
    (id other : String) (status : CardStatus) (c : Card) (p : Processor)
    → card p id ≡ ok c
    → (id == other) ≡ false
    → ((set_status id status p).0 ≡ none)
      × (card (set_status id status p).1 id ≡ ok (record c { status = status }))
      × (card (set_status id status p).1 other ≡ card p other)
unfolding set_status
set_status_shown id other status c p h ne = rw (card-ok p id c h) (
  set_found-none id status c p,
  set_found_shown id status c p,
  set_found_frame id other status c p ne,
)
