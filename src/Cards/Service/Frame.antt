-- ===== src/Cards/Service/Frame.antt =====
-- What the steps behind a posting leave of the core and of the table.
use aerarium_agentic_banking.Common.{String, ◌≡◌, refl, none, some, Result, ok, err, Bool}
use aerarium_agentic_banking.Common.Int.{ℤ}
use aerarium_agentic_banking.Core.Entry.{PostResult}
use aerarium_agentic_banking.Core.Errors.{CoreError}
use aerarium_agentic_banking.Core.Client.{Core}
use aerarium_agentic_banking.Cards.Port.{CardDirectory, AuthorizationRequest}
use aerarium_agentic_banking.Cards.Store.{Authorization, Table, Done}
use aerarium_agentic_banking.Cards.Service.{
  Accounts, after_drop, after_mark_held, after_hold, after_mark_cleared, after_posting,
  after_mark_reversed, after_release,
}

module _ (C : Core) (directory : CardDirectory) (accounts : Accounts) (network : String) where
  pub after_drop_keeps :
      (e : CoreError) (c : Core.State C) (a : Done × Table)
      → (after_drop C directory accounts network e c a).1 ≡ (c, a.1)
  unfolding after_drop
  after_drop_keeps e c (none, t) = refl
  after_drop_keeps e c (some x, t) = refl

  pub after_mark_held_keeps :
      (p : PostResult) (c : Core.State C) (a : Done × Table)
      → (after_mark_held C directory accounts network p c a).1 ≡ (c, a.1)
  unfolding after_mark_held
  after_mark_held_keeps p c (none, t) = refl
  after_mark_held_keeps p c (some x, t) = refl

  pub after_mark_cleared_keeps :
      (a : Authorization) (final : ℤ) (absorbed : Bool) (p : PostResult) (c : Core.State C)
      (d : Done × Table)
      → (after_mark_cleared C directory accounts network a final absorbed p c d).1 ≡ (c, d.1)
  unfolding after_mark_cleared
  after_mark_cleared_keeps a final absorbed p c (none, t) = refl
  after_mark_cleared_keeps a final absorbed p c (some x, t) = refl

  pub after_mark_reversed_keeps :
      (c : Core.State C) (d : Done × Table)
      → (after_mark_reversed C directory accounts network c d).1 ≡ (c, d.1)
  unfolding after_mark_reversed
  after_mark_reversed_keeps c (none, t) = refl
  after_mark_reversed_keeps c (some x, t) = refl

  pub after_hold_core :
      (req : AuthorizationRequest) (t : Table) (a : Result CoreError PostResult × Core.State C)
      → (after_hold C directory accounts network req t a).1.0 ≡ a.1
  unfolding after_hold
  after_hold_core req t (ok p, c) = rw after_mark_held_keeps refl
  after_hold_core req t (err e, c) = rw after_drop_keeps refl

  pub after_posting_core :
      (a : Authorization) (final : ℤ) (absorbed : Bool) (t : Table)
      (p : Result CoreError PostResult × Core.State C)
      → (after_posting C directory accounts network a final absorbed t p).1.0 ≡ p.1
  unfolding after_posting
  after_posting_core a final absorbed t (ok p, c) = rw after_mark_cleared_keeps refl
  after_posting_core a final absorbed t (err e, c) = refl

  pub after_release_core :
      (a : Authorization) (t : Table) (p : Result CoreError PostResult × Core.State C)
      → (after_release C directory accounts network a t p).1.0 ≡ p.1
  unfolding after_release
  after_release_core a t (ok p, c) = rw after_mark_reversed_keeps refl
  after_release_core a t (err e, c) = refl
