-- ===== src/Control/Delegate.antt =====
-- What an actor other than the holder may do, and what nobody may do without the holder's phone.
use aerarium_agentic_banking.Common.{
  ℕ, String, ◌≡◌, ◌≢◌, refl, ◌↔◌, ◌∙◌, inl, inr, true, false, Option, none, some, ◌==◌, eqb, arith,
  ◌≤◌, ◌<◌, Result, ok, Bool-cases, contains, eq_iff,
}
use aerarium_agentic_banking.Common.Int.{ℤ, ◌≤ℤ◌}
use aerarium_agentic_banking.Control.{
  Level, level_human, catalog, Grant, Request, allow, confirm, deny, Decision, ControlError,
  TransferPolicy, exceeds, refusal, refuse_or_allow, by_grant, for_delegate, for_holder, by_level,
  evaluate, actor_holder,
}

-- A limit that the amount keeps.
abbrev pub Within : ℤ → Option ℤ → Type 0
Within amount none = Unit
Within amount (some limit) = amount ≤ℤ limit

-- A grant that permits a request of a level at a time.
pub record Permits (now : ℕ) (req : Request) (level : Level) (g : Grant) : Type 0 where
  pub not_revoked : g.revoked ≡ false
  pub not_expired : now < g.expires_at
  pub in_scope : contains g.actions req.action ≡ true
  pub level_enough : level ≤ g.level
  pub within_operation : Within req.amount_micros g.max_per_operation
  pub within_remaining : Within req.amount_micros g.remaining

Within-of_exceeds : (a : ℤ) (o : Option ℤ) → exceeds a o ≡ false → Within a o
Within-of_exceeds a none h = tt
Within-of_exceeds a (some l) h = ground arith

exceeds_of_Within : (a : ℤ) (o : Option ℤ) → Within a o → exceeds a o ≡ false
exceeds_of_Within a none h = refl
exceeds_of_Within a (some l) h = ground arith

deny_ne_allow : ◌≢◌ {A = String} deny allow
deny_ne_allow = ground (arith, eq_iff deny allow)

confirm_ne_allow : ◌≢◌ {A = String} confirm allow
confirm_ne_allow = ground (arith, eq_iff confirm allow)

refusal-Permits :
    (now : ℕ) (req : Request) (level : Level) (g : Grant)
    → refusal now req level g ≡ none
    → Permits now req level g
refusal-Permits now req level g h = record {
  not_revoked = ground arith;
  not_expired = ground arith;
  in_scope = ground arith;
  level_enough = ground arith;
  within_operation = Within-of_exceeds req.amount_micros g.max_per_operation (ground arith);
  within_remaining = Within-of_exceeds req.amount_micros g.remaining (ground arith);
}

Permits-refusal :
    (now : ℕ) (req : Request) (level : Level) (g : Grant)
    → Permits now req level g
    → refusal now req level g ≡ none
Permits-refusal now req level g p =
    rw
      (
        p.not_revoked,
        p.in_scope,
        exceeds_of_Within req.amount_micros _ p.within_operation,
        exceeds_of_Within req.amount_micros _ p.within_remaining,
      )
      (ground (arith, p.not_expired, p.level_enough))

refuse_or_allow_iff :
    (o : Option String) (level : Level) → ((refuse_or_allow o level).outcome ≡ allow) ↔ (o ≡ none)
refuse_or_allow_iff none level = (λ _. refl, λ _. refl)
refuse_or_allow_iff (some r) level = (λ h. absurd (deny_ne_allow h), λ h. cc)

granted : (g g' : Grant) → some g ≡ some g' → g ≡ g'
granted g g' h = cc

by_grant_iff :
    (now : ℕ) (req : Request) (level : Level) (o : Option Grant)
    → ((by_grant now req level o).outcome ≡ allow)
      ↔ ((g : Grant) × (o ≡ some g) × Permits now req level g)
by_grant_iff now req level none = (λ h. absurd (deny_ne_allow h), λ h. cc)
by_grant_iff now req level (some g) = (
  λ h. (g, refl, refusal-Permits now req level g ((refuse_or_allow_iff _ level).0 h)),
  λ h.
      (refuse_or_allow_iff _ level).1
        (Permits-refusal now req level g (rw (granted g h.0 h.1) h.2)),
)

-- An actor other than the holder is allowed a request of a level exactly if the level is not the
-- human one and there is a grant that is neither revoked nor expired, that names the action, that
-- has at least the level, and both of whose limits the amount keeps.
pub for_delegate_iff :
    (now : ℕ) (req : Request) (level : Level)
    → ((for_delegate now req level).outcome ≡ allow)
      ↔ ((level ≢ level_human) × ((g : Grant) × (req.grant ≡ some g) × Permits now req level g))
unfolding for_delegate
for_delegate_iff now req level = elim (Bool-cases (eqb level level_human)) [
  | inl human ↦ rw human (λ h. absurd (deny_ne_allow h), λ h. absurd (h.0 (ground arith)))
  | inr delegable ↦ rw delegable (
    λ h. (λ e. ground arith, (by_grant_iff now req level req.grant).0 h),
    λ h. (by_grant_iff now req level req.grant).1 h.1,
  )
]

outcome_of :
    {x y : Decision} → ◌≡◌ {A = Result ControlError Decision} (ok x) (ok y) → x.outcome ≡ y.outcome
outcome_of h = cc

-- Whoever asks for an action of the human level, and whatever grant comes with it, is at most
-- asked to confirm: the action is never simply allowed.
pub human_level_never_allowed :
    (transfers : Option TransferPolicy) (now : ℕ) (req : Request) {d : Decision}
    → catalog req.action ≡ some level_human
    → evaluate transfers now req ≡ ok d
    → d.outcome ≢ allow
unfolding evaluate by_level for_holder for_delegate
human_level_never_allowed transfers now req {d} h e a =
    let z = rw h at e in
    elim (Bool-cases (req.actor.kind == actor_holder)) [
      | inl holder ↦ let y = rw holder at z in confirm_ne_allow (outcome_of y ∙ a)
      | inr other ↦ let y = rw other at z in deny_ne_allow (outcome_of y ∙ a)
    ]
