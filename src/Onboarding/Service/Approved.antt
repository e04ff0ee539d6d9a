-- ===== src/Onboarding/Service/Approved.antt =====
-- Which applications are approved.
use aerarium_agentic_banking.Common.{
  String, ◌≡◌, ◌==◌, ◌∙◌, ◌≢◌, sym, ap, refl, true, some, Option, none, List, arith, eq_iff,
  Bool-cases, Option-cases, inl, inr,
}
use aerarium_agentic_banking.Common.Action.{exec_exec-Keeps}
use aerarium_agentic_banking.Core.Client.{Core}
use aerarium_agentic_banking.Kyc.Port.{IdentityVerifier, SanctionsScreener}
use aerarium_agentic_banking.Onboarding.Store.{
  Status, approved, account_opening, Application, StepRecord, StepRow, is_some, find, update,
  insert_step, insert_application, find_ref, record_step, set_account,
}
use aerarium_agentic_banking.Onboarding.Store.Rows.{
  record_of, updated, find-update, find_append, record_stays, is_recorded,
}
use aerarium_agentic_banking.Onboarding.Service.{State, recorded}
use aerarium_agentic_banking.Onboarding.Service.Frame.{
  IsFrame, Unapproved, again, review, refused, Calls, Calls-frame,
}

-- An approved application has a record of the opening of its account.
abbrev pub IsOpened : List Application → List StepRow → Type 0
IsOpened apps rows =
    (id : String) (a : Application)
    → find id apps ≡ some a
    → a.status ≡ approved
    → is_some (record_of id account_opening rows) ≡ true

step_IsOpened :
    (id : String) (r : StepRecord) (apps : List Application) (rows : List StepRow)
    → IsOpened apps rows
    → IsOpened apps (insert_step id r rows)
step_IsOpened id r apps rows h j a k e = elim (Option-cases (record_of j account_opening rows)) [
  | inl n ↦ let z = h j a k e in let y = rw n at z in ground arith
  | inr (q, n) ↦ rw (record_stays id j r account_opening rows n) refl
]

updated_of :
    (f : Application → Application) (o : Option Application) {a : Application}
    → updated f o ≡ some a
    → (b : Application) × (o ≡ some b) × (a ≡ f b)
updated_of f none h = absurd (ground arith)
updated_of f (some b) h = (b, refl, cc)

unapproved : {x : Status} → Unapproved x → x ≢ approved
unapproved again h = ground arith
unapproved review h = ground arith
unapproved refused h = ground arith

status_IsOpened :
    (id reason : String) {x : Status} (apps : List Application) (rows : List StepRow)
    → Unapproved x
    → IsOpened apps rows
    → IsOpened (update id (λ a. record a { status = x; decision_reason = reason }) apps) rows
status_IsOpened id reason {x} apps rows u h j a k e =
    let z =
      rw
        (find-update id j (λ b. record b { status = x; decision_reason = reason }) (λ b. refl) apps)
        at k in
    elim (Bool-cases (id == j)) [
      | inl same ↦
          let y = rw same at z in
          let (b, p, q) = updated_of _ (find j apps) y in
          absurd (unapproved u (ap (λ c. c.status) (sym q) ∙ e))
      | inr other ↦ let y = rw other at z in h j a y e
    ]

set_IsOpened :
    (id account_id : String) (apps : List Application) (rows : List StepRow)
    → is_some (record_of id account_opening rows) ≡ true
    → IsOpened apps rows
    → IsOpened (update id (λ a. record a { status = approved; account_id = account_id }) apps) rows
set_IsOpened id account_id apps rows o h j a k e =
    let z =
      rw
        (find-update id j (λ b. record b { status = approved; account_id = account_id }) (λ b. refl)
          apps)
        at k in
    elim (Bool-cases (id == j)) [
      | inl same ↦ rw (sym ((eq_iff id j).0 same)) o
      | inr other ↦ let y = rw other at z in h j a y e
    ]

application_IsOpened :
    (b : Application) (apps : List Application) (rows : List StepRow)
    → b.status ≢ approved
    → IsOpened apps rows
    → IsOpened (insert_application b apps) rows
unfolding insert_application
application_IsOpened b apps rows u h j a k e =
    elim (Bool-cases (is_some (find_ref b.external_ref apps))) [
      | inl x ↦ let z = rw x at k in h j a z e
      | inr x ↦
          let z = rw (x, find_append j b apps) at k in
          elim (Option-cases (find j apps)) [
            | inl n ↦ let y = rw n at z in absurd (ground (arith, u, e, y))
            | inr (c, n) ↦ let y = rw n at z in h j a (n ∙ y) e
          ]
    ]

module _ (C : Core) (V : IdentityVerifier) (S : SanctionsScreener) where
  IsOpened-IsFrame :
      IsFrame C V S (λ s t. IsOpened s.applications s.steps → IsOpened t.applications t.steps)
  unfolding record_step set_account
  IsOpened-IsFrame = record {
    steady = λ s h. h;
    follow = λ s t u f g h. g (f h);
    identity = λ s i h. h;
    screening = λ s i h. h;
    core = λ s c h. h;
    step = λ s id r h. step_IsOpened id r s.applications s.steps h;
    status = λ s id reason u h. status_IsOpened id reason s.applications s.steps u h;
    application = λ s id req h. application_IsOpened _ s.applications s.steps (unapproved again) h;
    account = λ id account_id.
        exec_exec-Keeps _ (λ s h. h) _ _ _ _ (λ s h. step_IsOpened id _ s.applications s.steps h)
          (λ s h.
            set_IsOpened id account_id s.applications _
              (is_recorded id (recorded account_opening "opened" "core" account_id "") s.steps)
              (step_IsOpened id _ s.applications s.steps h));
  }

  -- Through any sequence of calls, with any statements failing, every approved application has the
  -- opening of its account on record, if that was so at first.
  pub approved-IsOpened :
      {s t : State C V S}
      → Calls C V S s t
      → IsOpened s.applications s.steps
      → IsOpened t.applications t.steps
  approved-IsOpened = Calls-frame C V S IsOpened-IsFrame
