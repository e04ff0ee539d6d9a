-- ===== src/Oauth/Resolved.antt =====
-- What a holder may grant, and that an answer is given once.
use aerarium_agentic_banking.Common.{
  ℕ, ◌≤◌, String, ◌≡◌, refl, ap, ◌∙◌, ◌↔◌, ◌==◌, ◌&&◌, ◌||◌, Bool, true, false, Option, none, some,
  List, [], ◌∷◌, ◌++◌, arith, ltb, if◌then◌else◌, Bool-cases, inl, inr,
}
use aerarium_agentic_banking.Common.Int.{ℤ, ◌≤ℤ◌}
use aerarium_agentic_banking.Common.Action.{
  Keeps, bind-Keeps, statement-Keeps, or_raise-Keeps, return-Keeps,
}
use aerarium_agentic_banking.Oauth.Store.{
  ConsentStatus, consent_pending, consent_approved, consent_rejected, consent_expired_status,
  ConsentRequest, Tables, is_some,
}
use aerarium_agentic_banking.Oauth.Consent.{
  is_pending, observed_status, exceeds, check_limits, by_status, check_grantable, find_consent,
  handoff_taken, insert_consent, resolve_rows, has_pending, resolve, new_request,
  new_consent_request, approved_with, rejected_at, approve_consent_request, reject_consent_request,
}

-- Not more than was asked for; an unlimited grant only where no limit was asked for.
abbrev pub NotMore : Option ℤ → Option ℤ → Type 0
NotMore granted none = Unit
NotMore none (some requested) = ⊥
NotMore (some granted) (some requested) = granted ≤ℤ requested

NotMore-iff : (g r : Option ℤ) → (exceeds g r ≡ false) ↔ NotMore g r
NotMore-iff g none = (λ h. tt, λ h. refl)
NotMore-iff none (some r) = (λ h. ground arith, λ h. absurd h)
NotMore-iff (some g) (some r) = (λ h. ground arith, λ h. ground arith)

limits_iff :
    (c : ConsentRequest) (p t : Option ℤ)
    → (check_limits c p t ≡ none)
      ↔ (NotMore p c.requested_max_per_operation × NotMore t c.requested_max_total)
unfolding check_limits
limits_iff c p t = elim (Bool-cases (exceeds p c.requested_max_per_operation)) [
  | inl e ↦ rw e (
    λ h. absurd (ground arith),
    λ h. absurd (ground (arith, e, (NotMore-iff p c.requested_max_per_operation).1 h.0)),
  )
  | inr e ↦ rw e (elim (Bool-cases (exceeds t c.requested_max_total)) [
    | inl f ↦ rw f (
      λ h. absurd (ground arith),
      λ h. absurd (ground (arith, f, (NotMore-iff t c.requested_max_total).1 h.1)),
    )
    | inr f ↦ rw f (
      λ h. (
        (NotMore-iff p c.requested_max_per_operation).0 e,
        (NotMore-iff t c.requested_max_total).0 f,
      ),
      λ h. refl,
    )
  ])
]

by_status_iff :
    (now : ℕ) (c : ConsentRequest) (x : ConsentStatus) (p t : Option ℤ)
    → c.status ≡ x
    → (by_status c p t (if is_pending x && ltb c.expires_at now then consent_expired_status else x)
        ≡ none)
      ↔ ((x ≡ consent_pending)
          × (now ≤ c.expires_at)
          × (NotMore p c.requested_max_per_operation × NotMore t c.requested_max_total))
unfolding by_status
by_status_iff now c consent_pending p t s = elim (Bool-cases (ltb c.expires_at now)) [
  | inl e ↦ rw e (λ h. absurd (ground arith), λ h. absurd (ground (arith, e, h.1)))
  | inr e ↦
      rw e (λ h. (refl, ground (arith, e), (limits_iff c p t).0 h), λ h. (limits_iff c p t).1 h.2)
]
by_status_iff now c consent_approved p t s =
    (λ h. absurd (ground arith), λ h. absurd (ground (arith, h.0)))
by_status_iff now c consent_rejected p t s =
    (λ h. absurd (ground arith), λ h. absurd (ground (arith, h.0)))
by_status_iff now c consent_expired_status p t s =
    (λ h. absurd (ground arith), λ h. absurd (ground (arith, h.0)))

-- A grant is accepted exactly for a request that is pending and not past its end, with neither limit
-- above the one asked for.
pub check_grantable_iff :
    (now : ℕ) (c : ConsentRequest) (p t : Option ℤ)
    → (check_grantable now c p t ≡ none) ↔ (
        (c.status ≡ consent_pending)
        × (now ≤ c.expires_at)
        × (NotMore p c.requested_max_per_operation × NotMore t c.requested_max_total))
unfolding check_grantable observed_status
check_grantable_iff now c p t = by_status_iff now c c.status p t refl

-- A request that was answered is found as it was answered.
pub record Answered (before after : List ConsentRequest) : Type 0 where
  pub stays :
      (id : String) {c : ConsentRequest}
      → find_consent id before ≡ some c
      → is_pending c.status ≡ false
      → find_consent id after ≡ some c

find_consent-append :
    (id : String) (l m : List ConsentRequest) {c : ConsentRequest}
    → find_consent id l ≡ some c
    → find_consent id (l ++ m) ≡ some c
unfolding find_consent
find_consent-append id [] m h = absurd (ground arith)
find_consent-append id (b ∷ l) m h = elim (Bool-cases (b.id == id)) [
  | inl e ↦ let z = rw e at h in rw e z
  | inr e ↦ let z = rw e at h in rw e (find_consent-append id l m z)
]

some_eq : {x y : ConsentRequest} → some x ≡ some y → x ≡ y
some_eq h = cc

pending_clash :
    (b c : ConsentRequest) (id : String)
    → b ≡ c
    → ((b.id == id) && is_pending b.status) ≡ true
    → ¬ (is_pending c.status ≡ false)
pending_clash b c id e h n = ground (arith, ap (λ x. is_pending x.status) e, h, n)

resolve_rows-Answered :
    (j id : String) (f : ConsentRequest → ConsentRequest)
    → ((c : ConsentRequest) → (f c).id ≡ c.id)
    → (l : List ConsentRequest) {c : ConsentRequest} → find_consent j l ≡ some c
    → is_pending c.status ≡ false
    → find_consent j (resolve_rows id f l) ≡ some c
unfolding find_consent resolve_rows
resolve_rows-Answered j id f k [] h n = absurd (ground arith)
resolve_rows-Answered j id f k (b ∷ l) {c} h n =
    elim (Bool-cases ((b.id == id) && is_pending b.status)) [
      | inl e ↦ elim (Bool-cases (b.id == j)) [
        | inl g ↦ let z = rw g at h in absurd (pending_clash b c id (some_eq z) e n)
        | inr g ↦
            let z = rw g at h in
            rw (e, ap (λ x. x == j) (k b) ∙ g) (resolve_rows-Answered j id f k l z n)
      ]
      | inr e ↦ elim (Bool-cases (b.id == j)) [
        | inl g ↦ let z = rw g at h in rw (e, g) z
        | inr g ↦ let z = rw g at h in rw (e, g) (resolve_rows-Answered j id f k l z n)
      ]
    ]

Answered-refl : (l : List ConsentRequest) → Answered l l
Answered-refl l = record { stays = λ id h n. h }

Answered-follow :
    (s t u : Tables)
    → Answered s.consents t.consents
    → Answered t.consents u.consents
    → Answered s.consents u.consents
Answered-follow s t u h k = record { stays = λ id x n. k.stays id (h.stays id x n) n }

insert-Answered :
    (c : ConsentRequest) (t : Tables) → Answered t.consents (insert_consent c t).1.consents
unfolding insert_consent
insert-Answered c t =
    elim (Bool-cases
      (is_some (find_consent c.id t.consents) || handoff_taken c.handoff_code t.consents)) [
        | inl e ↦ rw e (Answered-refl t.consents)
        | inr e ↦ rw e (record { stays = λ id h n. find_consent-append id t.consents _ h })
      ]

resolve-Answered :
    (id : String) (f : ConsentRequest → ConsentRequest)
    → ((c : ConsentRequest) → (f c).id ≡ c.id)
    → (t : Tables) → Answered t.consents (resolve id f t).1.consents
unfolding resolve
resolve-Answered id f k t = elim (Bool-cases (has_pending id t.consents)) [
  | inl e ↦ rw e (record { stays = λ j h n. resolve_rows-Answered j id f k t.consents h n })
  | inr e ↦ rw e (Answered-refl t.consents)
]

-- A call of the component, with its statement failing or not, and what calls reach.
pub data Call (t : Tables) : Tables → Type 0 where
  requested :
      (faults : List Bool) (generated : Option String) (id : String) (now : ℕ)
      (req : ConsentRequest)
      → Call t
          (new_consent_request generated id now req (record { state = t; faults = faults })).1.state
  approved :
      (faults : List Bool) (now : ℕ) (id mandate account : String)
      → Call t
          (approve_consent_request now id mandate account
            (record { state = t; faults = faults })).1.state
  rejected :
      (faults : List Bool) (now : ℕ) (id : String)
      → Call t (reject_consent_request now id (record { state = t; faults = faults })).1.state

pub data Calls (t : Tables) : Tables → Type 0 where
  here : Calls t t
  next : {u v : Tables} → Calls t u → Call u v → Calls t v

abbrev Kept : Tables → Tables → Type 0
Kept t u = Answered t.consents u.consents

Call-Answered : {t u : Tables} → Call t u → Kept t u
unfolding new_consent_request approve_consent_request reject_consent_request
Call-Answered (requested faults generated id now req) =
    Keeps.holds
      (bind-Keeps Kept Answered-follow
        (or_raise-Keeps Kept (λ s. Answered-refl s.consents) _ generated)
        λ handoff.
          bind-Keeps Kept Answered-follow
            (statement-Keeps Kept (λ s. Answered-refl s.consents) _ _
              (insert-Answered (new_request id handoff now req)))
            (λ _. return-Keeps Kept (λ s. Answered-refl s.consents) _))
      _
Call-Answered (approved faults now id mandate account) =
    Keeps.holds
      (statement-Keeps Kept (λ s. Answered-refl s.consents) _ _
        (resolve-Answered id (approved_with mandate account now) (λ c. refl)))
      _
Call-Answered (rejected faults now id) =
    Keeps.holds
      (statement-Keeps Kept (λ s. Answered-refl s.consents) _ _
        (resolve-Answered id (rejected_at now) (λ c. refl)))
      _

-- An answer is final: through any calls, a request that was approved or rejected stays as it is,
-- its mandate, its account and its time included.
pub Calls-Answered : {t u : Tables} → Calls t u → Answered t.consents u.consents
Calls-Answered {t} here = Answered-refl t.consents
Calls-Answered {t} (next {u} {v} c d) = Answered-follow t u v (Calls-Answered c) (Call-Answered d)
