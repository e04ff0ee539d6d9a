-- ===== src/Onboarding/Store/Rows.antt =====
-- What the statements of the onboarding tables leave for the later reads.
use aerarium_agentic_banking.Common.{
  String, ◌≡◌, refl, ap, ◌∙◌, ◌==◌, true, false, not, ◌&&◌, Option, none, some, List, [], ◌∷◌, ◌++◌,
  if◌then◌else◌, arith, eq_iff, eq_refl, Bool-cases, inl, inr,
}
use aerarium_agentic_banking.Onboarding.Store.{
  Step, same_step, Application, StepRecord, StepRow, or_else, find, find_ref, is_some, update,
  steps_of, done_of, insert_step,
}

-- The function leaves the identifier of every application.
abbrev pub KeepsId : (Application → Application) → Type 0
KeepsId f = (a : Application) → (f a).id ≡ a.id

abbrev pub updated : (Application → Application) → Option Application → Option Application
updated f none = none
updated f (some a) = some (f a)

pub find-update :
    (id j : String) (f : Application → Application)
    → KeepsId f
    → (l : List Application)
    → find j (update id f l) ≡ (if id == j then updated f (find j l) else find j l)
unfolding find update
find-update id j f k [] = ground (arith, eq_iff id j)
find-update id j f k (a ∷ l) =
    ground (arith, eq_iff id j, eq_iff a.id id, eq_iff a.id j, k a, find-update id j f k l)

pub find_append :
    (j : String) (a : Application) (l : List Application)
    → find j (l ++ (a ∷ [])) ≡ or_else (find j l) (if a.id == j then some a else none)
unfolding find
find_append j a [] = refl
find_append j a (b ∷ l) = elim (Bool-cases (b.id == j)) [
  | inl e ↦ rw e refl
  | inr e ↦ rw e (find_append j a l)
]

pub find_ref_append :
    (ref : String) (a : Application) (l : List Application)
    → find_ref ref (l ++ (a ∷ []))
      ≡ or_else (find_ref ref l) (if a.external_ref == ref then some a else none)
unfolding find_ref
find_ref_append ref a [] = refl
find_ref_append ref a (b ∷ l) = elim (Bool-cases (b.external_ref == ref)) [
  | inl e ↦ rw e refl
  | inr e ↦ rw e (find_ref_append ref a l)
]

steps_of_append :
    (j id : String) (r : StepRecord) (l : List StepRow)
    → steps_of j (l ++ ((id, r) ∷ []))
      ≡ (if id == j then steps_of j l ++ (r ∷ []) else steps_of j l)
unfolding steps_of
steps_of_append j id r [] = ground arith
steps_of_append j id r ((key, q) ∷ l) =
    ground (arith, eq_iff key j, eq_iff id j, steps_of_append j id r l)

done_of_append :
    (r : StepRecord) (s : Step) (l : List StepRecord)
    → done_of (l ++ (r ∷ [])) s ≡ (if same_step r.step s then some r else done_of l s)
unfolding done_of
done_of_append r s [] = refl
done_of_append r s (q ∷ l) = ground (arith, done_of_append r s l)

-- The record of a step, of the application with an id.
abbrev pub record_of : String → Step → List StepRow → Option StepRecord
record_of id s l = done_of (steps_of id l) s

pub record_of-insert :
    (id j : String) (r : StepRecord) (s : Step) (l : List StepRow)
    → record_of j s (insert_step id r l) ≡ (
        if not (is_some (record_of id r.step l)) && (id == j) && same_step r.step s
        then some r
        else record_of j s l)
unfolding insert_step
record_of-insert id j r s l = elim (Bool-cases (is_some (record_of id r.step l))) [
  | inl e ↦ rw e refl
  | inr e ↦
      rw (e, steps_of_append j id r l)
        (elim (Bool-cases (id == j)) [
          | inl same ↦ rw (same, done_of_append) refl
          | inr other ↦ rw other refl
        ])
]

pub eq_of_same_step : (s t : Step) → same_step s t ≡ true → s ≡ t
eq_of_same_step s t h = ground arith

-- A record stays, whatever is inserted.
pub record_stays :
    (id j : String) (r : StepRecord) (s : Step) (l : List StepRow) {q : StepRecord}
    → record_of j s l ≡ some q
    → record_of j s (insert_step id r l) ≡ some q
record_stays id j r s l {q} h =
    rw record_of-insert (ground (arith, h, eq_iff id j, eq_of_same_step r.step s))

-- After the insertion of a step there is a record of it.
pub is_recorded :
    (id : String) (r : StepRecord) (l : List StepRow)
    → is_some (record_of id r.step (insert_step id r l)) ≡ true
is_recorded id r l =
    rw (record_of-insert, eq_refl)
      (elim (Bool-cases (is_some (record_of id r.step l))) [
        | inl e ↦ rw e e
        | inr e ↦ rw e (ground arith)
      ])

abbrev pub IsPrefix : List StepRecord → List StepRecord → Type 0
IsPrefix xs ys = (more : List StepRecord) × (ys ≡ xs ++ more)

append_nil : (xs : List StepRecord) → xs ≡ xs ++ []
append_nil [] = refl
append_nil (x ∷ xs) = ap (λ l. x ∷ l) (append_nil xs)

pub prefix_refl : (xs : List StepRecord) → IsPrefix xs xs
prefix_refl xs = ([], append_nil xs)

append_assoc : (xs ys zs : List StepRecord) → (xs ++ ys) ++ zs ≡ xs ++ (ys ++ zs)
append_assoc [] ys zs = refl
append_assoc (x ∷ xs) ys zs = ap (λ l. x ∷ l) (append_assoc xs ys zs)

pub prefix_trans : (xs ys zs : List StepRecord) → IsPrefix xs ys → IsPrefix ys zs → IsPrefix xs zs
prefix_trans xs ys zs (a, h) (b, k) = (a ++ b, k ∙ ap (λ l. l ++ b) h ∙ append_assoc xs a b)

pub steps_grow :
    (id j : String) (r : StepRecord) (l : List StepRow)
    → IsPrefix (steps_of j l) (steps_of j (insert_step id r l))
unfolding insert_step
steps_grow id j r l = elim (Bool-cases (is_some (record_of id r.step l))) [
  | inl e ↦ rw e (prefix_refl (steps_of j l))
  | inr e ↦
      rw (e, steps_of_append j id r l)
        (elim (Bool-cases (id == j)) [
          | inl same ↦ rw same (r ∷ [], refl)
          | inr other ↦ rw other (prefix_refl (steps_of j l))
        ])
]

-- A record that is new is read back, and makes no other.
pub record_new :
    (id : String) (r : StepRecord) (l : List StepRow)
    → record_of id r.step l ≡ none
    → record_of id r.step (insert_step id r l) ≡ some r
record_new id r l h = rw (record_of-insert, h, eq_refl) (ground arith)

pub record_other :
    (id : String) (r : StepRecord) (s : Step) (l : List StepRow)
    → same_step r.step s ≡ false
    → record_of id s l ≡ none
    → record_of id s (insert_step id r l) ≡ none
record_other id r s l d h = rw (record_of-insert, eq_refl, d) (ground (arith, h))
