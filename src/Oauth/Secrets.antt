-- ===== src/Oauth/Secrets.antt =====
-- The secret of an integration around a rotation.
use aerarium_agentic_banking.Common.{
  ℕ, ◌+◌, String, ◌≡◌, ◌≢◌, refl, ap, ◌∙◌, ◌==◌, true, some, List, [], ◌∷◌, arith, eq_refl,
  eq_false_of_ne, ltb, if◌then◌else◌, ok, err, Bool-cases, inl, inr,
}
use aerarium_agentic_banking.Common.Action.{
  healthy, ◌>>=◌, then_with, return, query, statement, raise_if, or_raise,
}
use aerarium_agentic_banking.Oauth.Store.{
  secret_grace_window, bad_secret, ClientRow, Tables, find_row, update_row, rotated, rotate_row,
  rotate_secret, secret_matches, authenticate,
}

find_row-update :
    (id : String) (f : ClientRow → ClientRow)
    → ((r : ClientRow) → (f r).client.id ≡ r.client.id)
    → (l : List ClientRow) {r : ClientRow} → find_row id l ≡ some r
    → find_row id (update_row id f l) ≡ some (f r)
unfolding find_row update_row
find_row-update id f k [] h = absurd (ground arith)
find_row-update id f k (x ∷ l) h = elim (Bool-cases (x.client.id == id)) [
  | inl e ↦ let z = rw e at h in rw (e, ap (λ c. c == id) (k x) ∙ e) cc
  | inr e ↦ let z = rw e at h in rw (e, e) (find_row-update id f k l z)
]

-- An integration in force rotates its secret: the new one is accepted at once and without an
-- end of its own, and the
-- one before until the end of the window, included, and not after it.
pub rotate_secret_window :
    (hash : String → String) (t : Tables) (id old fresh : String) (now later : ℕ) {r : ClientRow}
    → find_row id t.clients ≡ some r
    → r.client.active ≡ true
    → r.secret_hash ≡ hash old
    → hash old ≢ hash fresh
    → ((rotate_secret hash (some fresh) now id (healthy t)).0 ≡ ok fresh)
      × ((authenticate hash later id fresh (rotate_secret hash (some fresh) now id (healthy t)).1).0
          ≡ ok r.client)
      × ((authenticate hash later id old (rotate_secret hash (some fresh) now id (healthy t)).1).0
          ≡ (if ltb (now + secret_grace_window) later then err bad_secret else ok r.client))
unfolding rotate_secret rotate_row authenticate secret_matches ◌>>=◌ then_with return query
    statement raise_if or_raise
rotate_secret_window hash t id old fresh now later {r} found active same differ =
    let after = find_row-update id (rotated (hash fresh) now) (λ x. refl) t.clients found in
    rw (found, after, eq_refl, active, eq_false_of_ne (hash old) (hash fresh) differ, same, eq_refl)
      (elim (Bool-cases (ltb (now + secret_grace_window) later)) [
        | inl e ↦ rw e (refl, refl, refl)
        | inr e ↦ rw e (refl, refl, refl)
      ])
