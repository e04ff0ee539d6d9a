-- ===== src/Sessions/Closed.antt =====
-- A session that was closed, whatever the sessions go through afterwards.
use aerarium_agentic_banking.Common.{
  ℕ, String, ◌≡◌, ◌≢◌, refl, sym, ◌∙◌, ◌==◌, Bool, true, false, Option, none, some, List, [], ◌∷◌,
  ◌++◌, arith, ltb, if◌then◌else◌, ok, err, Bool-cases, Option-cases, inl, inr, eq_refl,
}
use aerarium_agentic_banking.Common.Action.{
  Db, healthy, ◌>>=◌, ◌>>◌, then_with, return, query, statement, or_raise, Keeps, return-Keeps,
  or_raise-Keeps, exec-Keeps, statement-Keeps, bind-Keeps,
}
use aerarium_agentic_banking.Common.Outcome.{
  Gives, bind-Gives, query-Gives, or_raise-Gives, exec-Gives, weaker-Gives,
}
use aerarium_agentic_banking.Sessions.Store.{
  session_invalid, statement_failed, no_entropy, Principal, Row, Act, is_some, find_row, insert_row,
  new_row, open_session, live_principal, resolve, revoke_row, revoke_rows, revoke, revoke_device,
}

unfoldable pub is_closed : Option Row → Bool
is_closed none = false
is_closed (some r) = is_some r.revoked_at

find_row-revoke :
    (h : String) (test : Row → Bool) (now : ℕ) (l : List Row) {r : Row}
    → find_row h l ≡ some r
    → find_row h (revoke_rows test now l) ≡ some (revoke_row test now r)
unfolding find_row revoke_rows
find_row-revoke h test now [] e = absurd (ground arith)
find_row-revoke h test now (x ∷ l) {r} e = elim (Bool-cases (x.token_hash == h)) [
  | inl y ↦
      let z = rw y at e in
      elim (Bool-cases (test x)) [ inl c ↦ rw (c, y) cc | inr c ↦ rw (c, y) cc ]
  | inr y ↦
      let z = rw y at e in
      elim (Bool-cases (test x)) [
        | inl c ↦ rw (c, y) (find_row-revoke h test now l z)
        | inr c ↦ rw (c, y) (find_row-revoke h test now l z)
      ]
]

find_row-append :
    (h : String) (l m : List Row) {r : Row} → find_row h l ≡ some r → find_row h (l ++ m) ≡ some r
unfolding find_row
find_row-append h [] m e = absurd (ground arith)
find_row-append h (x ∷ l) m e = elim (Bool-cases (x.token_hash == h)) [
  | inl y ↦ let z = rw y at e in rw y z
  | inr y ↦ let z = rw y at e in rw y (find_row-append h l m z)
]

-- What every step keeps: a session that is closed stays so.
pub record StaysClosed (h : String) (s u : List Row) : Type 0 where
  pub holds : is_closed (find_row h s) ≡ true → is_closed (find_row h u) ≡ true

stays : (h : String) (s : List Row) → StaysClosed h s s
stays h s = record { holds = λ e. e }

stays_on :
    (h : String) (s t u : List Row) → StaysClosed h s t → StaysClosed h t u → StaysClosed h s u
stays_on h s t u a b = record { holds = λ e. b.holds (a.holds e) }

stays-revoke :
    (h : String) (test : Row → Bool) (now : ℕ) (s : List Row)
    → StaysClosed h s (revoke_rows test now s)
unfolding is_closed
stays-revoke h test now s = record {
  holds = λ e. elim (Option-cases (find_row h s)) [
    | inl n ↦ let z = rw n at e in absurd (ground arith)
    | inr (r, f) ↦
        let z = rw f at e in
        rw (find_row-revoke h test now s f) (elim (Bool-cases (test r)) [
          | inl c ↦
              rw c (elim (Option-cases r.revoked_at) [ inl n ↦ rw n refl | inr (t, n) ↦ rw n refl ])
          | inr c ↦ rw c z
        ])
  ];
}

stays-insert : (h : String) (r : Row) (s : List Row) → StaysClosed h s (insert_row r s).1
unfolding insert_row is_closed
stays-insert h r s = record {
  holds = λ e. elim (Bool-cases (is_some (find_row r.token_hash s))) [
    | inl c ↦ rw c e
    | inr c ↦ rw c (elim (Option-cases (find_row h s)) [
      | inl n ↦ let z = rw n at e in absurd (ground arith)
      | inr (x, f) ↦ let z = rw f at e in rw (find_row-append h s (r ∷ []) f) z
    ])
  ];
}

pub data Call : Type 0 where
  opening : Option String → Principal → ℕ → Call
  closing : ℕ → String → Call
  unlinking : ℕ → String → Call

-- A call, its answer left aside.
unfoldable pub perform : (String → String) → Call → Act Unit
perform hash (opening generated p expires) = open_session hash generated p expires >> return tt
perform hash (closing now token) = revoke hash now token
perform hash (unlinking now device) = revoke_device now device

-- The calls that ask for a session to be closed.
unfoldable pub closes : (String → String) → Call → Row → Bool
closes hash (opening generated p expires) r = false
closes hash (closing now token) r = r.token_hash == hash token
closes hash (unlinking now device) r = r.principal.device_ref == device

unfoldable pub run : (String → String) → List Call → Db (List Row) → Db (List Row)
run hash [] w = w
run hash (c ∷ cs) w = run hash cs (perform hash c w).1

perform-Keeps :
    (hash : String → String) (h : String) (c : Call) → Keeps (StaysClosed h) (perform hash c)
unfolding perform open_session revoke revoke_device
perform-Keeps hash h (opening generated p expires) =
    bind-Keeps _ (stays_on h)
      (bind-Keeps _ (stays_on h) (or_raise-Keeps _ (stays h) no_entropy generated) λ token.
        bind-Keeps _ (stays_on h)
          (statement-Keeps _ (stays h) statement_failed _
            (stays-insert h (new_row (hash token) p expires)))
          (λ _. return-Keeps _ (stays h) _))
      (λ _. return-Keeps _ (stays h) _)
perform-Keeps hash h (closing now token) =
    exec-Keeps _ (stays h) statement_failed _ (stays-revoke h _ now)
perform-Keeps hash h (unlinking now device) =
    exec-Keeps _ (stays h) statement_failed _ (stays-revoke h _ now)

run_stays :
    (hash : String → String) (h : String) (cs : List Call) (w : Db (List Row))
    → StaysClosed h w.state (run hash cs w).state
unfolding run
run_stays hash h [] w = stays h w.state
run_stays hash h (c ∷ cs) w =
    stays_on h _ _ _ ((perform-Keeps hash h c).holds w) (run_stays hash h cs (perform hash c w).1)

revoked-IsClosed :
    (h : String) (test : Row → Bool) (now : ℕ) (s : List Row) {r : Row}
    → find_row h s ≡ some r
    → test r ≡ true
    → is_closed (find_row h (revoke_rows test now s)) ≡ true
unfolding is_closed
revoked-IsClosed h test now s {r} f c =
    rw (find_row-revoke h test now s f, c)
      (elim (Option-cases r.revoked_at) [ inl n ↦ rw n refl | inr (t, n) ↦ rw n refl ])

closed_by :
    (hash : String → String) (h : String) (c : Call) (w : Db (List Row)) {r : Row} {a : Unit {0}}
    → find_row h w.state ≡ some r
    → closes hash c r ≡ true
    → (perform hash c w).0 ≡ ok a
    → is_closed (find_row h (perform hash c w).1.state) ≡ true
unfolding closes perform revoke revoke_device
closed_by hash h (opening generated p expires) w f c e = absurd (ground arith)
closed_by hash h (closing now token) w f c e =
    rw (Gives.holds (exec-Gives statement_failed _) w e) (revoked-IsClosed h _ now w.state f c)
closed_by hash h (unlinking now device) w f c e =
    rw (Gives.holds (exec-Gives statement_failed _) w e) (revoked-IsClosed h _ now w.state f c)

resolve-Gives :
    (hash : String → String) (now : ℕ) (token : String)
    → Gives
        (λ s a u. live_principal now (find_row (hash token) s) ≡ some a)
        (resolve hash now token)
unfolding resolve
resolve-Gives hash now token =
    weaker-Gives _ _ _
      (bind-Gives _ _ _ _ (query-Gives statement_failed _) (or_raise-Gives session_invalid))
      (λ s a u h. let (o, t, (x, y), (z, v)) = h in sym x ∙ z)

closed_ne_live :
    (now : ℕ) (o : Option Row) {p : Principal} → is_closed o ≡ true → live_principal now o ≢ some p
unfolding is_closed live_principal
closed_ne_live now none c e = absurd (ground arith)
closed_ne_live now (some r) c e = let z = rw c at e in absurd (ground arith)

-- A session that a call closed, by its token or by its device, answers to nobody any more, whatever
-- sessions are opened and closed afterwards, which statements fail and at whatever time it is asked.
pub closed_for_good :
    (hash : String → String) (token : String) (c : Call) (cs : List Call) (w : Db (List Row))
    (later : ℕ) {r : Row} {a : Unit {0}} {p : Principal}
    → find_row (hash token) w.state ≡ some r
    → closes hash c r ≡ true
    → (perform hash c w).0 ≡ ok a
    → (resolve hash later token (run hash cs (perform hash c w).1)).0 ≢ ok p
closed_for_good hash token c cs w later f k e answered =
    closed_ne_live later _
      (StaysClosed.holds (run_stays hash (hash token) cs (perform hash c w).1)
        (closed_by hash (hash token) c w f k e))
      (Gives.holds (resolve-Gives hash later token) _ answered)

find_row-new :
    (h : String) (l : List Row) (r : Row)
    → r.token_hash ≡ h
    → is_some (find_row h l) ≡ false
    → find_row h (l ++ (r ∷ [])) ≡ some r
unfolding find_row
find_row-new h [] r e n = rw (e, eq_refl) refl
find_row-new h (x ∷ l) r e n = elim (Bool-cases (x.token_hash == h)) [
  | inl y ↦ let z = rw y at n in absurd (ground arith)
  | inr y ↦ let z = rw y at n in rw y (find_row-new h l r e z)
]

-- A session that was opened under a token that was not in use is resolved to its owner, factor and
-- device until it expires, and to an invalid session from then on.
pub open_session-resolve :
    (hash : String → String) (token : String) (p : Principal) (expires later : ℕ) (s : List Row)
    → is_some (find_row (hash token) s) ≡ false
    → (resolve hash later token (open_session hash (some token) p expires (healthy s)).1).0
      ≡ (if ltb later expires then ok p else err session_invalid)
unfolding resolve open_session insert_row live_principal ◌>>=◌ then_with return query statement
    or_raise
open_session-resolve hash token p expires later s unused =
    rw (unused, find_row-new (hash token) s (new_row (hash token) p expires) refl unused)
      (elim (Bool-cases (ltb later expires)) [ inl e ↦ rw e refl | inr e ↦ rw e refl ])
