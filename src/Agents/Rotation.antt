-- ===== src/Agents/Rotation.antt =====
-- The keys of an agent that changes them.
use aerarium_agentic_banking.Common.{
  ℕ, ◌+◌, String, ◌≡◌, ◌≢◌, refl, sym, ap, ◌∙◌, ◌==◌, ◌&&◌, ◌||◌, true, false, not, Option, none,
  some, List, [], ◌∷◌, ◌++◌, map, arith, ltb, Result, ok, err, Bool-cases, inl, inr,
}
use aerarium_agentic_banking.Common.Action.{Db}
use aerarium_agentic_banking.Common.Outcome.{
  Gives, bind-Gives, query-Gives, exec-Gives, raise_if-Gives, or_raise-Gives, statement-Gives,
  return-Gives, transaction-Gives, weaker-Gives,
}
use aerarium_agentic_banking.Agents.Rows.{
  AgentError, Library, AgentRow, Key, KeyRow, Tables, not_found, revoked, key_in_use, invalid_key,
  last_key, statement_failed, is_null, null_or_after, valid, Jwk, public_key, key_taken, limited_by,
  limit_keys, new_key, rotation_window, find_agent, has_key, has_other, retire_row,
}
use aerarium_agentic_banking.Agents.Store.{
  lock_live_agent, get, insert_key, insert_key_row, add_key, counted_keys, retire_key,
}

has_other-retire :
    (agent id : String) (now t : ℕ) (l : List KeyRow)
    → has_other agent id now (retire_row id t l) ≡ has_other agent id now l
unfolding has_other retire_row valid
has_other-retire agent id now t [] = refl
has_other-retire agent id now t (k ∷ l) = elim (Bool-cases (k.key.id == id)) [
  | inl e ↦ rw (e, has_other-retire agent id now t l) (ground (arith, e))
  | inr e ↦ rw (e, has_other-retire agent id now t l) (ground (arith, e))
]

has_key-retire :
    (agent id : String) (now t : ℕ) (l : List KeyRow)
    → has_key agent id now (retire_row id t l) ≡ false
unfolding has_key retire_row valid
has_key-retire agent id now t [] = refl
has_key-retire agent id now t (k ∷ l) = elim (Bool-cases (k.key.id == id)) [
  | inl e ↦ rw (e, has_key-retire agent id now t l) (ground arith)
  | inr e ↦ rw (e, has_key-retire agent id now t l) (ground arith)
]

-- What a lock that succeeds says of the agent.
abbrev IsLocked : Library → String → String → Tables → Unit {0} → Tables → Type 0
IsLocked o client id s a u =
    (u ≡ s)
    × ((b : AgentRow) × (find_agent client id s.agents ≡ some b) × (is_null b.revoked_at ≡ true))

lock-Gives :
    (o : Library) (client id : String) → Gives (IsLocked o client id) (lock_live_agent o client id)
unfolding lock_live_agent
lock-Gives o client id =
    weaker-Gives _ _ _
      (bind-Gives _ _ _ _ (raise_if-Gives (not (o.is_uuid id)) not_found) λ _.
        bind-Gives _ _ _ _ (query-Gives statement_failed _) λ found.
          bind-Gives _ _ _ _ (or_raise-Gives not_found found)
            (λ a. raise_if-Gives (not (is_null a.revoked_at)) revoked))
      (λ s a u h.
        let (x0, t1, (x1, e1), h1) = h in
        let (found, t2, (ef, e2), h2) = h1 in
        let (b, t3, (eo, e3), h3) = h2 in
        let (en, e4) = h3 in
        (
          e4 ∙ e3 ∙ e2 ∙ e1,
          (b, ap (λ t. find_agent client id t.agents) (sym e1) ∙ sym ef ∙ eo, ground (arith, en)),
        ))

retire-Gives :
    (o : Library) (now : ℕ) (client agent key_id : String)
    → Gives
        (λ s a u.
          (u ≡ record s { keys = retire_row key_id now s.keys })
          × (has_key agent key_id now s.keys ≡ true)
          × (has_other agent key_id now s.keys ≡ true))
        (retire_key o now client agent key_id)
unfolding retire_key counted_keys
retire-Gives o now client agent key_id =
    weaker-Gives _ _ _
      (bind-Gives _ _ _ _ (raise_if-Gives (not (o.is_uuid key_id)) not_found) λ _.
        transaction-Gives _ _ (
          bind-Gives _ _ _ _
            (bind-Gives _ _ _ _ (exec-Gives statement_failed _) (λ _. lock-Gives o client agent))
            λ _. bind-Gives _ _ _ _ (query-Gives statement_failed _) λ counted.
              bind-Gives _ _ _ _
                (bind-Gives _ _ _ _
                  (bind-Gives _ _ _ _ (raise_if-Gives (not counted.0) not_found)
                    (λ _. raise_if-Gives (not counted.1) last_key))
                  (λ _. exec-Gives statement_failed _))
                (λ _. exec-Gives statement_failed _)))
      (λ s a u h.
        let (x0, t1, (u1, e1), h1) = h in
        let (x2, t2, g1, h2) = h1 in
        let (x3, t3, e3, g2) = g1 in
        let (e4, locked) = g2 in
        let (counted, t4, (ec, e5), h3) = h2 in
        let (x6, t6, h4, e10) = h3 in
        let (x7, t7, h5, e7) = h4 in
        let (x8, t8, (n0, e8), h6) = h5 in
        let (n1, e9) = h6 in
        let d : t2 ≡ s = e4 ∙ e3 ∙ e1 in
        (
          rw (e10, e7, e9 ∙ e8 ∙ e5 ∙ d) refl,
          ground (arith, n0, ap (λ c. c.0) ec, ap (λ t. has_key agent key_id now t.keys) d),
          ground (arith, n1, ap (λ c. c.1) ec, ap (λ t. has_other agent key_id now t.keys) d),
        ))

-- A key that was retired is not in force any more, and another key of its agent is.
pub retire_key_leaves_one :
    (o : Library) (now : ℕ) (client agent key_id : String) (w : Db Tables) {a : Unit {0}}
    → (retire_key o now client agent key_id w).0 ≡ ok a
    → (has_key agent key_id now (retire_key o now client agent key_id w).1.state.keys ≡ false)
      × (has_other agent key_id now (retire_key o now client agent key_id w).1.state.keys ≡ true)
retire_key_leaves_one o now client agent key_id w h =
    let (e, k, other) = Gives.holds (retire-Gives o now client agent key_id) w h in
    rw e (
      has_key-retire agent key_id now now w.state.keys,
      has_other-retire agent key_id now now w.state.keys ∙ other,
    )

-- The keys after a rotation: those of before, limited, and the new one. A key of the agent is in
-- force as long as it was to be, within the window; a key of another agent as it was.
pub record Rotated (o : Library) (now : ℕ) (key_id agent : String) (key : Jwk) (s u : Tables)
    : Type 0 where
  pub bytes : String
  pub bytes_valid : public_key o key ≡ some bytes
  pub unused : key_taken key_id bytes s.keys ≡ false
  pub keys_after :
      u.keys
      ≡ map (limited_by agent (now + rotation_window)) s.keys
        ++ (record { agent_id = agent; key = new_key key_id bytes now } ∷ [])
  pub in_force :
      (t : ℕ) (j : KeyRow)
      → valid t (limited_by agent (now + rotation_window) j).key
        ≡ (valid t j.key && (not (j.agent_id == agent) || ltb t (now + rotation_window)))

null_or_after_and :
    (end t : ℕ) (o : Option ℕ)
    → null_or_after end o ≡ true
    → (null_or_after t o && ltb t end) ≡ ltb t end
null_or_after_and end t none h = refl
null_or_after_and end t (some u) h = ground arith

null_or_after_or :
    (end t : ℕ) (o : Option ℕ)
    → null_or_after end o ≡ false
    → (null_or_after t o && ltb t end) ≡ null_or_after t o
null_or_after_or end t none h = absurd (ground arith)
null_or_after_or end t (some u) h = ground arith

limited_valid :
    (agent : String) (end t : ℕ) (j : KeyRow)
    → valid t (limited_by agent end j).key
      ≡ (valid t j.key && (not (j.agent_id == agent) || ltb t end))
unfolding valid
limited_valid agent end t j =
    elim (Bool-cases
      ((j.agent_id == agent) && is_null j.key.retired_at && null_or_after end j.key.expires_at)) [
        | inl e ↦ rw e (ground (arith, e, null_or_after_and end t j.key.expires_at))
        | inr e ↦ rw e (ground (arith, e, null_or_after_or end t j.key.expires_at))
      ]

key_taken-limit :
    (agent id bytes : String) (end : ℕ) (l : List KeyRow)
    → key_taken id bytes (limit_keys agent end l) ≡ key_taken id bytes l
unfolding key_taken limit_keys
key_taken-limit agent id bytes end [] = refl
key_taken-limit agent id bytes end (k ∷ l) =
    elim (Bool-cases
      ((k.agent_id == agent) && is_null k.key.retired_at && null_or_after end k.key.expires_at)) [
        | inl e ↦ rw (e, key_taken-limit agent id bytes end l) refl
        | inr e ↦ rw (e, key_taken-limit agent id bytes end l) refl
      ]

get-Gives : (o : Library) (client id : String) → Gives (λ s a u. u ≡ s) (get o client id)
unfolding get
get-Gives o client id =
    weaker-Gives _ _ _
      (bind-Gives _ _ _ _ (raise_if-Gives (not (o.is_uuid id)) not_found) λ _.
        bind-Gives _ _ _ _ (query-Gives statement_failed _) λ found.
          bind-Gives _ _ _ _ (or_raise-Gives not_found found)
            λ a. bind-Gives _ _ _ _ (query-Gives statement_failed _) (λ l. return-Gives _))
      (λ s a u h.
        let (x0, t1, (x1, e1), h1) = h in
        let (x2, t2, (x3, e2), h2) = h1 in
        let (x4, t3, (x5, e3), h3) = h2 in
        let (x6, t4, (x7, e4), h4) = h3 in h4.1 ∙ e4 ∙ e3 ∙ e2 ∙ e1)

taken_not_ok : {a : Unit {0}} → ◌≢◌ {A = Result {0, 0} AgentError Unit} (err key_in_use) (ok a)
taken_not_ok h = cc

inserted-Gives :
    (agent id bytes : String) (now : ℕ)
    → Gives
        (λ s a u.
          (key_taken id bytes s.keys ≡ false)
          × (u.keys ≡ s.keys ++ (record { agent_id = agent; key = new_key id bytes now } ∷ [])))
        (insert_key agent id bytes now)
unfolding insert_key insert_key_row
inserted-Gives agent id bytes now =
    weaker-Gives _ _ _ (statement-Gives statement_failed _) λ s a u h.
      elim (Bool-cases (key_taken id bytes s.keys)) [
        | inl e ↦ let z = rw e at h.0 in absurd (taken_not_ok z)
        | inr e ↦ (e, ap (λ t. t.keys) h.1 ∙ rw e refl)
      ]

add-Gives :
    (o : Library) (now : ℕ) (key_id client agent : String) (key : Jwk)
    → Gives (λ s a u. Rotated o now key_id agent key s u) (add_key o now key_id client agent key)
unfolding add_key limit_keys
add-Gives o now key_id client agent key =
    weaker-Gives _ _ _
      (bind-Gives _ _ _ _ (or_raise-Gives invalid_key (public_key o key)) λ bytes.
        bind-Gives _ _ _ _
          (transaction-Gives _ _ (
            bind-Gives _ _ _ _
              (bind-Gives _ _ _ _
                (bind-Gives _ _ _ _
                  (bind-Gives _ _ _ _ (exec-Gives statement_failed _)
                    (λ _. lock-Gives o client agent))
                  (λ _. exec-Gives statement_failed _))
                (λ _. inserted-Gives agent key_id bytes now))
              (λ _. exec-Gives statement_failed _)))
          λ _. bind-Gives _ _ _ _ (get-Gives o client agent) (λ a. or_raise-Gives not_found _))
      (λ s a u h.
        let (bytes, t1, (valid_bytes, e1), h1) = h in
        let (x2, t2, g1, h2) = h1 in
        let (x3, t3, g2, e3) = g1 in
        let (x4, t4, g3, ins) = g2 in
        let (unused, grown) = ins in
        let (x5, t5, g4, e5) = g3 in
        let (x6, t6, e6, g5) = g4 in
        let (e7, locked) = g5 in
        let (x8, t8, e8, h3) = h2 in
        let d : t5 ≡ s = e7 ∙ e6 ∙ e1 in
        let f : t4.keys ≡ limit_keys agent (now + rotation_window) s.keys =
          ap (λ t. t.keys) e5 ∙ ap (λ t. limit_keys agent (now + rotation_window) t.keys) d in
        record {
          bytes = bytes;
          bytes_valid = valid_bytes;
          unused =
              sym (key_taken-limit agent key_id bytes (now + rotation_window) s.keys)
              ∙ ap (key_taken key_id bytes) (sym f)
              ∙ unused;
          keys_after = ap (λ t. t.keys) (h3.1 ∙ e8 ∙ e3) ∙ grown ∙ rw f refl;
          in_force = λ t j. limited_valid agent (now + rotation_window) t j;
        })

-- A rotation that succeeds: the keys of before expire at the end of the window at the latest, none
-- lives longer than it did, and the new key is there, with bytes that no key had.
pub add_key_rotates :
    (o : Library) (now : ℕ) (key_id client agent : String) (key : Jwk) (w : Db Tables) {k : Key}
    → (add_key o now key_id client agent key w).0 ≡ ok k
    → Rotated o now key_id agent key w.state (add_key o now key_id client agent key w).1.state
add_key_rotates o now key_id client agent key w h =
    Gives.holds (add-Gives o now key_id client agent key) w h
