-- ===== src/Agents/Revoked.antt =====
-- What a revocation of an agent, or the retirement of a key, ends for good.
use aerarium_agentic_banking.Common.{
  ℕ, String, ◌≡◌, ◌≢◌, refl, sym, ap, ◌∙◌, ◌==◌, ◌&&◌, Bool, true, false, Option, none, some, List,
  [], ◌∷◌, lookup, ◌++◌, map, arith, Result, ok, err, Bool-cases, Option-cases, inl, inr,
}
use aerarium_agentic_banking.Common.Action.{
  Db, ◌>>=◌, then_with, return, query, raise_if, or_raise, next_fault,
}
use aerarium_agentic_banking.Agents.Rows.{
  AgentError, Library, AgentRow, KeyRow, Tables, is_null, is_some, null_or_after, or_now, valid,
  agent_by_id, find_key, find_agent, key_taken, revoked_by, revoke_row, limited_by, limit_keys,
  retired_by, retire_row,
}
use aerarium_agentic_banking.Agents.Store.{
  insert_agent_row, insert_key_row, revoke_found, joined, joined_key, joined_agent, Signer,
  signer_of, key_for_signature,
}
use aerarium_agentic_banking.Agents.Intents.{upsert_account, upsert, insert_intent, find_intent}
use aerarium_agentic_banking.Agents.Frame.{IsFrame, Calls, Calls-frame}

-- A later row of the same agent or key.
pub record AgentLater (a b : AgentRow) : Type 0 where
  pub id : b.id ≡ a.id
  pub client_id : b.client_id ≡ a.client_id
  pub stays_revoked : is_null a.revoked_at ≡ false → b.revoked_at ≡ a.revoked_at

pub record KeyLater (k j : KeyRow) : Type 0 where
  pub agent_id : j.agent_id ≡ k.agent_id
  pub public_key : j.key.public_key ≡ k.key.public_key
  pub stays_retired : is_null k.key.retired_at ≡ false → is_null j.key.retired_at ≡ false

pub record Later (t u : Tables) : Type 0 where
  pub agents :
      (id : String) {a : AgentRow}
      → agent_by_id id t.agents ≡ some a
      → (b : AgentRow) × (agent_by_id id u.agents ≡ some b) × AgentLater a b
  pub keys :
      (id : String) {k : KeyRow}
      → find_key id t.keys ≡ some k
      → (j : KeyRow) × (find_key id u.keys ≡ some j) × KeyLater k j

AgentLater-refl : (a : AgentRow) → AgentLater a a
AgentLater-refl a = record { id = refl; client_id = refl; stays_revoked = λ h. refl }

KeyLater-refl : (k : KeyRow) → KeyLater k k
KeyLater-refl k = record { agent_id = refl; public_key = refl; stays_retired = λ h. h }

Later-refl : (t : Tables) → Later t t
Later-refl t = record {
  agents = λ id {a} h. (a, h, AgentLater-refl a);
  keys = λ id {k} h. (k, h, KeyLater-refl k);
}

AgentLater-trans : (a b c : AgentRow) → AgentLater a b → AgentLater b c → AgentLater a c
AgentLater-trans a b c h k = record {
  id = k.id ∙ h.id;
  client_id = k.client_id ∙ h.client_id;
  stays_revoked = λ x. k.stays_revoked (rw (h.stays_revoked x) x) ∙ h.stays_revoked x;
}

KeyLater-trans : (a b c : KeyRow) → KeyLater a b → KeyLater b c → KeyLater a c
KeyLater-trans a b c h k = record {
  agent_id = k.agent_id ∙ h.agent_id;
  public_key = k.public_key ∙ h.public_key;
  stays_retired = λ x. k.stays_retired (h.stays_retired x);
}

Later-follow : (t u v : Tables) → Later t u → Later u v → Later t v
Later-follow t u v h k = record {
  agents = λ id {a} x.
      let (b, y, p) = h.agents id x in
      let (c, z, q) = k.agents id y in (c, z, AgentLater-trans a b c p q);
  keys = λ id {k = a} x.
      let (b, y, p) = h.keys id x in
      let (c, z, q) = k.keys id y in (c, z, KeyLater-trans a b c p q);
}

agent_by_id-append :
    (id : String) (l m : List AgentRow) {a : AgentRow}
    → agent_by_id id l ≡ some a
    → agent_by_id id (l ++ m) ≡ some a
unfolding agent_by_id
agent_by_id-append id [] m h = absurd (ground arith)
agent_by_id-append id (b ∷ l) m h = elim (Bool-cases (b.id == id)) [
  | inl e ↦ let z = rw e at h in rw e z
  | inr e ↦ let z = rw e at h in rw e (agent_by_id-append id l m z)
]

find_key-append :
    (id : String) (l m : List KeyRow) {k : KeyRow}
    → find_key id l ≡ some k
    → find_key id (l ++ m) ≡ some k
unfolding find_key
find_key-append id [] m h = absurd (ground arith)
find_key-append id (b ∷ l) m h = elim (Bool-cases (b.key.id == id)) [
  | inl e ↦ let z = rw e at h in rw e z
  | inr e ↦ let z = rw e at h in rw e (find_key-append id l m z)
]

agent_by_id-map :
    (id : String) (f : AgentRow → AgentRow)
    → ((a : AgentRow) → (f a).id ≡ a.id)
    → (l : List AgentRow) {a : AgentRow} → agent_by_id id l ≡ some a
    → agent_by_id id (map f l) ≡ some (f a)
unfolding agent_by_id
agent_by_id-map id f k [] h = absurd (ground arith)
agent_by_id-map id f k (b ∷ l) h = elim (Bool-cases (b.id == id)) [
  | inl e ↦ let z = rw e at h in rw (ap (λ x. x == id) (k b) ∙ e) cc
  | inr e ↦ let z = rw e at h in rw (ap (λ x. x == id) (k b) ∙ e) (agent_by_id-map id f k l z)
]

find_key-map :
    (id : String) (f : KeyRow → KeyRow)
    → ((k : KeyRow) → (f k).key.id ≡ k.key.id)
    → (l : List KeyRow) {k : KeyRow} → find_key id l ≡ some k
    → find_key id (map f l) ≡ some (f k)
unfolding find_key
find_key-map id f k [] h = absurd (ground arith)
find_key-map id f k (b ∷ l) h = elim (Bool-cases (b.key.id == id)) [
  | inl e ↦ let z = rw e at h in rw (ap (λ x. x == id) (k b) ∙ e) cc
  | inr e ↦ let z = rw e at h in rw (ap (λ x. x == id) (k b) ∙ e) (find_key-map id f k l z)
]

revoked_by-id :
    (client id : String) (now : ℕ) (a : AgentRow) → (revoked_by client id now a).id ≡ a.id
revoked_by-id client id now a = elim (Bool-cases ((a.id == id) && (a.client_id == client))) [
  | inl e ↦ rw e refl
  | inr e ↦ rw e refl
]

or_now_kept : (now : ℕ) (o : Option ℕ) → is_null o ≡ false → or_now now o ≡ o
or_now_kept now none h = absurd (ground arith)
or_now_kept now (some t) h = refl

revoked_by-AgentLater :
    (client id : String) (now : ℕ) (a : AgentRow) → AgentLater a (revoked_by client id now a)
revoked_by-AgentLater client id now a =
    elim (Bool-cases ((a.id == id) && (a.client_id == client))) [
      | inl e ↦
          rw e
            (record { id = refl; client_id = refl; stays_revoked = or_now_kept now a.revoked_at })
      | inr e ↦ rw e (AgentLater-refl a)
    ]

limited_by-KeyLater :
    (agent : String) (end : ℕ) (k : KeyRow)
    → ((limited_by agent end k).key.id ≡ k.key.id) × KeyLater k (limited_by agent end k)
limited_by-KeyLater agent end k =
    elim (Bool-cases
      ((k.agent_id == agent) && is_null k.key.retired_at && null_or_after end k.key.expires_at)) [
        | inl e ↦ rw e (refl, record { agent_id = refl; public_key = refl; stays_retired = λ h. h })
        | inr e ↦ rw e (refl, KeyLater-refl k)
      ]

retired_by-KeyLater :
    (id : String) (now : ℕ) (k : KeyRow)
    → ((retired_by id now k).key.id ≡ k.key.id) × KeyLater k (retired_by id now k)
retired_by-KeyLater id now k = elim (Bool-cases (k.key.id == id)) [
  | inl e ↦ rw e (refl, record { agent_id = refl; public_key = refl; stays_retired = λ h. refl })
  | inr e ↦ rw e (refl, KeyLater-refl k)
]

-- A change of the agents alone, and one of the keys alone.
with_agents :
    (t : Tables) (l : List AgentRow)
    → ((id : String) (a : AgentRow)
        → agent_by_id id t.agents ≡ some a
        → (b : AgentRow) × (agent_by_id id l ≡ some b) × AgentLater a b)
    → Later t (record t { agents = l })
with_agents t l h = record {
  agents = λ id {a} x. h id a x;
  keys = λ id {k} x. (k, x, KeyLater-refl k);
}

with_keys :
    (t : Tables) (l : List KeyRow)
    → ((id : String) (k : KeyRow)
        → find_key id t.keys ≡ some k
        → (j : KeyRow) × (find_key id l ≡ some j) × KeyLater k j)
    → Later t (record t { keys = l })
with_keys t l h = record {
  agents = λ id {a} x. (a, x, AgentLater-refl a);
  keys = λ id {k} x. h id k x;
}

same_rows : (t u : Tables) → u.agents ≡ t.agents → u.keys ≡ t.keys → Later t u
same_rows t u h k = record {
  agents = λ id {a} x. (a, rw h x, AgentLater-refl a);
  keys = λ id {k = j} x. (j, rw k x, KeyLater-refl j);
}

agent_Later : (a : AgentRow) (t : Tables) → Later t (insert_agent_row a t).1
unfolding insert_agent_row
agent_Later a t = elim (Bool-cases (is_some (agent_by_id a.id t.agents))) [
  | inr e ↦ rw e (
      with_agents t _ (λ id b x. (b, agent_by_id-append id t.agents (a ∷ []) x, AgentLater-refl b)))
  | inl e ↦ rw e (Later-refl t)
]

key_Later :
    (agent id pub_key : String) (now : ℕ) (t : Tables)
    → Later t (insert_key_row agent id pub_key now t).1
unfolding insert_key_row
key_Later agent id pub_key now t = elim (Bool-cases (key_taken id pub_key t.keys)) [
  | inl e ↦ rw e (Later-refl t)
  | inr e ↦ rw e (with_keys t _ (λ j k x. (k, find_key-append j t.keys _ x, KeyLater-refl k)))
]

revoke_Later :
    (client id : String) (now : ℕ) (t : Tables) → Later t (revoke_found client id now t).1
unfolding revoke_found revoke_row
revoke_Later client id now t = elim (Bool-cases (is_some (find_agent client id t.agents))) [
  | inr e ↦ rw e (Later-refl t)
  | inl e ↦ rw e (
      with_agents t _ (λ j a x. (
        revoked_by client id now a,
        agent_by_id-map j _ (revoked_by-id client id now) t.agents x,
        revoked_by-AgentLater client id now a,
      )))
]

Later-IsFrame : IsFrame Later
unfolding limit_keys retire_row upsert_account upsert insert_intent
Later-IsFrame = record {
  steady = Later-refl;
  follow = Later-follow;
  agent = λ id client name now t. agent_Later _ t;
  key = key_Later;
  revoked = revoke_Later;
  limited = λ agent end t. with_keys t _ (λ j k x. (
    limited_by agent end k,
    find_key-map j _ (λ i. (limited_by-KeyLater agent end i).0) t.keys x,
    (limited_by-KeyLater agent end k).1,
  ));
  retired = λ id now t. with_keys t _ (λ j k x. (
    retired_by id now k,
    find_key-map j _ (λ i. (retired_by-KeyLater id now i).0) t.keys x,
    (retired_by-KeyLater id now k).1,
  ));
  account = λ account agent t. elim (Option-cases (lookup account t.accounts)) [
    | inl e ↦ rw e (same_rows t _ refl refl)
    | inr (a, e) ↦ rw e (Later-refl t)
  ];
  intent = λ o now authorization agent client i t.
      elim (Bool-cases (is_some (find_intent authorization t.intents))) [
        | inr e ↦ rw e (same_rows t _ refl refl)
        | inl e ↦ rw e (Later-refl t)
      ];
}

-- Through any sequence of calls the agents and the keys stay, of the same client and agent and
-- with the same bytes; what was revoked stays revoked, at the same time, and what was retired stays
-- retired.
pub calls_Later : {o : Library} {t u : Tables} → Calls o t u → Later t u
calls_Later = Calls-frame Later-IsFrame

-- Who signs with a key at a time: an agent that is not revoked, whose key it is, and the key is
-- neither retired nor expired.
pub record IsSigner (now : ℕ) (id : String) (t : Tables) (sg : Signer) : Type 0 where
  pub row : KeyRow
  pub agent : AgentRow
  pub row_found : find_key id t.keys ≡ some row
  pub agent_found : agent_by_id row.agent_id t.agents ≡ some agent
  pub not_revoked : is_null agent.revoked_at ≡ true
  pub in_force : valid now row.key ≡ true
  pub shown : sg ≡ signer_of (row, agent)

not_ok : {x : AgentError} {sg : Signer} → ◌≢◌ {A = Result {0, 0} AgentError Signer} (err x) (ok sg)
not_ok h = cc

ok_eq : {x y : Signer} → ◌≡◌ {A = Result {0, 0} AgentError Signer} (ok x) (ok y) → y ≡ x
ok_eq h = cc

-- Only such a signer is returned.
pub key_for_signature-IsSigner :
    (o : Library) (now : ℕ) (id : String) (w : Db Tables) {sg : Signer}
    → (key_for_signature o now id w).0 ≡ ok sg
    → IsSigner now id w.state sg
unfolding key_for_signature joined joined_key joined_agent ◌>>=◌ then_with return query raise_if
    or_raise
key_for_signature-IsSigner o now id w h = elim (Bool-cases (o.is_uuid id)) [
  | inr e ↦ let z = rw e at h in absurd (not_ok z)
  | inl e ↦
      let z = rw e at h in
      elim (Bool-cases (next_fault w.faults)) [
        | inl f ↦ let y = rw f at z in absurd (not_ok y)
        | inr f ↦
            let y = rw f at z in
            elim (Option-cases (find_key id w.state.keys)) [
              | inl n ↦ let x = rw n at y in absurd (not_ok x)
              | inr (k, n) ↦
                  let x = rw n at y in
                  elim (Option-cases (agent_by_id k.agent_id w.state.agents)) [
                    | inl m ↦ let v = rw m at x in absurd (not_ok v)
                    | inr (a, m) ↦
                        let v = rw m at x in
                        elim (Bool-cases (is_null a.revoked_at)) [
                          | inr r ↦ let u = rw r at v in absurd (not_ok u)
                          | inl r ↦
                              let u = rw r at v in
                              elim (Bool-cases (valid now k.key)) [
                                | inr q ↦ let p = rw q at u in absurd (not_ok p)
                                | inl q ↦
                                    let p = rw q at u in
                                    record {
                                      row = k;
                                      agent = a;
                                      row_found = n;
                                      agent_found = m;
                                      not_revoked = r;
                                      in_force = q;
                                      shown = ok_eq p;
                                    }
                              ]
                        ]
                  ]
            ]
      ]
]

some_eq : {A : Type 0} {x y : A} → some x ≡ some y → x ≡ y
some_eq h = cc

clash :
    (a b c : AgentRow)
    → b ≡ c
    → b.revoked_at ≡ a.revoked_at
    → is_null a.revoked_at ≡ false
    → ¬ (is_null c.revoked_at ≡ true)
clash a b c e h off on = ground (arith, ap (λ x. is_null x.revoked_at) e, ap is_null h, off, on)

-- Once an agent is revoked, none of the keys it had is ever accepted for a signature again, whatever
-- is called in between and at whatever time.
pub revoked_never_signs :
    {o : Library} {t u : Tables}
    → Calls o t u
    → (id : String) {k : KeyRow} {a : AgentRow} → find_key id t.keys ≡ some k
    → agent_by_id k.agent_id t.agents ≡ some a
    → is_null a.revoked_at ≡ false
    → (faults : List Bool) (now : ℕ) (sg : Signer)
    → (key_for_signature o now id (record { state = u; faults = faults })).0 ≢ ok sg
revoked_never_signs {o} {t} {u} c id {k} {a} found agent off faults now sg h =
    let (j, j_found, j_later) = (calls_Later c).keys id found in
    let (b, b_found, b_later) = (calls_Later c).agents k.agent_id agent in
    let p = key_for_signature-IsSigner o now id (record { state = u; faults = faults }) h in
    let same_row : IsSigner.row p ≡ j = some_eq (sym (IsSigner.row_found p) ∙ j_found) in
    let at_row : agent_by_id k.agent_id u.agents ≡ some (IsSigner.agent p) =
      rw⁻¹ (KeyLater.agent_id j_later) (rw⁻¹ same_row (IsSigner.agent_found p)) in
    let same_agent : b ≡ IsSigner.agent p = some_eq (sym b_found ∙ at_row) in
    absurd (
      clash a b (IsSigner.agent p) same_agent (AgentLater.stays_revoked b_later off) off
        (IsSigner.not_revoked p))
