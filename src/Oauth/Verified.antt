-- ===== src/Oauth/Verified.antt =====
-- Which tokens are accepted.
use Prim.Native.String.{◌++◌}
use aerarium_agentic_banking.Common.{
  ℕ, ◌+◌, String, ◌≡◌, ◌≢◌, refl, sym, ap, ◌∙◌, ◌⊎◌, inl, inr, ◌==◌, true, false, Option, none,
  some, List, [], ◌∷◌, arith, eq_iff, eq_refl, ltb, if◌then◌else◌, Result, ok, err, Bool-cases,
  Option-cases, eq_false_of_ne,
}
use aerarium_agentic_banking.Common.Int.{pos, leb_ℤ, ◌<ℤ◌}
use aerarium_agentic_banking.Oauth.Token.{
  token_ttl, Claims, TokenError, token_expired, Codec, Issuer, fixed_header, sign, claims_of,
  signing_input, with_payload, issue, signature_matches, is_header, check_claims, check_payload,
  check_parts, verify,
}

-- What Go's library promises of the three parts of a token: decoding undoes encoding, the encoded
-- parts have no dot, and the claims are read back as they were written.
pub record ReadsBack (o : Codec) (c : Claims) (payload mac : String) : Type 0 where
  pub decode_header : o.decode (o.encode fixed_header) ≡ some fixed_header
  pub decode_payload : o.decode (o.encode payload) ≡ some payload
  pub split_parts :
      o.split (signing_input o payload ++ ("." ++ o.encode mac))
      ≡ o.encode fixed_header ∷ o.encode payload ∷ o.encode mac ∷ []
  pub unmarshal_payload : o.unmarshal payload ≡ some c

-- The verifier still has the key that the token was signed with.
abbrev pub HasKey : Issuer → Issuer → Type 0
HasKey j i =
    (j.signing_key ≡ i.signing_key) ⊎ ((j.previous_key ≢ "") × (j.previous_key ≡ i.signing_key))

HasKey-matches :
    (o : Codec) (j i : Issuer) (input : String)
    → HasKey j i
    → signature_matches o j input (sign o i.signing_key input) ≡ true
unfolding signature_matches
HasKey-matches o j i input (inl e) = rw (e, eq_refl) refl
HasKey-matches o j i input (inr (n, e)) =
    rw (eq_false_of_ne j.previous_key "" n, e, eq_refl)
      (elim (Bool-cases (sign o j.signing_key input == sign o i.signing_key input)) [
        | inl x ↦ rw x refl
        | inr x ↦ rw x refl
      ])

late_false :
    (now t : ℕ) → ltb t (now + token_ttl) ≡ true → leb_ℤ (pos (now + token_ttl)) (pos t) ≡ false
late_false now t h = ground arith

late_true :
    (now t : ℕ) → ltb t (now + token_ttl) ≡ false → leb_ℤ (pos (now + token_ttl)) (pos t) ≡ true
late_true now t h = ground arith

-- A token is accepted with the claims it was issued with until its hour is over, and called expired
-- from then on, by a verifier of the same name that has the key in use or as the one before.
pub issue-verify :
    (o : Codec) (i j : Issuer) (now t : ℕ) (client : String) (scopes : List String)
    (token_id : String) {payload : String}
    → o.marshal (claims_of i now client scopes token_id) ≡ some payload
    → ReadsBack o
        (claims_of i now client scopes token_id)
        payload
        (o.hmac i.signing_key (signing_input o payload))
    → j.issuer ≡ i.issuer
    → HasKey j i
    → (token : String) × (c : Claims) × (issue o i now client scopes token_id ≡ some (token, c))
      × (verify o j t token ≡ (if ltb t (now + token_ttl) then ok c else err token_expired))
unfolding issue with_payload verify check_parts check_payload check_claims sign
issue-verify o i j now t client scopes token_id {payload} m l e k = (
  signing_input o payload ++ ("." ++ sign o i.signing_key (signing_input o payload)),
  claims_of i now client scopes token_id,
  rw m refl,
  rw
      (
        l.split_parts,
        l.decode_header,
        HasKey-matches o j i (signing_input o payload) k,
        l.decode_payload,
        l.unmarshal_payload,
        e,
        eq_refl,
      )
      (elim (Bool-cases (ltb t (now + token_ttl))) [
        | inl x ↦ rw x (rw (late_false now t x) refl)
        | inr x ↦ rw x (rw (late_true now t x) refl)
      ]),
)

-- What an accepted token is: three parts under the one header, signed with the key in use or the
-- one before, whose claims name this issuer and have not expired.
pub record IsAccepted (o : Codec) (i : Issuer) (now : ℕ) (token : String) (c : Claims)
    : Type 0 where
  pub header : String
  pub payload : String
  pub signature : String
  pub parts : o.split token ≡ header ∷ payload ∷ signature ∷ []
  pub fixed : o.decode header ≡ some fixed_header
  pub signed :
      (signature ≡ sign o i.signing_key (header ++ ("." ++ payload)))
      ⊎ ((i.previous_key ≢ "") × (signature ≡ sign o i.previous_key (header ++ ("." ++ payload))))
  pub text : String
  pub decoded : o.decode payload ≡ some text
  pub read : o.unmarshal text ≡ some c
  pub named : c.issuer ≡ i.issuer
  pub alive : pos now <ℤ c.expires_at

not_ok : {x : TokenError} {c : Claims} → ◌≢◌ {A = Result {0, 0} TokenError Claims} (err x) (ok c)
not_ok h = cc

ok_eq : {x y : Claims} → ◌≡◌ {A = Result {0, 0} TokenError Claims} (ok x) (ok y) → x ≡ y
ok_eq h = cc

header_fixed : (m : Option String) → is_header m ≡ true → m ≡ some fixed_header
header_fixed none h = absurd (ground arith)
header_fixed (some x) h = ap some ((eq_iff x fixed_header).0 h)

ne_of_false : (x y : String) → (x == y) ≡ false → x ≢ y
ne_of_false x y h e = ground (arith, eq_iff x y)

matches_signed :
    (o : Codec) (i : Issuer) (input s : String)
    → signature_matches o i input s ≡ true
    → (s ≡ sign o i.signing_key input) ⊎ ((i.previous_key ≢ "") × (s ≡ sign o i.previous_key input))
unfolding signature_matches
matches_signed o i input s h = elim (Bool-cases (sign o i.signing_key input == s)) [
  | inl e ↦ inl (sym ((eq_iff _ s).0 e))
  | inr e ↦
      let z = rw e at h in
      elim (Bool-cases (i.previous_key == "")) [
        | inl f ↦ let y = rw f at z in absurd (ground arith)
        | inr f ↦ let y = rw f at z in inr (ne_of_false i.previous_key "" f, sym ((eq_iff _ s).0 y))
      ]
]

-- The claims that are checked well.
record IsChecked (i : Issuer) (now : ℕ) (m : Option Claims) (c : Claims) : Type 0 where
  read : m ≡ some c
  named : c.issuer ≡ i.issuer
  alive : pos now <ℤ c.expires_at

checked_alive :
    (c : Claims) (now : ℕ) → leb_ℤ c.expires_at (pos now) ≡ false → pos now <ℤ c.expires_at
checked_alive c now h = ground arith

check_claims-IsChecked :
    (i : Issuer) (now : ℕ) (m : Option Claims) {c : Claims}
    → check_claims i now m ≡ ok c
    → IsChecked i now m c
unfolding check_claims
check_claims-IsChecked i now none h = absurd (not_ok h)
check_claims-IsChecked i now (some d) {c} h = elim (Bool-cases (d.issuer == i.issuer)) [
  | inr e ↦ let z = rw e at h in absurd (not_ok z)
  | inl e ↦
      let z = rw e at h in
      elim (Bool-cases (leb_ℤ d.expires_at (pos now))) [
        | inl f ↦ let y = rw f at z in absurd (not_ok y)
        | inr f ↦
            let y = rw f at z in
            let same : d ≡ c = ok_eq y in
            record {
              read = ap some same;
              named = ap (λ x. x.issuer) (sym same) ∙ (eq_iff d.issuer i.issuer).0 e;
              alive = checked_alive c now (ap (λ x. leb_ℤ x.expires_at (pos now)) (sym same) ∙ f);
            }
      ]
]

check_parts-IsAccepted :
    (o : Codec) (i : Issuer) (now : ℕ) (token h p s : String) {c : Claims}
    → o.split token ≡ h ∷ p ∷ s ∷ []
    → check_parts o i now (h ∷ p ∷ s ∷ []) ≡ ok c
    → IsAccepted o i now token c
unfolding check_parts check_payload
check_parts-IsAccepted o i now token h p s {c} parts r =
    elim (Bool-cases (is_header (o.decode h))) [
      | inr e ↦ let z = rw e at r in absurd (not_ok z)
      | inl e ↦
          let z = rw e at r in
          elim (Bool-cases (signature_matches o i (h ++ ("." ++ p)) s)) [
            | inr f ↦ let y = rw f at z in absurd (not_ok y)
            | inl f ↦
                let y = rw f at z in
                elim (Option-cases (o.decode p)) [
                  | inl n ↦ let x = rw n at y in absurd (not_ok x)
                  | inr (text, n) ↦
                      let x = rw n at y in
                      let q = check_claims-IsChecked i now (o.unmarshal text) x in
                      record {
                        header = h;
                        payload = p;
                        signature = s;
                        parts = parts;
                        fixed = header_fixed (o.decode h) e;
                        signed = matches_signed o i (h ++ ("." ++ p)) s f;
                        text = text;
                        decoded = n;
                        read = q.read;
                        named = q.named;
                        alive = q.alive;
                      }
                ]
          ]
    ]

verify_parts :
    (o : Codec) (i : Issuer) (now : ℕ) (token : String) (l : List String) {c : Claims}
    → o.split token ≡ l
    → check_parts o i now l ≡ ok c
    → IsAccepted o i now token c
unfolding check_parts
verify_parts o i now token [] e h = absurd (not_ok h)
verify_parts o i now token (x ∷ []) e h = absurd (not_ok h)
verify_parts o i now token (x ∷ y ∷ []) e h = absurd (not_ok h)
verify_parts o i now token (x ∷ y ∷ z ∷ []) e h = check_parts-IsAccepted o i now token x y z e h
verify_parts o i now token (x ∷ y ∷ z ∷ u ∷ l) e h = absurd (not_ok h)

-- Only such a token is accepted, whatever algorithm it names.
pub verify-IsAccepted :
    (o : Codec) (i : Issuer) (now : ℕ) (token : String) {c : Claims}
    → verify o i now token ≡ ok c
    → IsAccepted o i now token c
unfolding verify
verify-IsAccepted o i now token h = verify_parts o i now token (o.split token) refl h
