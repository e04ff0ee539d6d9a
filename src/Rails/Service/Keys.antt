-- ===== src/Rails/Service/Keys.antt =====
-- The idempotency keys of the phases of a transfer.
use Prim.Native.String.{◌++◌, count}
use text.Mathlib.TextLemmas.{append_assoc, append_cancel_left, append_inj}
use aerarium_agentic_banking.Common.{String, ap, ◌↔◌, ◌≡◌, refl, sym, ◌∙◌, ◌≢◌, arith, eq_iff}
use aerarium_agentic_banking.Rails.Service.{inbound_key, reserve_key, settle_key, reverse_key}

-- Two texts that differ in a part at one place differ, whatever comes behind.
texts_ne :
    (p a b s t x y : String)
    → count a ≡ count b
    → a ≢ b
    → ((p ++ a) ++ s) ++ x ≢ ((p ++ b) ++ t) ++ y
texts_ne p a b s t x y n h e =
    let left = append_assoc (p ++ a) s x ∙ append_assoc p a (s ++ x) in
    let right = append_assoc (p ++ b) t y ∙ append_assoc p b (t ++ y) in
    h (append_inj (append_cancel_left p _ _ (sym left ∙ e ∙ right)) n).0

-- The keys of two phases differ behind the rail's name if their phases do.
keys_ne : (n p q : String) → p ≢ q → "rail:" ++ (n ++ p) ≢ "rail:" ++ (n ++ q)
keys_ne n p q h e = h (append_cancel_left n p q (append_cancel_left "rail:" (n ++ p) (n ++ q) e))

key_injective : (n p x y : String) → "rail:" ++ (n ++ (p ++ x)) ≡ "rail:" ++ (n ++ (p ++ y)) → x ≡ y
key_injective n p x y e =
    append_cancel_left p x y (append_cancel_left n _ _ (append_cancel_left "rail:" _ _ e))

key_iff : (n p x y : String) → ("rail:" ++ (n ++ (p ++ x)) ≡ "rail:" ++ (n ++ (p ++ y))) ↔ (x ≡ y)
key_iff n p x y = (key_injective n p x y, λ e. ap (λ t. "rail:" ++ (n ++ (p ++ t))) e)

r_ne_s : ◌≢◌ {A = String} "r" "s"
r_ne_s = ground (arith, eq_iff "r" "s")

s_ne_v : ◌≢◌ {A = String} "s" "v"
s_ne_v = ground (arith, eq_iff "s" "v")

i_ne_o : ◌≢◌ {A = String} "i" "o"
i_ne_o = ground (arith, eq_iff "i" "o")

-- Within a rail no key of one phase is a key of another, whatever the two transfers.
pub reserve_key-ne-settle_key : (n x y : String) → reserve_key n x ≢ settle_key n y
reserve_key-ne-settle_key n x y =
    keys_ne n _ _ (texts_ne ":out-" "r" "s" "eserve:" "ettle:" x y refl r_ne_s)

pub reserve_key-ne-reverse_key : (n x y : String) → reserve_key n x ≢ reverse_key n y
reserve_key-ne-reverse_key n x y =
    keys_ne n _ _ (texts_ne ":out-re" "s" "v" "erve:" "erse:" x y refl s_ne_v)

pub reverse_key-ne-settle_key : (n x y : String) → reverse_key n x ≢ settle_key n y
reverse_key-ne-settle_key n x y =
    keys_ne n _ _ (texts_ne ":out-" "r" "s" "everse:" "ettle:" x y refl r_ne_s)

pub inbound_key-ne-reserve_key : (n x y : String) → inbound_key n x ≢ reserve_key n y
inbound_key-ne-reserve_key n x y =
    keys_ne n _ _ (texts_ne ":" "i" "o" "n:" "ut-reserve:" x y refl i_ne_o)

pub inbound_key-ne-settle_key : (n x y : String) → inbound_key n x ≢ settle_key n y
inbound_key-ne-settle_key n x y =
    keys_ne n _ _ (texts_ne ":" "i" "o" "n:" "ut-settle:" x y refl i_ne_o)

pub inbound_key-ne-reverse_key : (n x y : String) → inbound_key n x ≢ reverse_key n y
inbound_key-ne-reverse_key n x y =
    keys_ne n _ _ (texts_ne ":" "i" "o" "n:" "ut-reverse:" x y refl i_ne_o)

-- Within a rail a key tells its phase and its transfer: the keys of two phases never collide, and
-- those of one phase are equal only for the same transfer.
pub keys_separate :
    (n x y : String)
    → (reserve_key n x ≢ settle_key n y)
      × (reserve_key n x ≢ reverse_key n y)
      × (reverse_key n x ≢ settle_key n y)
      × (inbound_key n x ≢ reserve_key n y)
      × (inbound_key n x ≢ settle_key n y)
      × (inbound_key n x ≢ reverse_key n y)
      × ((reserve_key n x ≡ reserve_key n y) ↔ (x ≡ y))
      × ((settle_key n x ≡ settle_key n y) ↔ (x ≡ y))
      × ((reverse_key n x ≡ reverse_key n y) ↔ (x ≡ y))
      × ((inbound_key n x ≡ inbound_key n y) ↔ (x ≡ y))
keys_separate n x y = (
  reserve_key-ne-settle_key n x y,
  reserve_key-ne-reverse_key n x y,
  reverse_key-ne-settle_key n x y,
  inbound_key-ne-reserve_key n x y,
  inbound_key-ne-settle_key n x y,
  inbound_key-ne-reverse_key n x y,
  key_iff n ":out-reserve:" x y,
  key_iff n ":out-settle:" x y,
  key_iff n ":out-reverse:" x y,
  key_iff n ":in:" x y,
)
